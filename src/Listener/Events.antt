-- ===== src/Listener/Events.antt =====
-- src/eventlistener/events.rs: names and payloads of the events, and the subscription test.
use rsupervisord.Prelude.{
  ℕ, ◌≡◌, ◌⊎◌, ◌↔◌, inl, inr, sym, ◌∙◌, arith, Bool, true, ◌||◌, Option, none, some, List, [], ◌∷◌,
  ◌++◌, any, Text, codes, text_eq, trim, decimal, to_ascii_uppercase, starts_with, if◌then◌else◌,
  append_assoc, Bool-cases,
}
use rsupervisord.Prelude.TextLaws.{text_eq_iff, starts_with_iff}
use rsupervisord.Program.State.{ProgramState, supervisor_name}

abbrev unwrap_pid : Option ℕ → ℕ
unwrap_pid none = 0
unwrap_pid (some p) = p

-- "processname:{} groupname:{} from_state:{}"
abbrev state_head : (process_name group_name : Text) → ProgramState → Text
state_head process_name group_name old_state =
    codes "processname:"
    ++ process_name
    ++ codes " groupname:"
    ++ group_name
    ++ codes " from_state:"
    ++ supervisor_name old_state

unfoldable pub format_process_state_event :
    (process_name group_name : Text) (old_state new_state : ProgramState) (pid : Option ℕ)
    (expected : Bool) (tries : ℕ)
    → Text × Text
unfolding decimal
format_process_state_event process_name group_name old_state new_state pid expected tries =
    let head = state_head process_name group_name old_state in
    let with_tries = head ++ codes " tries:" ++ decimal tries in
    let with_pid = head ++ codes " pid:" ++ decimal (unwrap_pid pid) in
    elim new_state [
      | ProgramState.starting ↦ (codes "PROCESS_STATE_STARTING", with_tries)
      | ProgramState.backoff ↦ (codes "PROCESS_STATE_BACKOFF", with_tries)
      | ProgramState.running ↦ (codes "PROCESS_STATE_RUNNING", with_pid)
      | ProgramState.stopping ↦ (codes "PROCESS_STATE_STOPPING", with_pid)
      | ProgramState.stopped ↦ (codes "PROCESS_STATE_STOPPED", with_pid)
      | ProgramState.exited ↦ (
        codes "PROCESS_STATE_EXITED",
        head
            ++ codes " expected:"
            ++ decimal (if expected then 1 else 0)
            ++ codes " pid:"
            ++ decimal (unwrap_pid pid),
      )
      | ProgramState.fatal ↦ (codes "PROCESS_STATE_FATAL", head)
    ]

unfoldable pub format_process_log_event :
    (process_name group_name : Text) (pid : Option ℕ) (stream data_ : Text) → Text × Text
unfolding text_eq decimal
format_process_log_event process_name group_name pid stream data_ =
    let is_stderr = text_eq stream (codes "stderr") in
    let channel = if is_stderr then codes "stderr" else codes "stdout" in
    (
      if is_stderr then codes "PROCESS_LOG_STDERR" else codes "PROCESS_LOG_STDOUT",
      codes "processname:"
          ++ process_name
          ++ codes " groupname:"
          ++ group_name
          ++ codes " pid:"
          ++ decimal (unwrap_pid pid)
          ++ codes " channel:"
          ++ channel
          ++ b'\n' ∷ data_,
    )

unfoldable pub format_tick_event : (interval when : ℕ) → Text × Text
unfolding decimal
format_tick_event interval when = (codes "TICK_" ++ decimal interval, codes "when:" ++ decimal when)

unfoldable pub format_remote_comm_event : (type_str data_ : Text) → Text × Text
format_remote_comm_event type_str data_ =
    (codes "REMOTE_COMMUNICATION", codes "type:" ++ type_str ++ b'\n' ∷ data_)

-- The body of the loop over the subscriptions.
unfoldable pub matches_one : (event_upper sub : Text) → Bool
unfolding text_eq trim to_ascii_uppercase starts_with
matches_one event_upper sub =
    let sub_upper = to_ascii_uppercase (trim sub) in
    text_eq sub_upper (codes "EVENT")
    || text_eq sub_upper event_upper
    || starts_with (sub_upper ++ b'_' ∷ []) event_upper

unfoldable pub event_matches_subscription : Text → List Text → Bool
unfolding to_ascii_uppercase
event_matches_subscription event_name subscribed =
    let event_upper = to_ascii_uppercase event_name in any (matches_one event_upper) subscribed

-- The event is the subscribed type, or of the subscribed family.
abbrev pub Covers : (sub event_upper : Text) → Type 0
Covers sub event_upper =
    let family = to_ascii_uppercase (trim sub) in
    (family ≡ codes "EVENT")
    ⊎ (family ≡ event_upper)
    ⊎ ((rest : Text) × (event_upper ≡ family ++ b'_' ∷ rest))

abbrev pub SomeOf : {A : Type 0} → (A → Type 0) → List A → Type 0
SomeOf P [] = ⊥
SomeOf P (x ∷ xs) = P x ⊎ SomeOf P xs

or_iff : (a b : Bool) → ((a || b) ≡ true) ↔ ((a ≡ true) ⊎ (b ≡ true))
or_iff a b = ground arith

matches_one_iff : (u s : Text) → (matches_one u s ≡ true) ↔ Covers s u
unfolding matches_one
matches_one_iff u s =
    let family = to_ascii_uppercase (trim s) in
    let a = text_eq_iff family (codes "EVENT") in
    let b = text_eq_iff family u in
    let c = starts_with_iff (family ++ b'_' ∷ []) u in
    let x = text_eq family (codes "EVENT") in
    let y = text_eq family u in
    let z = starts_with (family ++ b'_' ∷ []) u in
    let outer = or_iff (x || y) z in
    let inner = or_iff x y in
    (
      λ h. elim (outer.0 h) [
        | inl q ↦ elim (inner.0 q) [ inl p ↦ inl (a.0 p) | inr p ↦ inr (inl (b.0 p)) ]
        | inr p ↦ inr (inr ((c.0 p).0, (c.0 p).1 ∙ append_assoc family (b'_' ∷ []) (c.0 p).0))
      ],
      λ h. elim h [
        | inl p ↦ outer.1 (inl (inner.1 (inl (a.1 p))))
        | inr (inl p) ↦ outer.1 (inl (inner.1 (inr (b.1 p))))
        | inr (inr (rest, p)) ↦
            outer.1 (inr (c.1 (rest, p ∙ sym (append_assoc family (b'_' ∷ []) rest))))
      ],
    )

-- An event matches the subscriptions exactly if one of them, trimmed and in upper case as the
-- event's name is, is EVENT, the name itself, or the name of a family: what stands in front of an
-- underscore of the name.
pub event_matches_subscription_iff :
    (event_name : Text) (subscribed : List Text)
    → (event_matches_subscription event_name subscribed ≡ true)
      ↔ SomeOf (λ sub. Covers sub (to_ascii_uppercase event_name)) subscribed
unfolding event_matches_subscription
event_matches_subscription_iff event_name subscribed = go subscribed
  where
    go :
        (subs : List Text)
        → (any (matches_one (to_ascii_uppercase event_name)) subs ≡ true)
          ↔ SomeOf (λ sub. Covers sub (to_ascii_uppercase event_name)) subs
    go [] = (λ h. cc, λ h. absurd h)
    go (s ∷ ss) =
        let m = matches_one_iff (to_ascii_uppercase event_name) s in
        let r = go ss in
        (
          λ h. elim (Bool-cases (matches_one (to_ascii_uppercase event_name) s)) [
            | inl t ↦ inl (m.0 t)
            | inr f ↦ inr (r.0 (ground (arith, f)))
          ],
          λ h. elim h [ inl c ↦ rw (m.1 c) | inr c ↦ (let q = r.1 c in ground (arith, q)) ],
        )
