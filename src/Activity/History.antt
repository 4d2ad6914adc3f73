-- ===== src/Activity/History.antt =====
-- src/manager/activity.rs: the tracker after a history of contacts, a fold over their list.
use rsupervisord.Prelude.{
  ℕ, ◌+◌, ◌-◌, ◌<◌, ◌≡◌, refl, sym, ap, ◌∙◌, arith, Bool, true, not, ◌&&◌, ◌||◌, List, [], ◌∷◌,
  ◌++◌, ◌==◌, ltb, u64, u64_mod, from_secs, u64_lem,
}
use rsupervisord.Activity.{
  ActivityTracker, Contact, contact, contacts, with_interval, is_metrics_active, notify_waiters,
  record_activity, reset_activity, enter_stream, drop_guard,
}

-- The streams that are open after a history, where `n` are open before it.
abbrev pub open_streams : ℕ → List Contact → ℕ
open_streams n [] = n
open_streams n (Contact.records now ∷ cs) = open_streams n cs
open_streams n (Contact.resets now ∷ cs) = open_streams n cs
open_streams n (Contact.enters now ∷ cs) = open_streams (n + 1) cs
open_streams n (Contact.leaves ∷ cs) = open_streams (n - 1) cs

-- Each stream that ends has been entered, and their number is a `usize`.
abbrev pub paired : ℕ → List Contact → Bool
paired n [] = true
paired n (Contact.records now ∷ cs) = paired n cs
paired n (Contact.resets now ∷ cs) = paired n cs
paired n (Contact.enters now ∷ cs) = let rest = paired (n + 1) cs in ltb (n + 1) u64_mod && rest
paired n (Contact.leaves ∷ cs) = let rest = paired (n - 1) cs in ltb 0 n && rest

-- The instant of the last call.
abbrev pub last_call : ℕ → List Contact → ℕ
last_call t [] = t
last_call t (Contact.records now ∷ cs) = last_call now cs
last_call t (Contact.resets now ∷ cs) = last_call now cs
last_call t (Contact.enters now ∷ cs) = last_call now cs
last_call t (Contact.leaves ∷ cs) = last_call t cs

-- The instant of a contact; a stream ends at any.
abbrev pub instant : ℕ → Contact → ℕ
instant now (Contact.records t) = t
instant now (Contact.resets t) = t
instant now (Contact.enters t) = t
instant now Contact.leaves = now

abbrev Fields : Type 0
Fields = ℕ × ℕ × ℕ × Bool

abbrev fields : ActivityTracker → Fields
fields t = (t.active_observers, t.last_activity, t.idle_timeout_secs, t.enabled)

fields-record_activity :
    (now : ℕ) (t : ActivityTracker)
    → fields (record_activity now t) ≡ (t.active_observers, now, t.idle_timeout_secs, t.enabled)
unfolding record_activity notify_waiters
fields-record_activity now t = ground arith

fields-enter_stream :
    (now : ℕ) (t : ActivityTracker)
    → t.active_observers + 1 < u64_mod
    → fields (enter_stream now t) ≡ (t.active_observers + 1, now, t.idle_timeout_secs, t.enabled)
unfolding enter_stream notify_waiters
fields-enter_stream now t h = ground (
  arith,
  u64_lem (t.active_observers + 1) h,
  fields-record_activity now (record t { active_observers = u64 (t.active_observers + 1) }),
)

u64-pred : (n : ℕ) → 0 < n → n < u64_mod → u64 (n + (u64_mod - 1)) ≡ n - 1
unfolding u64
u64-pred n h k = omega (arith, h, k)

fields-drop_guard :
    (t : ActivityTracker)
    → 0 < t.active_observers
    → t.active_observers < u64_mod
    → fields (drop_guard t)
      ≡ (t.active_observers - 1, t.last_activity, t.idle_timeout_secs, t.enabled)
unfolding drop_guard
fields-drop_guard t h k = ground (arith, u64-pred t.active_observers h k)

-- What the history makes of the fields.
abbrev after : List Contact → Fields → Fields
after cs (n, t, timeout, enabled) = (open_streams n cs, last_call t cs, timeout, enabled)

open_streams-lt :
    (cs : List Contact) (n : ℕ) → n < u64_mod → paired n cs ≡ true → open_streams n cs < u64_mod
open_streams-lt [] n h k = h
open_streams-lt (Contact.records now ∷ cs) n h k = open_streams-lt cs n h k
open_streams-lt (Contact.resets now ∷ cs) n h k = open_streams-lt cs n h k
open_streams-lt (Contact.enters now ∷ cs) n h k =
    open_streams-lt cs (n + 1) (ground (arith, k)) (ground (arith, k))
open_streams-lt (Contact.leaves ∷ cs) n h k =
    open_streams-lt cs (n - 1) (ground (arith, h)) (ground (arith, k))

fields-contact :
    (c : Contact) (t : ActivityTracker)
    → t.active_observers < u64_mod
    → paired t.active_observers (c ∷ []) ≡ true
    → fields (contact c t) ≡ after (c ∷ []) (fields t)
unfolding contact
fields-contact (Contact.records now) t h k = fields-record_activity now t
fields-contact (Contact.resets now) t h k = unfold reset_activity notify_waiters in refl
fields-contact (Contact.enters now) t h k = fields-enter_stream now t (ground (arith, k))
fields-contact Contact.leaves t h k = fields-drop_guard t (ground (arith, k)) h

paired-cons :
    (c : Contact) (cs : List Contact) (n : ℕ)
    → paired n (c ∷ cs) ≡ (paired n (c ∷ []) && paired (open_streams n (c ∷ [])) cs)
paired-cons (Contact.records now) cs n = ground arith
paired-cons (Contact.resets now) cs n = ground arith
paired-cons (Contact.enters now) cs n = ground arith
paired-cons Contact.leaves cs n = ground arith

paired-append :
    (cs : List Contact) (c : Contact) (n : ℕ)
    → paired n (cs ++ c ∷ []) ≡ (paired n cs && paired (open_streams n cs) (c ∷ []))
paired-append [] c n = refl
paired-append (Contact.records now ∷ cs) c n = paired-append cs c n
paired-append (Contact.resets now ∷ cs) c n = paired-append cs c n
paired-append (Contact.enters now ∷ cs) c n = ground (arith, paired-append cs c (n + 1))
paired-append (Contact.leaves ∷ cs) c n = ground (arith, paired-append cs c (n - 1))

after-cons :
    (c : Contact) (cs : List Contact) (f : Fields) → after (c ∷ cs) f ≡ after cs (after (c ∷ []) f)
after-cons (Contact.records now) cs f = refl
after-cons (Contact.resets now) cs f = refl
after-cons (Contact.enters now) cs f = refl
after-cons Contact.leaves cs f = refl

fields-contacts :
    (cs : List Contact) (t : ActivityTracker)
    → t.active_observers < u64_mod
    → paired t.active_observers cs ≡ true
    → fields (contacts cs t) ≡ after cs (fields t)
unfolding contacts
fields-contacts [] t h k = refl
fields-contacts (c ∷ cs) t h k =
    let t' = contact c t in
    let p : paired t.active_observers (c ∷ []) ≡ true =
      ground (arith, k, paired-cons c cs t.active_observers) in
    let e = fields-contact c t h p in
    let o : t'.active_observers ≡ open_streams t.active_observers (c ∷ []) = ap (λ f. f.0) e in
    let lt = open_streams-lt (c ∷ []) t.active_observers h p in
    let rest =
      fields-contacts cs t' (ground (arith, o, lt))
        (ground (arith, k, o, paired-cons c cs t.active_observers)) in
    rest ∙ ap (after cs) e ∙ sym (after-cons c cs (fields t))

-- Metrics are sampled: a stream is open, or there is no timeout, or it is not over since the last call.
abbrev pub is_watched : (timeout : ℕ) → Bool → ℕ → (streams last : ℕ) → Bool
is_watched timeout enabled now streams last =
    enabled && (ltb 0 streams || (timeout == 0 || ltb (now - last) (from_secs timeout)))

is_metrics_active-eq :
    (now : ℕ) (t : ActivityTracker)
    → is_metrics_active now t
      ≡ is_watched t.idle_timeout_secs t.enabled now t.active_observers t.last_activity
unfolding is_metrics_active
is_metrics_active-eq now t = ground arith

-- A contact at which the sampling begins wakes the samplers.
abbrev pub wakes : ℕ → Contact → ActivityTracker → Bool
wakes now c t =
    is_metrics_active (instant now c) t
    || (not (is_metrics_active (instant now c) (contact c t))
        || ltb t.notifications (contact c t).notifications)

contact_wakes :
    (now : ℕ) (c : Contact) (t : ActivityTracker)
    → t.active_observers < u64_mod
    → paired t.active_observers (c ∷ []) ≡ true
    → wakes now c t ≡ true
unfolding contact record_activity reset_activity enter_stream notify_waiters
contact_wakes now (Contact.records s) t h k = ground arith
contact_wakes now (Contact.resets s) t h k = ground arith
contact_wakes now (Contact.enters s) t h k = ground arith
contact_wakes now Contact.leaves t h k =
    let t' = drop_guard t in
    let e = fields-drop_guard t (ground (arith, k)) h in
    let n : t'.active_observers ≡ t.active_observers - 1 = ap (λ f. f.0) e in
    let l : t'.last_activity ≡ t.last_activity = ap (λ f. f.1) e in
    let s : t'.idle_timeout_secs ≡ t.idle_timeout_secs = ap (λ f. f.2) e in
    let b : t'.enabled ≡ t.enabled = ap (λ f. f.3) e in
    ground (arith, k, n, l, s, b, is_metrics_active-eq now t, is_metrics_active-eq now t')

module _ (start timeout interval : ℕ) (enabled : Bool) where
  -- After a history of contacts in which every stream that ends has been entered, the sampling of
  -- metrics is on exactly if metrics are enabled and a stream is open, or there is no timeout, or
  -- less than the timeout has passed since the last call; and a further contact at which it goes on
  -- wakes the samplers.
  pub contacts-eq-is_watched :
      (cs : List Contact) (c : Contact) (now : ℕ)
      → paired 0 (cs ++ c ∷ []) ≡ true
      → let t = contacts cs (with_interval start timeout interval enabled) in
        (is_metrics_active now t
          ≡ is_watched timeout enabled now (open_streams 0 cs) (last_call start cs))
        × (wakes now c t ≡ true)
  contacts-eq-is_watched cs c now h =
      let new = with_interval start timeout interval enabled in
      let t = contacts cs new in
      let p : paired 0 cs ≡ true = ground (arith, h, paired-append cs c 0) in
      let e : fields t ≡ after cs (0, start, timeout, enabled) =
        unfold with_interval in fields-contacts cs new (ground arith) p in
      let n : t.active_observers ≡ open_streams 0 cs = ap (λ f. f.0) e in
      let l : t.last_activity ≡ last_call start cs = ap (λ f. f.1) e in
      let s : t.idle_timeout_secs ≡ timeout = ap (λ f. f.2) e in
      let b : t.enabled ≡ enabled = ap (λ f. f.3) e in
      let lt = open_streams-lt cs 0 (ground arith) p in
      (
        ground (arith, n, l, s, b, is_metrics_active-eq now t),
        contact_wakes now c t (ground (arith, n, lt)) (ground (arith, n, h, paired-append cs c 0)),
      )
