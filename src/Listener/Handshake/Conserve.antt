-- ===== src/Listener/Handshake/Conserve.antt =====
-- What becomes of the events of a pool in one step of the handshake.
use rsupervisord.Prelude.{
  ℕ, ◌≤◌, ◌<◌, ◌≡◌, ◌⊎◌, inl, inr, refl, arith, Bool, true, Option, none, some, List, [], ◌∷◌, ◌++◌,
  Text, length, pop_back, ltb, ltb→le, Bool-cases, Option-cases,
}
use rsupervisord.Listener.Wire.{EventEnvelope, ListenerState, ProcessResult, evaluate_result}
use rsupervisord.Listener.Pool.{Pool, requeue_rejected, pop_next_event}
use rsupervisord.Listener.Handshake.Held.{Held}
use rsupervisord.Listener.Handshake.{
  Task, TaskEvent, give_back, violate, finish, on_acknowledged_line, on_result, result_len,
  on_busy_line, on_dispatch, act, max_result_bytes,
}

abbrev pub held : Option EventEnvelope → List EventEnvelope
held none = []
held (some e) = e ∷ []

-- The event at the process, then the buffer.
abbrev pub in_flight : Task → List EventEnvelope
in_flight t = held t.current_envelope ++ t.pool.buffer

-- The process answered a `RESULT` of an allowed length with "OK".
pub record Answered (e : TaskEvent) : Type 0 where
  pub line : Text
  pub read_exact : ℕ → Option Text
  pub is_line : e ≡ TaskEvent.read_line line read_exact
  pub len : ℕ
  pub has_len : result_len line ≡ some len
  pub allowed : len ≤ max_result_bytes
  pub body : Text
  pub was_read : read_exact len ≡ some body
  pub is_ok : evaluate_result body ≡ ProcessResult.ok

-- Nothing is lost but by the bound of the buffer: the events in flight are as before, or the
-- newest one gave way to the one that came back.
abbrev pub Kept : Task → Task → Type 0
Kept t t' =
    (in_flight t' ≡ in_flight t)
    ⊎ ((t.pool.buffer_size ≤ length t.pool.buffer) × (in_flight t' ≡ pop_back (in_flight t)))

pop_back-cons :
    (e : EventEnvelope) (es : List EventEnvelope)
    → 0 < length es
    → pop_back (e ∷ es) ≡ e ∷ pop_back es
pop_back-cons e [] h = absurd (omega arith)
pop_back-cons e (x ∷ xs) h = refl

module _ (t : Task) (sized : 0 < t.pool.buffer_size) where
  give_back-Kept : Kept t (give_back t)
  unfolding give_back requeue_rejected
  give_back-Kept = ground (arith, λ (e : EventEnvelope). pop_back-cons e t.pool.buffer)

  on_dispatch-Kept : (written : Bool) → t.current_envelope ≡ none → Kept t (on_dispatch written t)
  unfolding on_dispatch finish give_back pop_next_event requeue_rejected
  on_dispatch-Kept written idle = go t.pool.buffer refl
    where
      go : (b : List EventEnvelope) → t.pool.buffer ≡ b → Kept t (on_dispatch written t)
      go [] h = inl (rw h)
      go (e ∷ es) h = rw h (ground (arith, h, λ (e : EventEnvelope). pop_back-cons e es))

module _ (t : Task) where
  on_result_cases :
      (body : Text)
      → (in_flight (on_result body t) ≡ in_flight (give_back t))
        ⊎ ((evaluate_result body ≡ ProcessResult.ok)
            × (in_flight (on_result body t) ≡ t.pool.buffer))
  unfolding on_result
  on_result_cases body = ground arith

  module _ (line : Text) (read_exact : ℕ → Option Text) where
    abbrev Fate : Task → Type 0
    Fate t' =
        (in_flight t' ≡ in_flight (give_back t))
        ⊎ (Answered (TaskEvent.read_line line read_exact) × (in_flight t' ≡ t.pool.buffer))

    violate-Fate : Fate (violate t)
    unfolding violate give_back requeue_rejected
    violate-Fate = ground arith

    on_result-Fate :
        (len : ℕ) (body : Text)
        → result_len line ≡ some len
        → len ≤ max_result_bytes
        → read_exact len ≡ some body
        → Fate (on_result body t)
    on_result-Fate len body has_len allowed was_read = elim (on_result_cases body) [
      | inl back ↦ inl back
      | inr (is_ok, gone) ↦ inr (
        record {
          line = line;
          read_exact = read_exact;
          is_line = refl;
          len = len;
          has_len = has_len;
          allowed = allowed;
          body = body;
          was_read = was_read;
          is_ok = is_ok;
        },
        gone,
      )
    ]

    -- A line in BUSY gives the event back, unless it is an answer with "OK".
    on_busy_line-Fate : Fate (on_busy_line line read_exact t)
    unfolding on_busy_line
    on_busy_line-Fate = elim (Option-cases (result_len line)) [
      | inl e ↦ rw (on_busy_line, e) violate-Fate
      | inr (len, e) ↦
          rw (on_busy_line, e)
            (elim (Bool-cases (ltb max_result_bytes len)) [
              | inl large ↦ rw large violate-Fate
              | inr f ↦ rw f (elim (Option-cases (read_exact len)) [
                | inl r ↦ rw r violate-Fate
                | inr (body, r) ↦ rw r (on_result-Fate len body e (ltb→le _ _ f) r)
              ])
            ])
    ]

-- What becomes of the events in flight in a step with the event `e`.
abbrev pub Fates : TaskEvent → Task → Task → Type 0
Fates e t t' =
    Kept t t'
    ⊎ (Answered e × ((head : EventEnvelope) × (in_flight t ≡ head ∷ in_flight t')))
    ⊎ ((e ≡ TaskEvent.cancelled) × (in_flight t' ≡ t.pool.buffer))

read_line-Fates :
    (line : Text) (read_exact : ℕ → Option Text) (t : Task)
    → t.state ≡ ListenerState.busy
    → t.running ≡ true
    → Held t
    → Fates (TaskEvent.read_line line read_exact) t (on_busy_line line read_exact t)
read_line-Fates line read_exact t busy on h = elim (on_busy_line-Fate t line read_exact) [
  | inl back ↦ inl (ground (arith, back, give_back-Kept t h.sized))
  | inr (answered, gone) ↦ elim (Option-cases t.current_envelope) [
    | inl e ↦ absurd (ground (arith, e, h.busy on busy))
    | inr (head, at) ↦ inr (inl (answered, (head, ground (arith, gone, at))))
  ]
]

pub act-Fates : (e : TaskEvent) (t : Task) → t.running ≡ true → Held t → Fates e t (act e t)
unfolding act
act-Fates TaskEvent.cancelled t on h = inr (inr (refl, refl))
act-Fates TaskEvent.closed t on h =
    inl (unfold finish in ground (arith, on, give_back-Kept t h.sized))
act-Fates (TaskEvent.dispatch written) t on h =
    inl (ground (arith, on, h.idle, on_dispatch-Kept t h.sized written))
act-Fates (TaskEvent.read_line line read_exact) t on h = go t.state refl
  where
    go :
        (s : ListenerState)
        → t.state ≡ s
        → Fates
            (TaskEvent.read_line line read_exact)
            t
            (act (TaskEvent.read_line line read_exact) t)
    go ListenerState.busy e = rw (act, e) (read_line-Fates line read_exact t e on h)
    go ListenerState.acknowledged e = rw (act, e) (unfold on_acknowledged_line in inl (inl refl))
    go ListenerState.ready e = rw (act, e) (inl (inl refl))
    go ListenerState.unknown e = rw (act, e) (inl (inl refl))
