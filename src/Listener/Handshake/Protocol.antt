-- ===== src/Listener/Handshake/Protocol.antt =====
-- What a listener process must say to get events, and how many a pool keeps.
use rsupervisord.Prelude.{
  ℕ, ◌+◌, ◌≤◌, ◌<◌, ◌≡◌, refl, arith, Bool, true, false, Option, List, [], ◌∷◌, Text, codes,
  text_eq, trim, length, length-append, length-pop_back, if◌then◌else◌, max, Bool-cases, inl, inr,
}
use rsupervisord.Listener.Wire.{EventEnvelope, ListenerState}
use rsupervisord.Listener.Events.{event_matches_subscription}
use rsupervisord.Listener.Pool.{
  Pool, new, accept_event, requeue_rejected, pop_next_event, push_bounded,
}
use rsupervisord.Listener.Handshake.{
  Task, TaskEvent, give_back, violate, finish, on_acknowledged_line, on_result, on_busy_line,
  on_dispatch, act, task_step, spawn_task, PoolStep, pool_step, run_pool,
}

abbrev one_if : Bool → ℕ
one_if b = if b then 1 else 0

abbrev is_ready : ListenerState → Bool
is_ready ListenerState.ready = true
is_ready _ = false

-- The lines "READY" among the steps.
abbrev pub ready_lines : List PoolStep → ℕ
ready_lines [] = 0
ready_lines (PoolStep.accept n p ∷ es) = ready_lines es
ready_lines (PoolStep.listener (TaskEvent.read_line line r) ∷ es) =
    one_if (text_eq (trim line) (codes "READY")) + ready_lines es
ready_lines (PoolStep.listener e ∷ es) = ready_lines es

-- A READY that has not been answered by an event is worth one.
abbrev credit : Task → ℕ
credit t = length t.sent + one_if (is_ready t.state)

give_back-credit : (t : Task) → (credit (give_back t) ≡ credit t) × ((give_back t).sent ≡ t.sent)
unfolding give_back requeue_rejected
give_back-credit t = ground arith

violate-credit : (t : Task) → credit (violate t) ≤ credit t
unfolding violate
violate-credit t = ground (arith, give_back-credit (record t { state = ListenerState.unknown }))

on_busy_line-credit :
    (line : Text) (r : ℕ → Option Text) (t : Task) → credit (on_busy_line line r t) ≤ credit t
unfolding on_busy_line on_result
on_busy_line-credit line r t = ground (arith, violate-credit t, give_back-credit t)

on_dispatch-credit :
    (written : Bool) (t : Task)
    → t.state ≡ ListenerState.ready
    → credit (on_dispatch written t) ≤ credit t
unfolding on_dispatch finish pop_next_event
on_dispatch-credit written t e = go written t.pool.buffer refl
  where
    back : (p : Pool) → credit (give_back (record t { pool = p })) ≡ credit t
    back p = (give_back-credit (record t { pool = p })).0

    go :
        (w : Bool) (b : List EventEnvelope)
        → t.pool.buffer ≡ b
        → credit (on_dispatch w t) ≤ credit t
    go w [] q = ground (arith, q)
    go true (x ∷ xs) q = ground (arith, q, e, length-append t.sent (x ∷ []))
    go false (x ∷ xs) q = ground (arith, q, back (requeue_rejected x (pop_next_event t.pool).1))

act-credit :
    (e : TaskEvent) (t : Task)
    → credit (act e t) ≤ credit t + ready_lines (PoolStep.listener e ∷ [])
unfolding act
act-credit TaskEvent.cancelled t = ground arith
act-credit TaskEvent.closed t = unfold finish in ground (arith, give_back-credit t)
act-credit (TaskEvent.dispatch written) t = ground (arith, on_dispatch-credit written t)
act-credit (TaskEvent.read_line line r) t =
    unfold on_acknowledged_line in ground (arith, on_busy_line-credit line r t)

run_pool-credit :
    (steps : List PoolStep) (g : ℕ) (t : Task)
    → credit (run_pool steps (g, t)).1 ≤ credit t + ready_lines steps
unfolding run_pool
run_pool-credit [] g t = omega arith
run_pool-credit (e ∷ es) g t =
    let s = pool_step e (g, t) in
    let rest : credit (run_pool (e ∷ es) (g, t)).1 ≤ credit s.1 + ready_lines es =
      run_pool-credit es s.0 s.1 in
    omega (arith, rest, one e)
  where
    one :
        (e : PoolStep)
        → credit (pool_step e (g, t)).1 + ready_lines es ≤ credit t + ready_lines (e ∷ es)
    one (PoolStep.accept n p) = unfold pool_step in omega arith
    one (PoolStep.listener e) =
        unfold pool_step task_step in ground (arith, act-credit e t, split e)
      where
        split :
            (e : TaskEvent)
            → ready_lines (PoolStep.listener e ∷ es)
              ≡ ready_lines (PoolStep.listener e ∷ []) + ready_lines es
        split (TaskEvent.read_line line r) = omega arith
        split TaskEvent.closed = omega arith
        split TaskEvent.cancelled = omega arith
        split (TaskEvent.dispatch w) = omega arith

-- A listener process is never sent more events than it has said READY.
pub length-sent-le :
    (p : Pool) (g : ℕ) (steps : List PoolStep)
    → length (run_pool steps (g, spawn_task p)).1.sent ≤ ready_lines steps
unfolding spawn_task
length-sent-le p g steps = omega (arith, run_pool-credit steps g (spawn_task p))

push_bounded-Bounded :
    (size : ℕ) (es : List EventEnvelope) (e : EventEnvelope)
    → 0 < size
    → length es ≤ size
    → length (push_bounded size es e) ≤ size
unfolding push_bounded
push_bounded-Bounded size [] e p b = ground arith
push_bounded-Bounded size (x ∷ xs) e p b =
    ground (arith, length-append xs (e ∷ []), length-append (x ∷ xs) (e ∷ []))

module _ (size : ℕ) (positive : 0 < size) where
  abbrev Bounded : Pool → Type 0
  Bounded p = (p.buffer_size ≡ size) × (length p.buffer ≤ size)

  accept_event-Bounded :
      (n d : Text) (g : ℕ) (p : Pool) → Bounded p → Bounded (accept_event n d (g, p)).1
  unfolding accept_event
  accept_event-Bounded n d g p b = elim (Bool-cases (event_matches_subscription n p.events)) [
    | inl m ↦ simp m (b.0, simp (b.0) (push_bounded-Bounded size p.buffer _ positive b.1))
    | inr m ↦ simp m b
  ]

  requeue_rejected-Bounded :
      (e : EventEnvelope) (p : Pool) → Bounded p → Bounded (requeue_rejected e p)
  unfolding requeue_rejected
  requeue_rejected-Bounded e p b = ground (arith, b, length-pop_back p.buffer)

  give_back-Bounded : (t : Task) → Bounded t.pool → Bounded (give_back t).pool
  unfolding give_back
  give_back-Bounded t b =
      ground (arith, b, λ (e : EventEnvelope). requeue_rejected-Bounded e t.pool b)

  on_dispatch-Bounded :
      (written : Bool) (t : Task) → Bounded t.pool → Bounded (on_dispatch written t).pool
  unfolding on_dispatch finish pop_next_event
  on_dispatch-Bounded written t b = go written t.pool.buffer refl
    where
      go :
          (w : Bool) (es : List EventEnvelope) → t.pool.buffer ≡ es → Bounded (on_dispatch w t).pool
      go w [] q = ground (arith, q, b)
      go true (x ∷ xs) q = ground (arith, q, b)
      go false (x ∷ xs) q =
          let p = (pop_next_event t.pool).1 in
          let popped : Bounded p = ground (arith, q, b) in
          ground (
            arith,
            q,
            give_back-Bounded (record t { pool = requeue_rejected x p })
                (requeue_rejected-Bounded x p popped),
          )

  act-Bounded : (e : TaskEvent) (t : Task) → Bounded t.pool → Bounded (act e t).pool
  unfolding act on_busy_line on_result violate on_acknowledged_line finish
  act-Bounded TaskEvent.cancelled t b = b
  act-Bounded TaskEvent.closed t b = ground (arith, give_back-Bounded t b, b)
  act-Bounded (TaskEvent.dispatch written) t b = ground (arith, b, on_dispatch-Bounded written t b)
  act-Bounded (TaskEvent.read_line line r) t b = ground (
    arith,
    b,
    give_back-Bounded t b,
    give_back-Bounded (record t { state = ListenerState.unknown }) b,
  )

  run_pool-Bounded :
      (steps : List PoolStep) (g : ℕ) (t : Task)
      → Bounded t.pool
      → Bounded (run_pool steps (g, t)).1.pool
  unfolding run_pool
  run_pool-Bounded [] g t b = b
  run_pool-Bounded (e ∷ es) g t b = run_pool-Bounded es _ _ (one e)
    where
      one : (e : PoolStep) → Bounded (pool_step e (g, t)).1.pool
      one (PoolStep.accept n p) = unfold pool_step in accept_event-Bounded n p g t.pool b
      one (PoolStep.listener e) = unfold pool_step task_step in ground (arith, b, act-Bounded e t b)

-- Whatever is accepted, dispatched and given back, the buffer of a pool never holds more than
-- `buffer_size` events, and never more than one if `buffer_size` is 0.
pub length-buffer-le :
    (pool_name server_identifier : Text) (events : List Text) (buffer_size g : ℕ)
    (steps : List PoolStep)
    → let s = run_pool steps (g, spawn_task (new pool_name server_identifier events buffer_size)) in
      length s.1.pool.buffer ≤ max buffer_size 1
unfolding spawn_task new
length-buffer-le pool_name server_identifier events buffer_size g steps =
    (run_pool-Bounded (max buffer_size 1) (omega arith) steps g
      (spawn_task (new pool_name server_identifier events buffer_size)) (refl, omega arith)).1
