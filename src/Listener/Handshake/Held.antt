-- ===== src/Listener/Handshake/Held.antt =====
-- When an event is at the listener process.
use rsupervisord.Prelude.{
  is_some, ℕ, ◌<◌, ◌≡◌, ◌≢◌, inl, inr, refl, arith, Bool, true, Option, none, List, [], ◌∷◌, Text,
  Option-cases,
}
use rsupervisord.Listener.Wire.{EventEnvelope, ListenerState}
use rsupervisord.Listener.Pool.{Pool, accept_event, requeue_rejected, pop_next_event}
use rsupervisord.Listener.Handshake.{
  Task, TaskEvent, give_back, violate, finish, on_acknowledged_line, on_result, result_len,
  on_busy_line, on_dispatch, act, task_step, spawn_task, PoolStep, pool_step, run_pool,
}

-- An event is at the process exactly in the state BUSY; the buffer can hold one event.
pub record Held (t : Task) : Type 0 where
  pub busy : t.running ≡ true → t.state ≡ ListenerState.busy → is_some t.current_envelope ≡ true
  pub idle : t.running ≡ true → t.state ≢ ListenerState.busy → t.current_envelope ≡ none
  pub sized : 0 < t.pool.buffer_size

give_back-Idle :
    (t : Task)
    → ((give_back t).current_envelope ≡ none)
      × ((give_back t).pool.buffer_size ≡ t.pool.buffer_size)
      × ((give_back t).state ≡ t.state)
unfolding give_back requeue_rejected
give_back-Idle t = ground arith

violate-Held : (t : Task) → Held t → Held (violate t)
unfolding violate
violate-Held t h =
    ground (arith, give_back-Idle (record t { state = ListenerState.unknown }), h.sized)

on_result-Held : (body : Text) (t : Task) → Held t → Held (on_result body t)
unfolding on_result
on_result-Held body t h = ground (arith, give_back-Idle t, h.sized)

on_busy_line-Held :
    (line : Text) (read_exact : ℕ → Option Text) (t : Task)
    → Held t
    → Held (on_busy_line line read_exact t)
unfolding on_busy_line
on_busy_line-Held line read_exact t h = elim (Option-cases (result_len line)) [
  | inl e ↦ rw (on_busy_line, e) (violate-Held t h)
  | inr (len, e) ↦
      rw (on_busy_line, e)
        (elim (Option-cases (read_exact len)) [
          | inl r ↦ rw r (ground (arith, violate-Held t h))
          | inr (body, r) ↦ rw r (ground (arith, violate-Held t h, on_result-Held body t h))
        ])
]

on_dispatch-Held : (written : Bool) (t : Task) → Held t → Held (on_dispatch written t)
unfolding on_dispatch finish give_back pop_next_event requeue_rejected
on_dispatch-Held written t h = go t.pool.buffer refl
  where
    go : (b : List EventEnvelope) → t.pool.buffer ≡ b → Held (on_dispatch written t)
    go [] e = rw e (ground (arith, h.sized, h.idle, h.busy))
    go (x ∷ xs) e = rw e (ground (arith, h.sized))

act-Held : (e : TaskEvent) (t : Task) → Held t → Held (act e t)
act-Held TaskEvent.cancelled t h = unfold act in ground (arith, h.sized)
act-Held TaskEvent.closed t h =
    unfold act finish in ground (arith, give_back-Idle t, h.sized, h.idle, h.busy)
act-Held (TaskEvent.dispatch written) t h =
    unfold act in ground (arith, on_dispatch-Held written t h)
act-Held (TaskEvent.read_line line read_exact) t h =
    unfold act on_acknowledged_line in
    ground (arith, h.idle, h.sized, on_busy_line-Held line read_exact t h)

pub pool_step-Held : (e : PoolStep) (g : ℕ) (t : Task) → Held t → Held (pool_step e (g, t)).1
unfolding pool_step task_step accept_event
pool_step-Held (PoolStep.accept event_name payload) g t h = ground (arith, h.sized, h.idle, h.busy)
pool_step-Held (PoolStep.listener e) g t h = ground (arith, h, act-Held e t h)

pub run_pool-Held : (es : List PoolStep) (s : ℕ × Task) → Held s.1 → Held (run_pool es s).1
unfolding run_pool
run_pool-Held [] s h = h
run_pool-Held (e ∷ es) s h = run_pool-Held es (pool_step e s) (pool_step-Held e s.0 s.1 h)

pub spawn_task-Held : (p : Pool) → 0 < p.buffer_size → Held (spawn_task p)
unfolding spawn_task
spawn_task-Held p sized = ground arith
