-- ===== src/Listener/Handshake/Delivery.antt =====
-- The order in which the events of a pool reach its listener process.
use rsupervisord.Prelude.{
  ℕ, ◌+◌, ◌≤◌, ◌<◌, ◌≡◌, inl, inr, refl, arith, Bool, true, false, Option, none, some, List, [],
  ◌∷◌, ◌++◌, Text, length, Bool-cases, u64_mod, u64_lem,
}
use rsupervisord.Listener.Wire.{EventEnvelope, ListenerState, next_serial}
use rsupervisord.Listener.Events.{event_matches_subscription}
use rsupervisord.Listener.Pool.{new, accept_event, requeue_rejected, pop_next_event}
use rsupervisord.Listener.Handshake.{
  Task, TaskEvent, give_back, violate, finish, on_acknowledged_line, on_result, on_busy_line,
  on_dispatch, act, task_step, spawn_task, PoolStep, pool_step, run_pool,
}
use rsupervisord.Listener.Handshake.Held.{Held, pool_step-Held, spawn_task-Held}
use rsupervisord.Listener.Handshake.Conserve.{in_flight, held, Fates, act-Fates}
use rsupervisord.Listener.Handshake.Serials.{
  Rising, Rising-pop_back, Rising-tail, Climbs, last_serial, Climbs-append, push-Rising,
}

pub record InOrder (t : Task) : Type 0 where
  pub climbs : Climbs 0 t.sent
  pub rising : Rising (last_serial 0 t.sent) (in_flight t) t.pool.pool_serial

-- What a step of the task adds to the events written.
data Sends (t t' : Task) : Type 0 where
  nothing : t'.sent ≡ t.sent → Sends t t'
  one :
      (e : EventEnvelope) (es : List EventEnvelope)
      → t'.sent ≡ t.sent ++ e ∷ []
      → in_flight t ≡ e ∷ es
      → in_flight t' ≡ e ∷ es
      → Sends t t'

abbrev Silent : Task → Task → Type 0
Silent t t' = (t'.sent ≡ t.sent) × (t'.pool.pool_serial ≡ t.pool.pool_serial)

give_back-Silent : (t : Task) → Silent t (give_back t)
unfolding give_back requeue_rejected
give_back-Silent t = ground arith

violate-Silent : (t : Task) → Silent t (violate t)
unfolding violate
violate-Silent t = ground (arith, give_back-Silent (record t { state = ListenerState.unknown }))

on_busy_line-Silent :
    (line : Text) (read_exact : ℕ → Option Text) (t : Task)
    → Silent t (on_busy_line line read_exact t)
unfolding on_busy_line on_result
on_busy_line-Silent line read_exact t = ground (arith, violate-Silent t, give_back-Silent t)

on_dispatch-Sends :
    (written : Bool) (t : Task)
    → t.current_envelope ≡ none
    → Sends t (on_dispatch written t)
      × ((on_dispatch written t).pool.pool_serial ≡ t.pool.pool_serial)
unfolding on_dispatch finish give_back pop_next_event requeue_rejected
on_dispatch-Sends written t idle = go written t.pool.buffer refl
  where
    go :
        (w : Bool) (b : List EventEnvelope)
        → t.pool.buffer ≡ b
        → Sends t (on_dispatch w t) × ((on_dispatch w t).pool.pool_serial ≡ t.pool.pool_serial)
    go w [] e = rw (on_dispatch, pop_next_event, e) (Sends.nothing refl, refl)
    go true (x ∷ xs) e = (
      Sends.one x xs (rw (on_dispatch, pop_next_event, e) refl) (ground (arith, e, idle))
          (ground (arith, e, idle)),
      ground (arith, e),
    )
    go false (x ∷ xs) e = (
      Sends.nothing (rw (on_dispatch, pop_next_event, e) (ground arith)),
      rw (on_dispatch, pop_next_event, e) (ground arith),
    )

act-Sends :
    (e : TaskEvent) (t : Task)
    → t.running ≡ true
    → Held t
    → Sends t (act e t) × ((act e t).pool.pool_serial ≡ t.pool.pool_serial)
unfolding act
act-Sends e t on h = go e t.state refl
  where
    go :
        (e : TaskEvent) (s : ListenerState)
        → t.state ≡ s
        → Sends t (act e t) × ((act e t).pool.pool_serial ≡ t.pool.pool_serial)
    go TaskEvent.cancelled s q = (Sends.nothing refl, refl)
    go TaskEvent.closed s q =
        let quiet : Silent t (act TaskEvent.closed t) =
          unfold finish in ground (arith, give_back-Silent t) in
        (Sends.nothing quiet.0, quiet.1)
    go (TaskEvent.read_line line read_exact) s q =
        let quiet : Silent t (act (TaskEvent.read_line line read_exact) t) =
          unfold on_acknowledged_line in ground (arith, on_busy_line-Silent line read_exact t) in
        (Sends.nothing quiet.0, quiet.1)
    go (TaskEvent.dispatch written) ListenerState.ready q =
        simp (act, q) (on_dispatch-Sends written t (ground (arith, q, on, h.idle)))
    go (TaskEvent.dispatch written) ListenerState.acknowledged q =
        rw (act, q) (Sends.nothing refl, refl)
    go (TaskEvent.dispatch written) ListenerState.busy q = rw (act, q) (Sends.nothing refl, refl)
    go (TaskEvent.dispatch written) ListenerState.unknown q = rw (act, q) (Sends.nothing refl, refl)

Fates-Rising :
    (e : TaskEvent) (t t' : Task) (lo hi : ℕ)
    → Fates e t t'
    → Rising lo (in_flight t) hi
    → Rising lo (in_flight t') hi
Fates-Rising e t t' lo hi (inl (inl same)) r = rw same r
Fates-Rising e t t' lo hi (inl (inr (full, out))) r = rw out (Rising-pop_back lo (in_flight t) hi r)
Fates-Rising e t t' lo hi (inr (inl (answered, (head, was)))) r =
    Rising-tail lo head (in_flight t') hi (rw was at r)
Fates-Rising e t t' lo hi (inr (inr (cancelled, left))) r = rw left (buffer t.current_envelope r)
  where
    buffer :
        (o : Option EventEnvelope)
        → Rising lo (held o ++ t.pool.buffer) hi
        → Rising lo t.pool.buffer hi
    buffer none q = q
    buffer (some x) q = Rising-tail lo x t.pool.buffer hi q

act-InOrder : (e : TaskEvent) (t : Task) → t.running ≡ true → Held t → InOrder t → InOrder (act e t)
act-InOrder e t on h o = go (act-Sends e t on h)
  where
    go : Sends t (act e t) × ((act e t).pool.pool_serial ≡ t.pool.pool_serial) → InOrder (act e t)
    go (Sends.nothing same, serial) = record {
      climbs = rw same o.climbs;
      rising = rw (same, serial) (Fates-Rising e t (act e t) _ _ (act-Fates e t on h) o.rising);
    }
    go (Sends.one x xs more was now, serial) =
        let r : Rising (last_serial 0 t.sent) (x ∷ xs) t.pool.pool_serial = rw was at o.rising in
        let (c, l) = Climbs-append 0 t.sent x o.climbs r.0 in
        record { climbs = rw more c; rising = rw (more, now, serial, l) (omega arith, r.1) }

-- One step, with what it does to the serial counter of the pool.
pool_step-InOrder :
    (e : PoolStep) (g : ℕ) (t : Task)
    → t.pool.pool_serial + 1 < u64_mod
    → Held t
    → InOrder t
    → InOrder (pool_step e (g, t)).1
      × ((pool_step e (g, t)).1.pool.pool_serial ≤ t.pool.pool_serial + 1)
unfolding pool_step
pool_step-InOrder (PoolStep.accept event_name payload) g t small h o =
    unfold accept_event next_serial in
    (let exact = u64_lem (t.pool.pool_serial + 1) small in
      elim (Bool-cases (event_matches_subscription event_name t.pool.events)) [
        | inl m ↦ simp m (
          record {
            climbs = o.climbs;
            rising = rw exact (
                push-Rising t.current_envelope t.pool.buffer_size _ t.pool.pool_serial t.pool.buffer
                  _ o.rising refl);
          },
          omega (arith, exact),
        )
        | inr m ↦ simp m (o, omega arith)
      ])
pool_step-InOrder (PoolStep.listener e) g t small h o = elim (Bool-cases t.running) [
  | inl on ↦
      unfold task_step in simp on (act-InOrder e t on h o, omega (arith, (act-Sends e t on h).1))
  | inr off ↦ unfold task_step in simp off (o, omega arith)
]

run_pool-InOrder :
    (es : List PoolStep) (g : ℕ) (t : Task)
    → t.pool.pool_serial + length es < u64_mod
    → Held t
    → InOrder t
    → InOrder (run_pool es (g, t)).1
unfolding run_pool
run_pool-InOrder [] g t small h o = o
run_pool-InOrder (e ∷ es) g t small h o =
    let (o', le) = pool_step-InOrder e g t (omega arith) h o in
    run_pool-InOrder es _ _ (omega (arith, le)) (pool_step-Held e g t h) o'

-- From a new pool and its listener process on, in any run of fewer than 2 ^ 64 steps: the pool
-- serials of the events written to the process never fall; and the events in flight, the one at
-- the process first and then the buffer, have strictly rising serials from the last written on.
pub new-InOrder :
    (pool_name server_identifier : Text) (events : List Text) (buffer_size g : ℕ)
    (steps : List PoolStep)
    → length steps < u64_mod
    → InOrder
        (run_pool steps (g, spawn_task (new pool_name server_identifier events buffer_size))).1
unfolding spawn_task new
new-InOrder pool_name server_identifier events buffer_size g steps small =
    run_pool-InOrder steps g _ (omega (arith, small)) (spawn_task-Held _ (omega arith))
      (record { climbs = tt; rising = omega arith })
