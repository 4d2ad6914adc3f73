-- ===== src/Program/Loop/History.antt =====
-- The published state changes through the steps of the loop.
use rsupervisord.Prelude.{
  unwrap_or, ℕ, ◌+◌, leb, u32, ◌≡◌, refl, arith, true, false, Option, none, some, List, [], ◌∷◌,
  Bool-cases, Option-cases, inl, inr,
}
use rsupervisord.Prelude.Int.{ℤ, negsuc}
use rsupervisord.Program.State.{ProgramState, HealthStatus, ExitStatus, should_restart}
use rsupervisord.Program.Status.{
  ProgramConfig, ProgramStatus, ProgramActor, SystemEvent, Description, Reply, update_status,
}
use rsupervisord.Program.Spawn.{SpawnWorld, spawn_child}
use rsupervisord.Program.Stop.{stop_current_child}
use rsupervisord.Program.Exit.{
  exit_code_of, startup_failure, running_exit, handle_child_exit, restart_description,
}
use rsupervisord.Program.Loop.{
  ProgramCommand, handle_command, Loop, LoopEvent, respawn, fire, step, run, start_loop, on_healthy,
  on_unhealthy, on_command, on_cancelled, on_unhealthy_event, on_backoff_elapsed, on_child_exited,
  on_start_elapsed,
}
use rsupervisord.Program.Loop.Events.{
  Chain, is_other, Told, publish-Told, update_status-Told, Told-same, spawn_child-Told,
  stop_current_child-Told,
}

module _ (s : ProgramState) where
  startup_failure-Told :
      (c : ProgramConfig) (now : ℕ) (code : Option ℤ) (a : ProgramActor)
      → Told s a
      → Told s (startup_failure c now code a)
  unfolding startup_failure
  startup_failure-Told c now code a t =
      let counted : ProgramActor = record a { retry_count = u32 (a.retry_count + 1) } in
      let t' : Told s counted = Told-same s refl refl t in
      elim (Bool-cases (leb (u32 (a.retry_count + 1)) c.start_retries)) [
        | inl e ↦
            simp (startup_failure, e)
              (Told-same s refl refl
                (update_status-Told s ProgramState.backoff none code _ counted t'))
        | inr e ↦
            simp (startup_failure, e)
              (update_status-Told s ProgramState.fatal none code _ counted t')
      ]

  running_exit-Told :
      (c : ProgramConfig) (w : SpawnWorld) (code : Option ℤ) (a : ProgramActor)
      → Told s a
      → Told s (running_exit c w code a).1
  unfolding running_exit
  running_exit-Told c w code a t =
      elim (Bool-cases (should_restart c.autorestart (unwrap_or code (negsuc 0)) c.exit_codes)) [
        | inl e ↦ go e (spawn_child c w starting) refl
        | inr e ↦ simp (running_exit, e) (update_status-Told s ProgramState.exited none code _ a t)
      ]
    where
      starting : ProgramActor
      starting =
          update_status ProgramState.starting none code (restart_description c.autorestart code) a

      tried : Told s (spawn_child c w starting).1
      tried =
          spawn_child-Told s c w starting
            (update_status-Told s ProgramState.starting none code _ a t)

      go :
          should_restart c.autorestart (unwrap_or code (negsuc 0)) c.exit_codes ≡ true
          → (r : Reply × ProgramActor) → spawn_child c w starting ≡ r
          → Told s (running_exit c w code a).1
      go e (Reply.ok, b) r = simp (running_exit, e, r) (rw r at tried)
      go e (Reply.err error, b) r =
          simp (running_exit, e, r)
            (update_status-Told s ProgramState.fatal none code _ b (rw r at tried))

  respawn-Told :
      (c : ProgramConfig) (w : SpawnWorld) (a : ProgramActor) → Told s a → Told s (respawn c w a).1
  unfolding respawn
  respawn-Told c w a t = go (spawn_child c w a) refl
    where
      tried : Told s (spawn_child c w a).1
      tried = spawn_child-Told s c w a t

      go : (r : Reply × ProgramActor) → spawn_child c w a ≡ r → Told s (respawn c w a).1
      go (Reply.ok, b) r = simp (respawn, r) (rw r at tried)
      go (Reply.err error, b) r =
          simp (respawn, r) (update_status-Told s ProgramState.fatal none none _ b (rw r at tried))

  handle_child_exit-Told :
      (c : ProgramConfig) (w : SpawnWorld) (e : Option ExitStatus) (a : ProgramActor)
      → Told s a
      → Told s (handle_child_exit c w e a).1
  unfolding handle_child_exit
  handle_child_exit-Told c w e a t =
      let b : ProgramActor = record a {
        started_at = none;
        stdin_open = false;
        current_child = none;
      } in
      let t' : Told s b = Told-same s refl refl t in
      let b' : ProgramActor = record b { backoff_deadline = none } in
      let t'' : Told s b' = Told-same s refl refl t in
      ground (
        arith,
        update_status-Told s ProgramState.stopped none (exit_code_of e)
            (elim (exit_code_of e) as (λ x. Description) [
              | none ↦ Description.stopped
              | some code ↦ Description.stopped_with code
            ])
            b' t'',
        startup_failure-Told c w.now (exit_code_of e) b t',
        running_exit-Told c w (exit_code_of e) b t',
      )

  handle_command-Told :
      (c : ProgramConfig) (cmd : ProgramCommand) (a : ProgramActor)
      → Told s a
      → Told s (handle_command c cmd a).1
  unfolding handle_command
  handle_command-Told c (ProgramCommand.start w) a t = ground (
    arith,
    t,
    spawn_child-Told s c w
        (record a { manual_stop = false; retry_count = 0; backoff_deadline = none })
        (Told-same s refl refl t),
  )
  handle_command-Told c (ProgramCommand.stop w) a t =
      stop_current_child-Told s c w (record a { manual_stop = true; backoff_deadline = none })
        (Told-same s refl refl t)
  handle_command-Told c (ProgramCommand.restart sw w) a t =
      let a' : ProgramActor = record a {
        manual_stop = true;
        retry_count = 0;
        backoff_deadline = none;
      } in
      ground (
        arith,
        t,
        spawn_child-Told s c w (record (stop_current_child c sw a') { manual_stop = false })
            (Told-same s refl refl (stop_current_child-Told s c sw a' (Told-same s refl refl t))),
      )
  handle_command-Told c (ProgramCommand.shutdown w) a t = Told-same s refl refl (
      stop_current_child-Told s c w
        (record a { is_shutting_down = true; manual_stop = true; backoff_deadline = none })
        (Told-same s refl refl t))
  handle_command-Told c (ProgramCommand.signal sent) a t = ground (arith, t)

  on_healthy-Told : (a : ProgramActor) → Told s a → Told s (on_healthy a)
  unfolding on_healthy is_other
  on_healthy-Told a t =
      let b : ProgramActor = record a {
        status = record a.status { health = HealthStatus.healthy; is_healthy = true };
      } in
      let t' : Told s b = Told-same s refl refl t in
      ground
        (arith, t', publish-Told s (SystemEvent.health_changed true HealthStatus.healthy) b refl t')

  on_unhealthy-Told : (a : ProgramActor) → Told s a → Told s (on_unhealthy a)
  unfolding on_unhealthy is_other
  on_unhealthy-Told a t =
      let b : ProgramActor = record a {
        status = record a.status { health = HealthStatus.unhealthy; is_healthy = false };
      } in
      let t' : Told s b = Told-same s refl refl t in
      ground (
        arith,
        t',
        publish-Told s (SystemEvent.health_changed false HealthStatus.unhealthy) b refl t',
      )

  fire-Told :
      (c : ProgramConfig) (e : LoopEvent) (l : Loop) → Told s l.actor → Told s (fire c e l).actor
  unfolding fire on_start_elapsed
  fire-Told c (LoopEvent.cancelled w) l t =
      unfold on_cancelled in
      update_status-Told s ProgramState.stopped none none Description.stopped _ (
        stop_current_child-Told s c w
          (record l.actor { is_shutting_down = true; manual_stop = true; backoff_deadline = none })
          (Told-same s refl refl t))
  fire-Told c (LoopEvent.command cmd now) l t =
      unfold on_command in handle_command-Told c cmd l.actor t
  fire-Told c LoopEvent.healthy l t = on_healthy-Told l.actor t
  fire-Told c (LoopEvent.unhealthy sw w) l t =
      unfold on_unhealthy_event in
      ground (
        arith,
        on_unhealthy-Told l.actor t,
        respawn-Told c w (stop_current_child c sw (on_unhealthy l.actor))
            (stop_current_child-Told s c sw (on_unhealthy l.actor) (on_unhealthy-Told l.actor t)),
      )
  fire-Told c (LoopEvent.backoff_elapsed w) l t =
      let a : ProgramActor = record l.actor { backoff_deadline = none } in
      let t' : Told s a = Told-same s refl refl t in
      unfold on_backoff_elapsed in ground (arith, t', respawn-Told c w a t')
  fire-Told c (LoopEvent.metrics sample) l t = Told-same s refl refl t
  fire-Told c (LoopEvent.child_exited e w) l t =
      unfold on_child_exited in handle_child_exit-Told c w e l.actor t
  fire-Told c (LoopEvent.start_elapsed b) l t = elim (Option-cases l.actor.current_child) [
    | inl e ↦ simp (on_start_elapsed, e) t
    | inr (child, e) ↦
        let a : ProgramActor = record l.actor {
          current_child = some (record child { marked_running = true });
          retry_count = 0;
        } in
        let t' : Told s a = Told-same s refl refl t in
        elim (Bool-cases b) [
          | inl q ↦ simp (on_start_elapsed, e, q) t
          | inr q ↦
              simp (on_start_elapsed, e, q)
                (update_status-Told s ProgramState.running (some child.pid) none Description.running
                  a t')
        ]
  ]

  run-Told :
      (c : ProgramConfig) (events : List LoopEvent) (l : Loop)
      → Told s l.actor
      → Told s (run c events l).actor
  unfolding run step
  run-Told c [] l t = t
  run-Told c (e ∷ es) l t = run-Told c es _ (ground (arith, t, fire-Told c e l t))

-- The state changes that an actor has published, taken in order, lead from the state it began with
-- to the state it is in, each beginning where the last one ended: no change is left out.
pub run-Chain :
    (c : ProgramConfig) (status : ProgramStatus) (events : List LoopEvent)
    → let a = (run c events (start_loop status)).actor in Chain status.state a.events a.status.state
unfolding start_loop Chain
run-Chain c status events =
    (run-Told status.state c events (start_loop status) (record { chain = refl })).chain
