-- ===== src/Program/Loop/Inv.antt =====
-- What holds of a program's actor between two events.
use rsupervisord.Prelude.{
  is_some, ℕ, ◌+◌, ◌-◌, ◌≤◌, ◌<◌, ◌≡◌, Bool, true, false, Option, none, List, [], ◌∷◌, arith,
  if◌then◌else◌, u32_mod, u32_lem,
}
use rsupervisord.Prelude.Int.{ℤ}
use rsupervisord.Program.State.{ProgramState, ExitStatus}
use rsupervisord.Program.Status.{ProgramConfig, ProgramStatus, ProgramActor, update_status}
use rsupervisord.Program.Spawn.{SpawnWorld}
use rsupervisord.Program.Stop.{StopWorld, stop_current_child}
use rsupervisord.Program.Exit.{
  handle_child_exit, startup_failure, running_exit, restart_description, exit_code_of,
}
use rsupervisord.Program.Loop.{
  ProgramCommand, handle_command, Loop, LoopEvent, respawn, enabled, fire, step, run, start_loop,
  on_healthy, on_unhealthy, on_command, on_cancelled, on_unhealthy_event, on_backoff_elapsed,
  on_child_exited, on_start_elapsed,
}
use rsupervisord.Program.Loop.Effects.{
  child_pid, is_marked, stop_current_child-Halted, spawn_child-Spawned,
}

pub record Inv (c : ProgramConfig) (a : ProgramActor) : Type 0 where
  -- A live child is shown by its pid, as RUNNING once it has lived through `start_secs`.
  pub child_state :
      is_some a.current_child ≡ true
      → a.status.state
        ≡ (if is_marked a.current_child then ProgramState.running else ProgramState.starting)
  pub child_shown : is_some a.current_child ≡ true → a.status.pid ≡ child_pid a.current_child
  -- A pending retry has no child, and nobody has asked for a stop.
  pub backoff_idle : is_some a.backoff_deadline ≡ true → a.current_child ≡ none
  pub backoff_wanted : is_some a.backoff_deadline ≡ true → a.manual_stop ≡ false
  pub backoff_shown : is_some a.backoff_deadline ≡ true → a.status.state ≡ ProgramState.backoff
  pub backoff_up : is_some a.backoff_deadline ≡ true → a.is_shutting_down ≡ false
  -- The retries are bounded.
  pub retries_backoff : is_some a.backoff_deadline ≡ true → a.retry_count ≤ c.start_retries
  pub retries_child : is_some a.current_child ≡ true → a.retry_count ≤ c.start_retries
  pub retries : a.retry_count ≤ c.start_retries + 1
  -- After a shutdown there is no child.
  pub down : a.is_shutting_down ≡ true → a.current_child ≡ none

module _ (c : ProgramConfig) where
  -- Every command keeps the invariant.
  handle_command-Inv :
      (cmd : ProgramCommand) {a : ProgramActor} → Inv c a → Inv c (handle_command c cmd a).1
  unfolding handle_command
  handle_command-Inv (ProgramCommand.start w) {a} inv = ground (
    arith,
    spawn_child-Spawned c w
        (record a { manual_stop = false; retry_count = 0; backoff_deadline = none }),
  )
  handle_command-Inv (ProgramCommand.stop w) {a} inv = ground (
    arith,
    stop_current_child-Halted c w (record a { manual_stop = true; backoff_deadline = none }),
  )
  handle_command-Inv (ProgramCommand.restart sw w) {a} inv =
      let a' = record a { manual_stop = true; retry_count = 0; backoff_deadline = none } in
      ground (
        arith,
        stop_current_child-Halted c sw a',
        spawn_child-Spawned c w (record (stop_current_child c sw a') { manual_stop = false }),
      )
  handle_command-Inv (ProgramCommand.shutdown w) {a} inv = ground (
    arith,
    stop_current_child-Halted c w
        (record a { is_shutting_down = true; manual_stop = true; backoff_deadline = none }),
  )
  handle_command-Inv (ProgramCommand.signal sent) {a} inv = ground arith

  respawn-Inv :
      (w : SpawnWorld) {a : ProgramActor}
      → Inv c a
      → a.current_child ≡ none
      → a.backoff_deadline ≡ none
      → a.retry_count ≤ c.start_retries
      → Inv c (respawn c w a).1
  unfolding respawn update_status
  respawn-Inv w {a} inv idle quiet few = ground (arith, spawn_child-Spawned c w a)

  on_healthy-Inv : {a : ProgramActor} → Inv c a → Inv c (on_healthy a)
  unfolding on_healthy
  on_healthy-Inv inv = ground arith

  on_unhealthy-Inv : {a : ProgramActor} → Inv c a → Inv c (on_unhealthy a)
  unfolding on_unhealthy
  on_unhealthy-Inv inv = ground arith

  on_unhealthy_same :
      (a : ProgramActor)
      → ((on_unhealthy a).current_child ≡ a.current_child)
        × ((on_unhealthy a).backoff_deadline ≡ a.backoff_deadline)
        × ((on_unhealthy a).retry_count ≡ a.retry_count)
  unfolding on_unhealthy
  on_unhealthy_same a = ground arith

  stop_current_child-Inv :
      (w : StopWorld) {a : ProgramActor}
      → Inv c a
      → is_some a.current_child ≡ true
      → Inv c (stop_current_child c w a)
  stop_current_child-Inv w {a} inv alive = ground (arith, stop_current_child-Halted c w a)

  on_unhealthy_event-Inv :
      (sw : StopWorld) (w : SpawnWorld) (l : Loop)
      → Inv c l.actor
      → is_some l.actor.current_child ≡ true
      → Inv c (on_unhealthy_event c sw w l).actor
  unfolding on_unhealthy_event
  on_unhealthy_event-Inv sw w l inv alive =
      let a = on_unhealthy l.actor in
      let (child, deadline, retries) = on_unhealthy_same l.actor in
      ground (
        arith,
        child,
        deadline,
        retries,
        on_unhealthy-Inv inv,
        stop_current_child-Halted c sw a,
        stop_current_child-Inv sw {a = a},
        respawn-Inv w {a = stop_current_child c sw a},
      )

  startup_failure-Inv :
      (now : ℕ) (code : Option ℤ) (a : ProgramActor)
      → c.start_retries < u32_mod - 1
      → a.current_child ≡ none
      → a.manual_stop ≡ false
      → a.is_shutting_down ≡ false
      → a.backoff_deadline ≡ none
      → a.retry_count ≤ c.start_retries
      → Inv c (startup_failure c now code a)
  unfolding startup_failure update_status
  startup_failure-Inv now code a small idle wanted up quiet few =
      ground (arith, u32_lem (a.retry_count + 1))

  running_exit-Inv :
      (w : SpawnWorld) (code : Option ℤ) (a : ProgramActor)
      → a.current_child ≡ none
      → a.is_shutting_down ≡ false
      → a.backoff_deadline ≡ none
      → a.retry_count ≤ c.start_retries
      → Inv c (running_exit c w code a).1
  unfolding running_exit update_status
  running_exit-Inv w code a idle up quiet few = ground (
    arith,
    spawn_child-Spawned c w
        (update_status ProgramState.starting none code (restart_description c.autorestart code) a),
  )

  on_child_exited-Inv :
      (e : Option ExitStatus) (w : SpawnWorld) (l : Loop)
      → c.start_retries < u32_mod - 1
      → is_some l.actor.current_child ≡ true
      → Inv c l.actor
      → Inv c (on_child_exited c e w l).actor
  unfolding on_child_exited handle_child_exit update_status
  on_child_exited-Inv e w l small alive inv =
      let b = record l.actor { started_at = none; stdin_open = false; current_child = none } in
      ground (
        arith,
        startup_failure-Inv w.now (exit_code_of e) b small,
        running_exit-Inv w (exit_code_of e) b,
      )

  on_start_elapsed-Inv : (t : Bool) (l : Loop) → Inv c l.actor → Inv c (on_start_elapsed t l).actor
  unfolding on_start_elapsed update_status
  on_start_elapsed-Inv t l inv = ground arith

  on_backoff_elapsed-Inv :
      (w : SpawnWorld) (l : Loop)
      → is_some l.actor.backoff_deadline ≡ true
      → Inv c l.actor
      → Inv c (on_backoff_elapsed c w l).actor
  unfolding on_backoff_elapsed
  on_backoff_elapsed-Inv w l due inv =
      ground (arith, respawn-Inv w {a = record l.actor { backoff_deadline = none }})

  on_cancelled-Inv : (w : StopWorld) (l : Loop) → Inv c l.actor → Inv c (on_cancelled c w l).actor
  unfolding on_cancelled update_status
  on_cancelled-Inv w l inv = ground (
    arith,
    stop_current_child-Halted c w
        (record l.actor { is_shutting_down = true; manual_stop = true; backoff_deadline = none }),
  )

  fire-Inv :
      (e : LoopEvent) (l : Loop)
      → c.start_retries < u32_mod - 1
      → enabled c e l ≡ true
      → Inv c l.actor
      → Inv c (fire c e l).actor
  unfolding fire enabled
  fire-Inv (LoopEvent.cancelled w) l small on inv = on_cancelled-Inv w l inv
  fire-Inv (LoopEvent.command cmd now) l small on inv =
      unfold on_command in handle_command-Inv cmd inv
  fire-Inv LoopEvent.healthy l small on inv = on_healthy-Inv inv
  fire-Inv (LoopEvent.unhealthy sw w) l small on inv =
      on_unhealthy_event-Inv sw w l inv (ground arith)
  fire-Inv (LoopEvent.backoff_elapsed w) l small on inv =
      on_backoff_elapsed-Inv w l (ground arith) inv
  fire-Inv (LoopEvent.metrics sample) l small on inv = ground arith
  fire-Inv (LoopEvent.child_exited e w) l small on inv = on_child_exited-Inv e w l small on inv
  fire-Inv (LoopEvent.start_elapsed t) l small on inv = on_start_elapsed-Inv t l inv

  step-Inv :
      (e : LoopEvent) (l : Loop)
      → c.start_retries < u32_mod - 1
      → Inv c l.actor
      → Inv c (step c e l).actor
  unfolding step
  step-Inv e l small inv = ground (arith, fire-Inv e l small)

  run-Inv :
      (events : List LoopEvent) (l : Loop)
      → c.start_retries < u32_mod - 1
      → Inv c l.actor
      → Inv c (run c events l).actor
  unfolding run
  run-Inv [] l small inv = inv
  run-Inv (e ∷ es) l small inv = run-Inv es (step c e l) small (step-Inv e l small inv)

  start_loop-Inv : (status : ProgramStatus) → Inv c (start_loop status).actor
  unfolding start_loop
  start_loop-Inv status = ground arith

  -- From the start of the actor on, after any events, if `start_retries` is below the largest
  -- `u32`: a live child is shown by its pid, as RUNNING once it has lived through `start_secs` and
  -- as STARTING before; a pending retry means BACKOFF, no child, no manual stop, no shutdown and a
  -- retry number within `start_retries`; the retry count is at most `start_retries + 1`, and at
  -- most `start_retries` with a child; and after a shutdown there is no child.
  pub reachable-Inv :
      (status : ProgramStatus) (events : List LoopEvent)
      → c.start_retries < u32_mod - 1
      → Inv c (run c events (start_loop status)).actor
  reachable-Inv status events small = run-Inv events _ small (start_loop-Inv status)
