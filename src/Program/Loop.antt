-- ===== src/Program/Loop.antt =====
-- src/program/process.rs: `handle_command`, and one pass of the `select!` loop of `run`.
-- An event is an arm of the `select!` that is ready, with what the arm awaits; an arm whose guard
-- is false changes nothing. `biased` only picks among ready arms, and every pick is an event.
pub mod Effects
pub mod Inv
pub mod Stops
pub mod Crash
pub mod Events
pub mod History
pub mod Lost
use rsupervisord.Prelude.{
  is_some, ℕ, ◌+◌, ◌==◌, Bool, true, false, not, ◌&&◌, ◌||◌, Option, none, some, List, [], ◌∷◌,
  if◌then◌else◌,
}
use rsupervisord.Program.State.{HealthStatus, ProgramState, ExitStatus, health_eq, is_never}
use rsupervisord.Program.Status.{
  ProgramConfig, ProgramError, Reply, Description, SystemEvent, ProgramStatus, RunningChild,
  ProgramActor, new, publish, update_status,
}
use rsupervisord.Program.Spawn.{SpawnWorld, spawn_child}
use rsupervisord.Program.Stop.{StopWorld, stop_current_child}
use rsupervisord.Program.Exit.{handle_child_exit}

-- A command with the outcomes of what its handler awaits.
pub data ProgramCommand : Type 0 where
  start : SpawnWorld → ProgramCommand
  stop : StopWorld → ProgramCommand
  restart : StopWorld → SpawnWorld → ProgramCommand
  shutdown : StopWorld → ProgramCommand
  signal : Reply → ProgramCommand

unfoldable pub handle_command : ProgramConfig → ProgramCommand → ProgramActor → Reply × ProgramActor
handle_command c (ProgramCommand.start w) a =
    if a.is_shutting_down
    then (Reply.err (ProgramError.shutting_down c.name), a)
    else spawn_child c w
        (record a { manual_stop = false; retry_count = 0; backoff_deadline = none })
handle_command c (ProgramCommand.stop w) a =
    (Reply.ok, stop_current_child c w (record a { manual_stop = true; backoff_deadline = none }))
handle_command c (ProgramCommand.restart sw w) a =
    if a.is_shutting_down
    then (Reply.err (ProgramError.shutting_down c.name), a)
    else (let b =
          stop_current_child c sw
            (record a { manual_stop = true; retry_count = 0; backoff_deadline = none }) in
        spawn_child c w (record b { manual_stop = false }))
handle_command c (ProgramCommand.shutdown w) a =
    let b =
      stop_current_child c w
        (record a { is_shutting_down = true; manual_stop = true; backoff_deadline = none }) in
    (Reply.ok, record b { cancelled = true })
handle_command c (ProgramCommand.signal sent) a = elim a.current_child [
  | none ↦ (Reply.err (ProgramError.not_running c.name), a)
  | some child ↦ (sent, a)
]

-- The actor with the local variables of `run`.
pub record Loop : Type 0 where
  pub actor : ProgramActor
  pub start_deadline : Option ℕ
  pub stopped : Bool  -- the loop has ended

pub data LoopEvent : Type 0 where
  cancelled : StopWorld → LoopEvent
  command : ProgramCommand → (now : ℕ) → LoopEvent
  healthy : LoopEvent
  unhealthy : StopWorld → SpawnWorld → LoopEvent
  backoff_elapsed : SpawnWorld → LoopEvent
  metrics : ℕ → LoopEvent  -- a tick or a wake-up of the tracker, with a sample
  child_exited : Option ExitStatus → SpawnWorld → LoopEvent
  start_elapsed : (terminated : Bool) → LoopEvent

-- A start deadline is set if `start_secs` is not zero.
abbrev deadline_after : ProgramConfig → ℕ → Option ℕ
deadline_after c now = if not (c.start_secs == 0) then some (now + c.start_secs) else none

-- `HealthEvent::Healthy`
unfoldable pub on_healthy : ProgramActor → ProgramActor
unfolding publish health_eq
on_healthy a =
    let b = record a {
      status = record a.status { health = HealthStatus.healthy; is_healthy = true };
    } in
    if not (health_eq a.status.health HealthStatus.healthy)
    then publish (SystemEvent.health_changed true HealthStatus.healthy) b
    else b

unfoldable pub on_unhealthy : ProgramActor → ProgramActor
unfolding publish health_eq
on_unhealthy a =
    let b = record a {
      status = record a.status { health = HealthStatus.unhealthy; is_healthy = false };
    } in
    if not (health_eq a.status.health HealthStatus.unhealthy)
    then publish (SystemEvent.health_changed false HealthStatus.unhealthy) b
    else b

-- A spawn by the loop itself: a failure ends in `Fatal`. The flag tells whether it succeeded.
unfoldable pub respawn : ProgramConfig → SpawnWorld → ProgramActor → Bool × ProgramActor
respawn c w a =
    let (reply, b) = spawn_child c w a in
    elim reply [
      | Reply.ok ↦ (true, b)
      | Reply.err e ↦
          (false, update_status ProgramState.fatal none none (Description.spawn_failed e) b)
    ]

unfoldable pub on_command : ProgramConfig → ProgramCommand → ℕ → Loop → Loop
on_command c cmd now l =
    let (reply, b) = handle_command c cmd l.actor in
    record l {
      actor = b;
      start_deadline =
          if not (b.spawn_seq == l.actor.spawn_seq)
          then (if is_some b.current_child then deadline_after c now else none)
          else if not (is_some b.current_child)
          then none
          else l.start_deadline;
    }

unfoldable pub on_cancelled : ProgramConfig → StopWorld → Loop → Loop
on_cancelled c w l =
    let b =
      stop_current_child c w
        (record l.actor { is_shutting_down = true; manual_stop = true; backoff_deadline = none }) in
    record l {
      actor = update_status ProgramState.stopped none none Description.stopped b;
      stopped = true;
    }

unfoldable pub on_unhealthy_event : ProgramConfig → StopWorld → SpawnWorld → Loop → Loop
on_unhealthy_event c sw w l =
    let a = on_unhealthy l.actor in
    if not (is_never c.autorestart)
    then (let (done, b) = respawn c w (stop_current_child c sw a) in
        record l { actor = b; start_deadline = if done then deadline_after c w.now else none })
    else record l { actor = a }

unfoldable pub on_backoff_elapsed : ProgramConfig → SpawnWorld → Loop → Loop
on_backoff_elapsed c w l =
    let a = record l.actor { backoff_deadline = none } in
    if a.is_shutting_down || a.manual_stop
    then record l { actor = a }
    else (let (done, b) = respawn c w a in
        record l {
          actor = b;
          start_deadline =
              if done && not (c.start_secs == 0)
              then some (w.now + c.start_secs)
              else l.start_deadline;
        })

unfoldable pub on_child_exited : ProgramConfig → Option ExitStatus → SpawnWorld → Loop → Loop
on_child_exited c exit_res w l =
    let (restarted, b) = handle_child_exit c w exit_res l.actor in
    record l { actor = b; start_deadline = if restarted then deadline_after c w.now else none }

unfoldable pub on_start_elapsed : Bool → Loop → Loop
on_start_elapsed terminated l = elim l.actor.current_child [
  | none ↦ record l { start_deadline = none }
  | some child ↦ if terminated then record l { start_deadline = none } else record l {
    start_deadline = none;
    actor =
        update_status ProgramState.running (some child.pid) none Description.running
          (record l.actor {
            current_child = some (record child { marked_running = true });
            retry_count = 0;
          });
  }
]

-- The guards of the arms.
unfoldable pub enabled : ProgramConfig → LoopEvent → Loop → Bool
enabled c (LoopEvent.cancelled w) l = true
enabled c (LoopEvent.command cmd now) l = true
enabled c LoopEvent.healthy l = is_some l.actor.current_child && c.has_health_check
enabled c (LoopEvent.unhealthy sw w) l = is_some l.actor.current_child && c.has_health_check
enabled c (LoopEvent.backoff_elapsed w) l =
    is_some l.actor.backoff_deadline && (not l.actor.is_shutting_down && not l.actor.manual_stop)
enabled c (LoopEvent.metrics sample) l = is_some l.actor.current_child
enabled c (LoopEvent.child_exited e w) l = is_some l.actor.current_child
enabled c (LoopEvent.start_elapsed t) l = is_some l.start_deadline

unfoldable pub fire : ProgramConfig → LoopEvent → Loop → Loop
fire c (LoopEvent.cancelled w) l = on_cancelled c w l
fire c (LoopEvent.command cmd now) l = on_command c cmd now l
fire c LoopEvent.healthy l = record l { actor = on_healthy l.actor }
fire c (LoopEvent.unhealthy sw w) l = on_unhealthy_event c sw w l
fire c (LoopEvent.backoff_elapsed w) l = on_backoff_elapsed c w l
fire c (LoopEvent.metrics sample) l = record l {
  actor = record l.actor { status = record l.actor.status { metrics = some sample } };
}
fire c (LoopEvent.child_exited e w) l = on_child_exited c e w l
fire c (LoopEvent.start_elapsed t) l = on_start_elapsed t l

unfoldable pub step : ProgramConfig → LoopEvent → Loop → Loop
unfolding enabled
step c e l = if not l.stopped && enabled c e l then fire c e l else l

unfoldable pub run : ProgramConfig → List LoopEvent → Loop → Loop
run c [] l = l
run c (e ∷ es) l = run c es (step c e l)

unfoldable pub start_loop : ProgramStatus → Loop
unfolding new
start_loop status = record { actor = new status; start_deadline = none; stopped = false }
