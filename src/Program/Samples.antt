-- ===== src/Program/Samples.antt =====
-- A small program, and what its actor does in short runs.
use rsupervisord.Prelude.{inr, ◌≡◌, refl, arith, true, false, none, some, List, [], ◌∷◌, codes}
use rsupervisord.Prelude.Int.{pos}
use rsupervisord.Program.State.{HealthStatus, ProgramState, AutoRestartPolicy, ExitStatus}
use rsupervisord.Program.Status.{ProgramConfig, ProgramStatus, ProgramError, Reply, Description}
use rsupervisord.Program.Spawn.{Launch, SpawnWorld, spawn_child}
use rsupervisord.Program.Stop.{StopWait, StopWorld}
use rsupervisord.Program.Loop.{
  ProgramCommand, handle_command, Loop, LoopEvent, start_loop, run, on_command,
}
use rsupervisord.Program.Loop.Inv.{Inv, reachable-Inv}
use rsupervisord.Program.Loop.Stops.{AtRest, stop_lasts, shutdown_lasts, Down}
use rsupervisord.Program.Loop.Events.{Chain}
use rsupervisord.Program.Loop.History.{run-Chain}
use rsupervisord.Program.Loop.Lost.{Stuck, failed_start_lasts}

abbrev pub web : ProgramConfig
web = record {
  name = codes "web";
  group = codes "site";
  autorestart = AutoRestartPolicy.unexpected;
  start_secs = 1;
  start_retries = 2;
  restart_pause_secs = 0;
  stop_wait_secs = 10;
  exit_codes = pos 0 ∷ [];
  has_health_check = false;
  pre_start = none;
  pre_stop = none;
  pre_start_ignore_failure = false;
}

abbrev pub at_first : ProgramStatus
at_first = record {
  state = ProgramState.stopped;
  pid = none;
  uptime_secs = none;
  exit_code = none;
  is_healthy = false;
  health = HealthStatus.no_health;
  metrics = none;
  description = Description.stopped;
}

abbrev pub launches : SpawnWorld
launches = record { previous_exited = false; hook = none; launch = Launch.spawned 7 true; now = 5 }

abbrev pub terminates : StopWorld
terminates = record { hook = none; wait = StopWait.graceful (ExitStatus.signal 15) }

abbrev pub events : List LoopEvent
events =
    LoopEvent.command (ProgramCommand.start launches) 5
    ∷ LoopEvent.child_exited (some (ExitStatus.code (pos 1))) launches
    ∷ LoopEvent.backoff_elapsed launches
    ∷ LoopEvent.start_elapsed false
    ∷ []

reachable-Inv_example : Inv web (run web events (start_loop at_first)).actor
reachable-Inv_example = reachable-Inv web at_first events (ground arith)

run-Chain_example :
    Chain ProgramState.stopped
      (run web events (start_loop at_first)).actor.events
      (run web events (start_loop at_first)).actor.status.state
run-Chain_example = run-Chain web at_first events

abbrev pub started : Loop
started = on_command web (ProgramCommand.start launches) 5 (start_loop at_first)

stop_lasts_example :
    AtRest
      (run web
        (LoopEvent.backoff_elapsed launches ∷ LoopEvent.start_elapsed false ∷ [])
        (on_command web (ProgramCommand.stop terminates) 0 started)).actor
stop_lasts_example = stop_lasts web terminates _ started (refl, (refl, tt))

shutdown_lasts_example :
    Down (run web events (on_command web (ProgramCommand.shutdown terminates) 0 started)).actor
shutdown_lasts_example = (shutdown_lasts web terminates events started).0

abbrev fails : SpawnWorld
fails = record {
  previous_exited = true;
  hook = none;
  launch = Launch.failed (ProgramError.platform_error []);
  now = 9;
}

-- The child of `started` has exited, and a second start comes before the loop sees it.
failed_start_lasts_example :
    ((handle_command web (ProgramCommand.start fails) started.actor).0
      ≡ Reply.err (ProgramError.platform_error []))
    × Stuck started.actor.status
        (run web
          (LoopEvent.child_exited none fails ∷ [])
          (on_command web (ProgramCommand.start fails) 9 started)).actor
unfolding on_command handle_command spawn_child start_loop
failed_start_lasts_example =
    failed_start_lasts web fails (ProgramError.platform_error []) started refl refl refl (inr refl)
      9 (LoopEvent.child_exited none fails ∷ []) (refl, tt)
