-- ===== src/Program/Loop/Stops.antt =====
-- What follows a stop command and a shutdown command.
use rsupervisord.Prelude.{ℕ, ◌≡◌, refl, Bool, true, false, none, List, [], ◌∷◌, arith, All}
use rsupervisord.Program.State.{ProgramState}
use rsupervisord.Program.Status.{ProgramConfig, ProgramActor, ProgramError, Reply, update_status}
use rsupervisord.Program.Spawn.{SpawnWorld}
use rsupervisord.Program.Stop.{StopWorld}
use rsupervisord.Program.Loop.{
  ProgramCommand, handle_command, Loop, LoopEvent, enabled, fire, step, run, on_command,
  on_cancelled, on_start_elapsed,
}
use rsupervisord.Program.Loop.Effects.{stop_current_child-Halted}

-- A request that may start the process.
abbrev pub asks_start : LoopEvent → Bool
asks_start (LoopEvent.command (ProgramCommand.start w) now) = true
asks_start (LoopEvent.command (ProgramCommand.restart sw w) now) = true
asks_start _ = false

-- No child, no retry, and shown as STOPPED.
pub record AtRest (a : ProgramActor) : Type 0 where
  pub no_child : a.current_child ≡ none
  pub no_retry : a.backoff_deadline ≡ none
  pub shown : a.status.state ≡ ProgramState.stopped

-- A shutdown is under way, and the process is gone.
pub record Down (a : ProgramActor) : Type 0 where
  pub flagged : a.is_shutting_down ≡ true
  pub at_rest : AtRest a

module _ (c : ProgramConfig) where
  rest_command :
      (cmd : ProgramCommand) {a : ProgramActor}
      → asks_start (LoopEvent.command cmd 0) ≡ false
      → AtRest a
      → AtRest (handle_command c cmd a).1
  unfolding handle_command
  rest_command (ProgramCommand.start w) quiet r = cc
  rest_command (ProgramCommand.restart sw w) quiet r = cc
  rest_command (ProgramCommand.stop w) {a} quiet r = ground (
    arith,
    stop_current_child-Halted c w (record a { manual_stop = true; backoff_deadline = none }),
  )
  rest_command (ProgramCommand.shutdown w) {a} quiet r = ground (
    arith,
    stop_current_child-Halted c w
        (record a { is_shutting_down = true; manual_stop = true; backoff_deadline = none }),
  )
  rest_command (ProgramCommand.signal sent) quiet r = ground arith

  rest_fire :
      (e : LoopEvent) (l : Loop)
      → asks_start e ≡ false
      → enabled c e l ≡ true
      → AtRest l.actor
      → AtRest (fire c e l).actor
  unfolding fire enabled
  rest_fire (LoopEvent.cancelled w) l quiet on r =
      unfold on_cancelled update_status in
      ground (
        arith,
        stop_current_child-Halted c w (record l.actor {
          is_shutting_down = true;
          manual_stop = true;
          backoff_deadline = none;
        }),
      )
  rest_fire (LoopEvent.command cmd now) l quiet on r =
      unfold on_command in rest_command cmd (same cmd now quiet) r
    where
      same :
          (cmd : ProgramCommand) (now : ℕ)
          → asks_start (LoopEvent.command cmd now) ≡ false
          → asks_start (LoopEvent.command cmd 0) ≡ false
      same (ProgramCommand.start w) now q = q
      same (ProgramCommand.restart sw w) now q = q
      same _ now q = refl
  rest_fire LoopEvent.healthy l quiet on r = ground arith
  rest_fire (LoopEvent.unhealthy sw w) l quiet on r = ground arith
  rest_fire (LoopEvent.backoff_elapsed w) l quiet on r = ground arith
  rest_fire (LoopEvent.metrics sample) l quiet on r = ground arith
  rest_fire (LoopEvent.child_exited e w) l quiet on r = ground arith
  rest_fire (LoopEvent.start_elapsed t) l quiet on r = unfold on_start_elapsed in ground arith

  rest_step :
      (e : LoopEvent) (l : Loop) → asks_start e ≡ false → AtRest l.actor → AtRest (step c e l).actor
  unfolding step
  rest_step e l quiet r = ground (arith, rest_fire e l)

  rest_run :
      (events : List LoopEvent) (l : Loop)
      → All (λ e. asks_start e ≡ false) events
      → AtRest l.actor
      → AtRest (run c events l).actor
  unfolding run
  rest_run [] l quiet r = r
  rest_run (e ∷ es) l quiet r = rest_run es (step c e l) quiet.1 (rest_step e l quiet.0 r)

  -- After a stop command the loop stays without a child, without a pending retry and in STOPPED
  -- through any events that are not a start or a restart command.
  pub stop_lasts :
      (w : StopWorld) (events : List LoopEvent) (l : Loop)
      → All (λ e. asks_start e ≡ false) events
      → AtRest (run c events (on_command c (ProgramCommand.stop w) 0 l)).actor
  stop_lasts w events l quiet = rest_run events _ quiet (
      unfold on_command handle_command in
      ground (
        arith,
        stop_current_child-Halted c w
            (record l.actor { manual_stop = true; backoff_deadline = none }),
      ))

  Down-command :
      (cmd : ProgramCommand) {a : ProgramActor} → Down a → Down (handle_command c cmd a).1
  unfolding handle_command
  Down-command (ProgramCommand.start w) d = ground arith
  Down-command (ProgramCommand.restart sw w) d = ground arith
  Down-command (ProgramCommand.stop w) {a} d = ground (
    arith,
    stop_current_child-Halted c w (record a { manual_stop = true; backoff_deadline = none }),
  )
  Down-command (ProgramCommand.shutdown w) {a} d = ground (
    arith,
    stop_current_child-Halted c w
        (record a { is_shutting_down = true; manual_stop = true; backoff_deadline = none }),
  )
  Down-command (ProgramCommand.signal sent) d = ground arith

  Down-fire :
      (e : LoopEvent) (l : Loop) → enabled c e l ≡ true → Down l.actor → Down (fire c e l).actor
  unfolding fire enabled
  Down-fire (LoopEvent.cancelled w) l on d =
      unfold on_cancelled update_status in
      ground (
        arith,
        stop_current_child-Halted c w (record l.actor {
          is_shutting_down = true;
          manual_stop = true;
          backoff_deadline = none;
        }),
      )
  Down-fire (LoopEvent.command cmd now) l on d = unfold on_command in Down-command cmd d
  Down-fire (LoopEvent.start_elapsed t) l on d = unfold on_start_elapsed in ground arith
  Down-fire _ l on d = ground arith

  Down-run : (events : List LoopEvent) (l : Loop) → Down l.actor → Down (run c events l).actor
  unfolding run step
  Down-run [] l d = d
  Down-run (e ∷ es) l d = Down-run es (step c e l) (ground (arith, Down-fire e l))

  -- After a shutdown command, whatever happens, start commands included: the actor is shutting
  -- down, with no child, no pending retry and in STOPPED, and a further start or restart command
  -- is refused with ShuttingDown and changes nothing.
  pub shutdown_lasts :
      (w : StopWorld) (events : List LoopEvent) (l : Loop)
      → let final = (run c events (on_command c (ProgramCommand.shutdown w) 0 l)).actor in
        Down final
        × ((sw : SpawnWorld)
            → handle_command c (ProgramCommand.start sw) final
              ≡ (Reply.err (ProgramError.shutting_down c.name), final))
        × ((tw : StopWorld) (sw : SpawnWorld)
            → handle_command c (ProgramCommand.restart tw sw) final
              ≡ (Reply.err (ProgramError.shutting_down c.name), final))
  shutdown_lasts w events l =
      let d : Down (run c events (on_command c (ProgramCommand.shutdown w) 0 l)).actor =
        Down-run events _ (
          unfold on_command handle_command in
          ground (
            arith,
            stop_current_child-Halted c w (record l.actor {
              is_shutting_down = true;
              manual_stop = true;
              backoff_deadline = none;
            }),
          )) in
      (
        d,
        λ sw. unfold handle_command in rw d.flagged,
        λ tw sw. unfold handle_command in rw d.flagged,
      )
