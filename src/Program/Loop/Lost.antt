-- ===== src/Program/Loop/Lost.antt =====
-- A start command that fails: what the status shows from then on.
use rsupervisord.Prelude.{ℕ, ◌≡◌, ◌⊎◌, arith, Bool, true, false, none, List, [], ◌∷◌, All}
use rsupervisord.Program.Status.{ProgramConfig, ProgramStatus, ProgramActor, ProgramError, Reply}
use rsupervisord.Program.Spawn.{
  Launch, SpawnWorld, spawn_child, spawn_fresh, run_pre_start, launch_child,
}
use rsupervisord.Program.Loop.{
  ProgramCommand, handle_command, Loop, LoopEvent, enabled, fire, step, run, on_command,
  on_start_elapsed,
}

-- A command, or the end of the loop.
abbrev pub is_request : LoopEvent → Bool
is_request (LoopEvent.command cmd now) = true
is_request (LoopEvent.cancelled w) = true
is_request _ = false

-- No child, no retry to come, and this status.
pub record Stuck (status : ProgramStatus) (a : ProgramActor) : Type 0 where
  pub no_child : a.current_child ≡ none
  pub no_retry : a.backoff_deadline ≡ none
  pub shown : a.status ≡ status

Stuck-step :
    (c : ProgramConfig) (e : LoopEvent) (l : Loop) (status : ProgramStatus)
    → is_request e ≡ false
    → Stuck status l.actor
    → Stuck status (step c e l).actor
unfolding step fire enabled on_start_elapsed
Stuck-step c (LoopEvent.command cmd now) l status q s = absurd (cc q)
Stuck-step c (LoopEvent.cancelled w) l status q s = absurd (cc q)
Stuck-step c (LoopEvent.start_elapsed t) l status q s = ground arith
Stuck-step c _ l status q s = ground arith

Stuck-run :
    (c : ProgramConfig) (events : List LoopEvent) (l : Loop) (status : ProgramStatus)
    → All (λ e. is_request e ≡ false) events
    → Stuck status l.actor
    → Stuck status (run c events l).actor
unfolding run
Stuck-run c [] l status quiet s = s
Stuck-run c (e ∷ es) l status quiet s =
    Stuck-run c es (step c e l) status quiet.1 (Stuck-step c e l status quiet.0 s)

module _ (c : ProgramConfig) (w : SpawnWorld) (error : ProgramError) (l : Loop)
    (no_hook : c.pre_start ≡ none) (fails : w.launch ≡ Launch.failed error)
    (up : l.actor.is_shutting_down ≡ false)
    (gone : (l.actor.current_child ≡ none) ⊎ (w.previous_exited ≡ true)) where
  failed_start :
      let r = handle_command c (ProgramCommand.start w) l.actor in
      (r.0 ≡ Reply.err error) × Stuck l.actor.status r.1
  unfolding handle_command spawn_child spawn_fresh run_pre_start launch_child
  failed_start = ground (arith, no_hook, fails, up, gone)

  -- A start command without a `pre_start` hook whose launch fails, given in any state with no child
  -- or with a child that has exited unnoticed: the sender gets the error, and until the next command
  -- or the end of the loop, whatever happens, the status stays as it was before the command (RUNNING
  -- or STARTING with the pid of the dead child, or BACKOFF), with no child and no retry to come.
  pub failed_start_lasts :
      (now : ℕ) (events : List LoopEvent)
      → All (λ e. is_request e ≡ false) events
      → ((handle_command c (ProgramCommand.start w) l.actor).0 ≡ Reply.err error)
        × Stuck l.actor.status (run c events (on_command c (ProgramCommand.start w) now l)).actor
  failed_start_lasts now events quiet = (
    failed_start.0,
    Stuck-run c events _ l.actor.status quiet (unfold on_command in failed_start.1),
  )
