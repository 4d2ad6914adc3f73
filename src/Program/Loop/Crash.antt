-- ===== src/Program/Loop/Crash.antt =====
-- Start failures: the back-off between retries, and the end of the retries.
use rsupervisord.Prelude.{
  from_secs, ℕ, zero, suc, ◌+◌, ◌≤◌, ◌<◌, ◌≡◌, false, Option, none, some, List, [], ◌∷◌,
}
use rsupervisord.Program.State.{ProgramState, ExitStatus}
use rsupervisord.Program.Status.{ProgramConfig}
use rsupervisord.Program.Spawn.{SpawnWorld}
use rsupervisord.Program.Exit.{backoff_delay}
use rsupervisord.Program.Loop.{Loop, LoopEvent}

-- From 2 to 32 seconds, and never shorter for a later retry.
abbrev pub Grows : ProgramConfig → Type 0
Grows c =
    (r : ℕ)
    → 0 < r
    → (from_secs 2 ≤ backoff_delay c r)
      × (backoff_delay c r ≤ backoff_delay c (r + 1))
      × (backoff_delay c r ≤ from_secs 32)

-- A program whose process always dies in its `start_secs` window: one exit, and one retry that
-- launches a new process, `n` times, and the last exit.
unfoldable pub crashes : ℕ → Option ExitStatus → SpawnWorld → List LoopEvent
crashes zero e w = LoopEvent.child_exited e w ∷ []
crashes (suc n) e w = LoopEvent.child_exited e w ∷ LoopEvent.backoff_elapsed w ∷ crashes n e w

-- In the `start_secs` window of the attempt after `r` retries.
pub record InWindow (l : Loop) (r : ℕ) : Type 0 where
  pub looping : l.stopped ≡ false
  pub pid : ℕ
  pub child : l.actor.current_child ≡ some (record { pid = pid; marked_running = false })
  pub wanted : l.actor.manual_stop ≡ false
  pub up : l.actor.is_shutting_down ≡ false
  pub quiet : l.actor.backoff_deadline ≡ none
  pub retried : l.actor.retry_count ≡ r

-- Between the exit and the retry with number `r`.
pub record Waiting (l : Loop) (r : ℕ) : Type 0 where
  pub looping : l.stopped ≡ false
  pub due : ℕ
  pub no_child : l.actor.current_child ≡ none
  pub wanted : l.actor.manual_stop ≡ false
  pub up : l.actor.is_shutting_down ≡ false
  pub waits : l.actor.backoff_deadline ≡ some due
  pub retried : l.actor.retry_count ≡ r
  pub shown : l.actor.status.state ≡ ProgramState.backoff

pub record GivenUp (c : ProgramConfig) (l : Loop) : Type 0 where
  pub no_child : l.actor.current_child ≡ none
  pub no_retry : l.actor.backoff_deadline ≡ none
  pub shown : l.actor.status.state ≡ ProgramState.fatal
  pub tried : l.actor.retry_count ≡ c.start_retries + 1
