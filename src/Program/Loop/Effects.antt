-- ===== src/Program/Loop/Effects.antt =====
-- What `spawn_child` and `stop_current_child` leave of the actor.
use rsupervisord.Prelude.{
  is_some, ℕ, ◌≡◌, ◌⊎◌, Bool, true, false, Option, none, some, arith, if◌then◌else◌,
}
use rsupervisord.Program.State.{ProgramState}
use rsupervisord.Program.Status.{ProgramConfig, RunningChild, ProgramActor, Reply}
use rsupervisord.Program.Spawn.{SpawnWorld, spawn_child}
use rsupervisord.Program.Stop.{StopWorld, stop_current_child}

abbrev pub child_pid : Option RunningChild → Option ℕ
child_pid none = none
child_pid (some child) = some child.pid

abbrev pub is_marked : Option RunningChild → Bool
is_marked none = false
is_marked (some child) = child.marked_running

abbrev pub is_ok : Reply → Bool
is_ok Reply.ok = true
is_ok (Reply.err e) = false

-- What `stop_current_child` leaves.
pub record Halted (a b : ProgramActor) : Type 0 where
  pub no_child : b.current_child ≡ none
  pub shown : b.status.state ≡ ProgramState.stopped
  pub retry_count : b.retry_count ≡ a.retry_count
  pub manual_stop : b.manual_stop ≡ a.manual_stop
  pub is_shutting_down : b.is_shutting_down ≡ a.is_shutting_down
  pub backoff_deadline : b.backoff_deadline ≡ a.backoff_deadline

pub stop_current_child-Halted :
    (c : ProgramConfig) (w : StopWorld) (a : ProgramActor) → Halted a (stop_current_child c w a)
unfolding stop_current_child
stop_current_child-Halted c w a = ground arith

-- What `spawn_child` leaves.
pub record Spawned (c : ProgramConfig) (a : ProgramActor) (reply : Reply) (b : ProgramActor)
    : Type 0 where
  pub retry_count : b.retry_count ≡ a.retry_count
  pub is_shutting_down : b.is_shutting_down ≡ a.is_shutting_down
  pub backoff_deadline : b.backoff_deadline ≡ a.backoff_deadline
  pub manual_stop : (b.manual_stop ≡ false) ⊎ (b.manual_stop ≡ a.manual_stop)
  pub down : a.is_shutting_down ≡ true → b.current_child ≡ a.current_child
  pub child_state :
      is_some b.current_child ≡ true
      → (b.status.state
          ≡ (if is_marked b.current_child then ProgramState.running else ProgramState.starting))
        ⊎ (b ≡ a)
  pub failed : is_ok reply ≡ false → (b.current_child ≡ none) ⊎ (b ≡ a)
  pub done : is_ok reply ≡ true → is_some b.current_child ≡ true
  pub child_shown :
      is_some b.current_child ≡ true → (b.status.pid ≡ child_pid b.current_child) ⊎ (b ≡ a)

pub spawn_child-Spawned :
    (c : ProgramConfig) (w : SpawnWorld) (a : ProgramActor)
    → Spawned c a (spawn_child c w a).0 (spawn_child c w a).1
unfolding spawn_child
spawn_child-Spawned c w a = ground arith
