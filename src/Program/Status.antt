-- ===== src/Program/Status.antt =====
-- src/program/process.rs: the state of `ProgramActor`, and `update_status`.
-- Durations and instants are nanoseconds. The log pumps, the stdin writer and the
-- probe task have no part in the state. Status descriptions and events keep their parts, not the
-- rendered text.
use rsupervisord.Prelude.{
  is_some, ℕ, Bool, false, not, ◌&&◌, ◌||◌, Option, none, List, [], ◌∷◌, ◌++◌, Text, if◌then◌else◌,
}
use rsupervisord.Prelude.Int.{ℤ}
use rsupervisord.Program.State.{HealthStatus, ProgramState, AutoRestartPolicy, state_eq}

-- The part of `ProgramConfig` that the actor reads.
pub record ProgramConfig : Type 0 where
  pub name : Text
  pub group : Text
  pub autorestart : AutoRestartPolicy
  pub start_secs : ℕ
  pub start_retries : ℕ  -- u32
  pub restart_pause_secs : ℕ
  pub stop_wait_secs : ℕ
  pub exit_codes : List ℤ
  pub has_health_check : Bool
  pub pre_start : Option Text
  pub pre_stop : Option Text
  pub pre_start_ignore_failure : Bool

pub data ProgramError : Type 0 where
  shutting_down : (name : Text) → ProgramError
  already_running : (name : Text) → (pid : ℕ) → ProgramError
  not_running : (name : Text) → ProgramError
  pre_start_hook_failed : (name reason : Text) → ProgramError
  start_failed : (name reason : Text) → ProgramError
  platform_error : (reason : Text) → ProgramError

-- `Result<(), ProgramError>`
pub data Reply : Type 0 where
  ok : Reply
  err : ProgramError → Reply

-- The texts of `description`, one constructor to a format string.
pub data Description : Type 0 where
  stopped starting running stopping force_killed : Description
  stopped_with : ℤ → Description
  pre_start_failed : Text → Description
  crashed_in_start : (retry retries : ℕ) → Description
  retries_exceeded : Option ℤ → Description
  autorestart_always : Description
  autorestart_unexpected : Option ℤ → Description
  exited_normally exited_with : Option ℤ → Description
  spawn_failed : ProgramError → Description

pub data SystemEvent : Type 0 where
  state_changed :
      (old_state new_state : ProgramState) (pid : Option ℕ) (exit_code : Option ℤ) (tries : ℕ)
      → SystemEvent
  health_changed : (healthy : Bool) → (status : HealthStatus) → SystemEvent
  process_pre_start process_pre_stop : (command : Text) → SystemEvent
  process_pre_start_failed process_pre_stop_failed : (error : Text) → SystemEvent

-- `ProgramStatus` without the fields that never change.
pub record ProgramStatus : Type 0 where
  pub state : ProgramState
  pub pid : Option ℕ
  pub uptime_secs : Option ℕ
  pub exit_code : Option ℤ
  pub is_healthy : Bool
  pub health : HealthStatus
  pub metrics : Option ℕ
  pub description : Description

pub record RunningChild : Type 0 where
  pub pid : ℕ
  pub marked_running : Bool

pub record ProgramActor : Type 0 where
  pub status : ProgramStatus
  pub started_at : Option ℕ
  pub stdin_open : Bool
  pub events : List SystemEvent  -- what the event hub was given, oldest first
  pub cancelled : Bool  -- the cancellation token
  pub current_child : Option RunningChild
  pub retry_count : ℕ  -- u32
  pub manual_stop : Bool
  pub is_shutting_down : Bool
  pub backoff_deadline : Option ℕ
  pub spawn_seq : ℕ  -- u64

unfoldable pub new : ProgramStatus → ProgramActor
new status = record {
  status = status;
  started_at = none;
  stdin_open = false;
  events = [];
  cancelled = false;
  current_child = none;
  retry_count = 0;
  manual_stop = false;
  is_shutting_down = false;
  backoff_deadline = none;
  spawn_seq = 0;
}

unfoldable pub publish : SystemEvent → ProgramActor → ProgramActor
publish e a = record a { events = a.events ++ e ∷ [] }

-- The snapshot after `update_status`.
unfoldable pub next_status :
    ProgramStatus → ProgramState → Option ℕ → Option ℤ → Description → ProgramStatus
unfolding state_eq
next_status s state pid exit_code description =
    let t = record s {
      state = state;
      pid = pid;
      exit_code = exit_code;
      description = description;
    } in
    if not (state_eq state ProgramState.running) && not (state_eq state ProgramState.starting)
    then record t {
      health = HealthStatus.no_health;
      is_healthy = false;
      metrics = none;
      uptime_secs = none;
    }
    else t

unfoldable pub update_status :
    ProgramState → Option ℕ → Option ℤ → Description → ProgramActor → ProgramActor
unfolding next_status publish state_eq
update_status state pid exit_code description a =
    let b = record a { status = next_status a.status state pid exit_code description } in
    if not (state_eq a.status.state state) || is_some exit_code
    then publish (SystemEvent.state_changed a.status.state state pid exit_code a.retry_count) b
    else b
