-- ===== src/Program/State.antt =====
-- src/program/state.rs: states, health and status of a program; src/program/config.rs: the restart
-- policy; src/platform/traits.rs: exit codes.
use rsupervisord.Prelude.{
  ℕ, zero, suc, ◌==◌, Bool, true, false, not, ◌&&◌, Option, none, some, List, ◌∷◌, ◌++◌, Text,
  text_eq, is_empty, codes, any, if◌then◌else◌,
}
use rsupervisord.Prelude.Int.{ℤ, pos, negsuc}

pub data HealthStatus : Type 0 where
  no_health starting healthy unhealthy : HealthStatus  -- the first is `None`

pub data ProgramState : Type 0 where
  stopped starting running backoff stopping exited fatal : ProgramState

pub ProgramState-discrete : Discrete ProgramState
ProgramState-discrete = hlevel

-- The derived `==` of the two enums.
unfoldable pub state_eq : ProgramState → ProgramState → Bool
state_eq ProgramState.stopped ProgramState.stopped = true
state_eq ProgramState.starting ProgramState.starting = true
state_eq ProgramState.running ProgramState.running = true
state_eq ProgramState.backoff ProgramState.backoff = true
state_eq ProgramState.stopping ProgramState.stopping = true
state_eq ProgramState.exited ProgramState.exited = true
state_eq ProgramState.fatal ProgramState.fatal = true
state_eq _ _ = false

unfoldable pub health_eq : HealthStatus → HealthStatus → Bool
health_eq HealthStatus.no_health HealthStatus.no_health = true
health_eq HealthStatus.starting HealthStatus.starting = true
health_eq HealthStatus.healthy HealthStatus.healthy = true
health_eq HealthStatus.unhealthy HealthStatus.unhealthy = true
health_eq _ _ = false

unfoldable pub is_active : ProgramState → Bool
is_active ProgramState.starting = true
is_active ProgramState.running = true
is_active ProgramState.stopping = true
is_active _ = false

unfoldable pub is_running : ProgramState → Bool
is_running ProgramState.running = true
is_running _ = false

unfoldable pub is_stopped : ProgramState → Bool
is_stopped ProgramState.stopped = true
is_stopped _ = false

unfoldable pub is_stopped_or_fatal : ProgramState → Bool
is_stopped_or_fatal ProgramState.stopped = true
is_stopped_or_fatal ProgramState.exited = true
is_stopped_or_fatal ProgramState.fatal = true
is_stopped_or_fatal _ = false

unfoldable pub is_terminal : ProgramState → Bool
is_terminal ProgramState.exited = true
is_terminal ProgramState.fatal = true
is_terminal _ = false

unfoldable pub can_start : ProgramState → Bool
can_start ProgramState.stopped = true
can_start ProgramState.exited = true
can_start ProgramState.fatal = true
can_start _ = false

unfoldable pub can_stop : ProgramState → Bool
can_stop ProgramState.starting = true
can_stop ProgramState.running = true
can_stop ProgramState.backoff = true
can_stop _ = false

-- `supervisor_name`, the name that strum derives (SCREAMING_SNAKE_CASE).
unfoldable pub supervisor_name : ProgramState → Text
supervisor_name ProgramState.stopped = codes "STOPPED"
supervisor_name ProgramState.starting = codes "STARTING"
supervisor_name ProgramState.running = codes "RUNNING"
supervisor_name ProgramState.backoff = codes "BACKOFF"
supervisor_name ProgramState.stopping = codes "STOPPING"
supervisor_name ProgramState.exited = codes "EXITED"
supervisor_name ProgramState.fatal = codes "FATAL"

-- `ProgramStatus::full_name`, of its fields `group` and `name`.
unfoldable pub full_name : (group name : Text) → Text
full_name group name =
    if not (is_empty group) && not (text_eq group name) then group ++ b':' ∷ name else name

-- The group of `new_stopped_with_group`.
unfoldable pub group_or_name : (name group : Text) → Text
group_or_name name group = if is_empty group then name else group

pub data AutoRestartPolicy : Type 0 where
  always unexpected never : AutoRestartPolicy

unfoldable pub is_never : AutoRestartPolicy → Bool
is_never AutoRestartPolicy.never = true
is_never _ = false

unfoldable pub int_eq : ℤ → ℤ → Bool
int_eq (pos a) (pos b) = a == b
int_eq (pos a) (negsuc b) = false
int_eq (negsuc a) (pos b) = false
int_eq (negsuc a) (negsuc b) = a == b

-- `expected_codes.contains(&exit_code)`
unfoldable pub contains_code : ℤ → List ℤ → Bool
unfolding int_eq
contains_code code codes = any (λ c. int_eq c code) codes

unfoldable pub should_restart : AutoRestartPolicy → ℤ → List ℤ → Bool
should_restart AutoRestartPolicy.always code expected = true
should_restart AutoRestartPolicy.never code expected = false
should_restart AutoRestartPolicy.unexpected code expected = not (contains_code code expected)

-- How a process ended, as Unix reports it.
pub data ExitStatus : Type 0 where
  code : ℤ → ExitStatus
  signal : ℕ → ExitStatus
  neither : ExitStatus

negate : ℕ → ℤ
negate n = elim n [ zero ↦ pos 0 | suc m ↦ negsuc m ]

unfoldable pub normalize_exit_status : ExitStatus → Option ℤ
unfolding negate
normalize_exit_status (ExitStatus.code c) = some c
normalize_exit_status (ExitStatus.signal s) = some (negate s)
normalize_exit_status ExitStatus.neither = none
