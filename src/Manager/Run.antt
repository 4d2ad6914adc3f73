-- ===== src/Manager/Run.antt =====
-- src/manager/supervisor.rs, `ManagerActor::run`: the commands that change the state, and the end
-- of the loop. Each command is one step; an actor that has left the loop takes no more.
use rsupervisord.Prelude.{
  ℕ, Bool, true, false, Option, none, some, List, [], ◌∷◌, Text, codes, if◌then◌else◌,
}
use rsupervisord.Prelude.Maps.{Map}
use rsupervisord.Prelude.Outcome.{Outcome, ok, err}
use rsupervisord.Manager.{ProgramConfig, Api, ManagerError, shutting_down, Manager}
use rsupervisord.Manager.Commands.{
  execute_start_group, execute_stop_group, execute_restart_group, execute_start_program,
  execute_stop_program, execute_restart_program, execute_start_all, execute_stop_all,
}
use rsupervisord.Manager.Generations.{
  ReloadSummary, execute_reload_config, execute_restart_daemon, execute_add_process_group,
  execute_remove_process_group, shutdown_all,
}

-- The commands that change the state; `cancel` is the cancelled token.
pub data ManagerCommand : Type 0 where
  start_program start_group add_process_group remove_process_group : Text → ManagerCommand
  stop_program restart_program stop_group restart_group : Text → Option ℕ → ManagerCommand
  start_all shutdown cancel : ManagerCommand
  stop_all : Option ℕ → ManagerCommand
  reload_config restart_daemon : Map ProgramConfig → ManagerCommand

pub data Answer : Type 0 where
  done : Answer
  members : List Text → Answer
  flag : Bool → Answer
  summary : ReloadSummary → Answer

pub record Actor (H W E : Type 0) : Type 0 where
  pub manager : Manager H W E
  pub is_shutting_down : Bool
  pub has_exited : Bool

unfoldable pub answer_with :
    {H W E A : Type 0}
    → (A → Answer)
    → Manager H W E × Outcome ManagerError A
    → Manager H W E × Outcome ManagerError Answer
answer_with f (m, ok a) = (m, ok (f a))
answer_with f (m, err e) = (m, err e)

module _ {H W E : Type 0} (api : Api H W E) where
  -- The handler of a command that is not refused.
  unfoldable pub execute :
      ManagerCommand → Manager H W E → Manager H W E × Outcome ManagerError Answer
  unfolding answer_with execute_start_group execute_stop_group execute_restart_group
      execute_start_program execute_stop_program execute_restart_program execute_start_all
      execute_stop_all execute_reload_config execute_restart_daemon execute_add_process_group
      execute_remove_process_group
  execute (start_program name) m = answer_with (λ a. done) (execute_start_program api name m)
  execute (stop_program name period) m =
      answer_with (λ a. done) (execute_stop_program api name period m)
  execute (restart_program name period) m =
      answer_with (λ a. done) (execute_restart_program api name period m)
  execute (start_group group) m = answer_with members (execute_start_group api group m)
  execute (stop_group group period) m = answer_with members (execute_stop_group api group period m)
  execute (restart_group group period) m =
      answer_with members (execute_restart_group api group period m)
  execute start_all m = (execute_start_all api m, ok done)
  execute (stop_all period) m = (execute_stop_all api period m, ok done)
  execute (reload_config new) m = answer_with summary (execute_reload_config api new m)
  execute (restart_daemon new) m = answer_with (λ a. done) (execute_restart_daemon api new m)
  execute (add_process_group group) m = answer_with flag (execute_add_process_group api group m)
  execute (remove_process_group group) m =
      answer_with flag (execute_remove_process_group api group m)
  execute shutdown m = (execute_stop_all api none m, ok done)
  execute cancel m = (execute_stop_all api none m, ok done)

  -- What a command is refused with during a shutdown; a stop is not refused.
  unfoldable pub refused_name : ManagerCommand → Option Text
  refused_name (start_program name) = some name
  refused_name (restart_program name period) = some name
  refused_name (start_group group) = some group
  refused_name (restart_group group period) = some group
  refused_name start_all = some (codes "manager")
  refused_name (reload_config new) = some (codes "manager")
  refused_name (restart_daemon new) = some (codes "manager")
  refused_name (add_process_group group) = some group
  refused_name (remove_process_group group) = some group
  refused_name _ = none

  unfoldable pub ends_loop : ManagerCommand → Bool
  ends_loop shutdown = true
  ends_loop cancel = true
  ends_loop _ = false

  -- The code behind the loop.
  unfoldable pub leave : Manager H W E → Manager H W E
  unfolding shutdown_all
  leave m = shutdown_all api m.programs m

  unfoldable pub step :
      ManagerCommand → Actor H W E → Actor H W E × Option (Outcome ManagerError Answer)
  unfolding execute refused_name ends_loop leave
  step command a =
      let (m', reply) = execute command a.manager in
      let refused : Option Text = if a.is_shutting_down then refused_name command else none in
      if a.has_exited
      then (a, none)
      else if ends_loop command
      then (record { manager = leave m'; is_shutting_down = true; has_exited = true }, some reply)
      else elim refused [
        | some name ↦ (a, some (err (shutting_down name)))
        | none ↦ (record a { manager = m' }, some reply)
      ]

  unfoldable pub run_commands : List ManagerCommand → Actor H W E → Actor H W E
  unfolding step
  run_commands [] a = a
  run_commands (command ∷ rest) a = run_commands rest (step command a).0
