-- ===== src/Program/Stop.antt =====
-- src/program/process.rs: `stop_current_child` of the actor, with the `pre_stop` hook.
use rsupervisord.Prelude.{false, Option, none, some, Text}
use rsupervisord.Prelude.Int.{ℤ}
use rsupervisord.Program.State.{ProgramState, ExitStatus, normalize_exit_status}
use rsupervisord.Program.Status.{
  ProgramConfig, Description, SystemEvent, ProgramActor, publish, update_status,
}

-- How the child ends after the stop signal: in the grace period, or by a forced kill, whose exit
-- may not be seen in time.
pub data StopWait : Type 0 where
  graceful : ExitStatus → StopWait
  forced : Option ExitStatus → StopWait

pub record StopWorld : Type 0 where
  pub hook : Option Text  -- the error of the `pre_stop` hook
  pub wait : StopWait

unfoldable pub run_pre_stop : ProgramConfig → StopWorld → ProgramActor → ProgramActor
unfolding publish
run_pre_stop c w a = elim c.pre_stop [
  | none ↦ a
  | some command ↦
      let a1 = publish (SystemEvent.process_pre_stop command) a in
      elim w.hook [
        | none ↦ a1
        | some error ↦ publish (SystemEvent.process_pre_stop_failed error) a1
      ]
]

unfoldable pub stop_description : StopWait → Option ℤ → Description
stop_description (StopWait.forced s) code = Description.force_killed
stop_description (StopWait.graceful s) none = Description.stopped
stop_description (StopWait.graceful s) (some code) = Description.stopped_with code

unfoldable pub final_code : StopWait → Option ℤ
unfolding normalize_exit_status
final_code (StopWait.graceful s) = normalize_exit_status s
final_code (StopWait.forced none) = none
final_code (StopWait.forced (some s)) = normalize_exit_status s

unfoldable pub stop_current_child : ProgramConfig → StopWorld → ProgramActor → ProgramActor
unfolding run_pre_stop stop_description final_code update_status
stop_current_child c w a =
    let b = record a { started_at = none; stdin_open = false; current_child = none } in
    elim a.current_child [
      | none ↦ update_status ProgramState.stopped none none Description.stopped b
      | some child ↦
          let stopping =
            update_status ProgramState.stopping (some child.pid) none Description.stopping b in
          let code = final_code w.wait in
          update_status ProgramState.stopped none code (stop_description w.wait code)
            (run_pre_stop c w stopping)
    ]
