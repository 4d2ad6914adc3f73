-- ===== src/Program/Exit.antt =====
-- src/program/process.rs: `handle_child_exit` of the actor: back-off, automatic restart and exit.
use rsupervisord.Prelude.{
  ℕ, ◌+◌, ◌^◌, min, leb, ◌==◌, Bool, true, false, not, ◌||◌, Option, none, some, if◌then◌else◌, u32,
  unwrap_or, from_secs,
}
use rsupervisord.Prelude.Int.{ℤ, negsuc}
use rsupervisord.Program.State.{
  ProgramState, AutoRestartPolicy, ExitStatus, should_restart, contains_code, normalize_exit_status,
}
use rsupervisord.Program.Status.{ProgramConfig, Reply, Description, ProgramActor, update_status}
use rsupervisord.Program.Spawn.{SpawnWorld, spawn_child}

abbrev pub backoff_max_exponent : ℕ
backoff_max_exponent = 5

unfoldable pub backoff_delay : ProgramConfig → (retry_count : ℕ) → ℕ
backoff_delay c retry_count =
    if not (c.restart_pause_secs == 0)
    then c.restart_pause_secs
    else from_secs (2 ^ min retry_count backoff_max_exponent)

-- The exit of a child that was still in its `start_secs` window.
unfoldable pub startup_failure : ProgramConfig → (now : ℕ) → Option ℤ → ProgramActor → ProgramActor
unfolding update_status backoff_delay
startup_failure c now exit_code a =
    let b = record a { retry_count = u32 (a.retry_count + 1) } in
    if leb b.retry_count c.start_retries
    then record (update_status ProgramState.backoff none exit_code
        (Description.crashed_in_start b.retry_count c.start_retries) b) {
          backoff_deadline = some (now + backoff_delay c b.retry_count);
        }
    else update_status ProgramState.fatal none exit_code (Description.retries_exceeded exit_code) b

unfoldable pub restart_description : AutoRestartPolicy → Option ℤ → Description
restart_description AutoRestartPolicy.always code = Description.autorestart_always
restart_description _ code = Description.autorestart_unexpected code

-- The exit of a child that had been marked running.
unfoldable pub running_exit :
    ProgramConfig → SpawnWorld → Option ℤ → ProgramActor → Bool × ProgramActor
running_exit c w exit_code a =
    let is_expected : Bool = elim exit_code [
      | none ↦ false
      | some code ↦ contains_code code c.exit_codes
    ] in
    if should_restart c.autorestart (unwrap_or exit_code (negsuc 0)) c.exit_codes
    then (let (reply, b) = spawn_child c w (
          update_status ProgramState.starting none exit_code
            (restart_description c.autorestart exit_code) a) in
        elim reply [
          | Reply.ok ↦ (true, b)
          | Reply.err e ↦ (
            false,
            update_status ProgramState.fatal none exit_code (Description.spawn_failed e) b,
          )
        ])
    else (
      false,
      update_status ProgramState.exited none exit_code
          (if is_expected
            then Description.exited_normally exit_code
            else Description.exited_with exit_code)
          a,
    )

-- `none` stands for an error of the wait for the exit.
unfoldable pub exit_code_of : Option ExitStatus → Option ℤ
unfolding normalize_exit_status
exit_code_of none = none
exit_code_of (some s) = normalize_exit_status s

unfoldable pub handle_child_exit :
    ProgramConfig → SpawnWorld → Option ExitStatus → ProgramActor → Bool × ProgramActor
handle_child_exit c w exit_res a =
    let b = record a { started_at = none; stdin_open = false; current_child = none } in
    let marked_running : Bool = elim a.current_child [
      | none ↦ false
      | some child ↦ child.marked_running
    ] in
    let exit_code = exit_code_of exit_res in
    let description : Description = elim exit_code [
      | none ↦ Description.stopped
      | some code ↦ Description.stopped_with code
    ] in
    if a.is_shutting_down || a.manual_stop
    then (
      false,
      update_status ProgramState.stopped none exit_code description
          (record b { backoff_deadline = none }),
    )
    else if not marked_running
    then (false, startup_failure c w.now exit_code b)
    else running_exit c w exit_code b
