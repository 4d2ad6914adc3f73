-- ===== src/Program/Spawn.antt =====
-- src/program/process.rs: `spawn_child` of the actor. The operating system enters as `SpawnWorld`.
use rsupervisord.Prelude.{
  ℕ, ◌+◌, ◌==◌, Bool, false, not, ◌&&◌, ◌||◌, Option, none, some, Text, if◌then◌else◌, u64,
}
use rsupervisord.Program.State.{HealthStatus, ProgramState, health_eq}
use rsupervisord.Program.Status.{
  ProgramConfig, ProgramError, Reply, Description, SystemEvent, ProgramActor, publish,
  update_status,
}

-- What the operating system answers to `spawn_child`.
pub data Launch : Type 0 where
  failed : ProgramError → Launch  -- the transport, the command or the process could not be set up
  spawned : (pid : ℕ) → (has_stdin : Bool) → Launch

pub record SpawnWorld : Type 0 where
  pub previous_exited : Bool  -- `try_wait` of the previous child gives a status
  pub hook : Option Text  -- the error of the `pre_start` hook
  pub launch : Launch
  pub now : ℕ

unfoldable pub run_pre_start : ProgramConfig → SpawnWorld → ProgramActor → Reply × ProgramActor
unfolding update_status publish
run_pre_start c w a = elim c.pre_start [
  | none ↦ (Reply.ok, a)
  | some command ↦
      let a1 = publish (SystemEvent.process_pre_start command) a in
      elim w.hook [
        | none ↦ (Reply.ok, a1)
        | some error ↦
            let a2 = publish (SystemEvent.process_pre_start_failed error) a1 in
            if not c.pre_start_ignore_failure
            then (
              Reply.err (ProgramError.pre_start_hook_failed c.name error),
              update_status ProgramState.fatal none none (Description.pre_start_failed error) a2,
            )
            else (Reply.ok, a2)
      ]
]

unfoldable pub launch_child : ProgramConfig → SpawnWorld → ProgramActor → Reply × ProgramActor
unfolding update_status health_eq
launch_child c w a = elim w.launch [
  | Launch.failed e ↦ (Reply.err e, a)
  | Launch.spawned pid has_stdin ↦
      let marked_running = c.start_secs == 0 in
      let initial_health =
        if c.has_health_check then HealthStatus.starting else HealthStatus.no_health in
      let initial_state = if marked_running then ProgramState.running else ProgramState.starting in
      let description = if marked_running then Description.running else Description.starting in
      let b =
        update_status initial_state (some pid) none description
          (record a { started_at = some w.now; stdin_open = has_stdin }) in
      (
        Reply.ok,
        record b {
          status = record b.status {
            health = initial_health;
            is_healthy =
                health_eq initial_health HealthStatus.healthy
                || (health_eq initial_health HealthStatus.no_health && marked_running);
            uptime_secs = some 0;
          };
          current_child = some (record { pid = pid; marked_running = marked_running });
          spawn_seq = u64 (b.spawn_seq + 1);
        },
      )
]

-- `spawn_child` once no former child is in the way.
unfoldable pub spawn_fresh : ProgramConfig → SpawnWorld → ProgramActor → Reply × ProgramActor
unfolding run_pre_start launch_child
spawn_fresh c w a =
    let (reply, b) = run_pre_start c w (record a { manual_stop = false }) in
    elim reply [ Reply.ok ↦ launch_child c w b | Reply.err e ↦ (Reply.err e, b) ]

unfoldable pub spawn_child : ProgramConfig → SpawnWorld → ProgramActor → Reply × ProgramActor
unfolding spawn_fresh
spawn_child c w a =
    if a.is_shutting_down
    then (Reply.err (ProgramError.shutting_down c.name), a)
    else elim a.current_child [
      | none ↦ spawn_fresh c w a
      | some child ↦
          if w.previous_exited
          then spawn_fresh c w (record a { current_child = none })
          else (Reply.err (ProgramError.already_running c.name child.pid), a)
    ]
