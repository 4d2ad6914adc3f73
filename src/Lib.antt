-- ===== src/Lib.antt =====
-- rsupervisord, a process supervisor: what its parts keep and promise.
--
-- One actor (program/process.rs) supervises each program: a `select!` loop that takes commands,
-- health events, timers and the exit of the child. The output of the child goes through log
-- pumps into a byte ring (logging/continuous_ring.rs), which the log reads of the control
-- interfaces use. State changes go to an event hub, from which the pools of event listeners
-- (eventlistener/) take what their processes subscribe to.
--
-- Files and the code they are about (paths under src/ of the repository):
--   Ring           logging/continuous_ring.rs. `new`, `write_bytes` (`write_chunk` on a slice that
--                  is not empty, with its steps `scan`, `write_storage`, `drop_expired`,
--                  `retain`), `copy_range`, `seed`, `snapshot_bytes`; Ring/Reads has `read_bytes`
--                  and `tail_bytes`. Ring/Inv and Ring/Stream relate the ring to the stream of
--                  bytes written, Ring/Lines, Ring/Evict and Ring/Index the line index to its lines.
--   Program/State  program/state.rs, with the restart policy of program/config.rs and
--                  `normalize_exit_status` of platform/traits.rs.
--   Program/Status, Spawn, Stop, Exit
--                  program/process.rs: `ProgramActor` with `update_status`, `spawn_child`,
--                  `stop_current_child` and `handle_child_exit`.
--   Program/Loop   program/process.rs: `handle_command` and the arms of the loop in `run`. Effects and
--                  Inv are about its state between two events, Stops about stop and shutdown, Crash
--                  about retries, Events and History about what is published, Lost about a start
--                  that fails.
--
--   Listener       eventlistener/: Wire (protocol.rs), Events (events.rs), Pool (pool.rs), and
--                  Handshake, the task of program.rs that talks to a listener process; its modules
--                  say what becomes of the events (Conserve, Held), in what order they arrive
--                  (Serials, Delivery), and what the protocol asks (Protocol).
--   Dag            manager/dag.rs: `DependencyGraph::build`, the layers in which programs start and
--                  stop. Counts, Kahn, Loop and Roots have the invariant of Kahn's algorithm; Layers and
--                  Order the order of the layers, Priority that in a layer, Once and Complete which
--                  programs are in them; Dependents is about `get_dependents`.
--   Ini            compat/ini/: Document (`ParsedIni`), Parse (`strip_inline_comment` and
--                  `parse_ini_content`; Parse/Render writes a document that Parse/RoundTrip reads
--                  back), Wildcard (`wildcard_match`), Include (`resolve_glob` and
--                  `load_ini_file_with_includes`) of parser.rs, Values of values.rs; EnvFile is
--                  program/envfile.rs.
--   Manager        manager/supervisor.rs: `ManagerActor` with `find_match`. Commands has the starts and
--                  stops, Generations the reload, the restart of the daemon and the groups, Run the
--                  commands in a row. Keeps, Registered, Started and Invariant are about the names
--                  of programs and configurations, Entries, Reloads, Applied and Reloaded about a
--                  reload, with the diff of Config, and Layered about the order of starts, with the
--                  graph of Dag. Timeouts is `ManagerHandle`, and Targets and Waits are about the
--                  targets and times it finds.
--   Cron           manager/cron.rs, with `handle_due_cron_jobs` of manager/supervisor.rs: the table of
--                  schedules and its service; Due is about the entries that are due.
--   Activity       manager/activity.rs: `ActivityTracker`; History is about its calls in a row.
--   Config         config/diff.rs: `ConfigDiff::compute`, what a reload adds, removes and modifies.
--
-- State and time. A handler takes the state and returns it with its result. What the operating
-- system answers (a launch, the outcome of a hook, how a child ends) is an argument of the
-- handler, so a theorem over all arguments holds for every answer. The file system of Ini and
-- EnvFile, the programs that Manager commands, the expressions of `croner` and the cycle test of
-- `petgraph` are parameters, records of the calls that the code makes of them. Instants and durations are
-- numbers of nanoseconds. Machine integers are native numbers with their wrap-around written out:
-- ring offsets are `u64`, retry counts `u32`, and the signed offsets of log reads `i64`.
--
-- A run of the loop is a list of events, each one arm of the `select!` that is ready; the arms
-- whose guard is false change nothing. The loops are structural, but for the queue of Kahn's
-- algorithm, whose fuel is the number of programs, since every turn places one, and for the
-- queue of `get_dependents`, whose fuel is one more, since every program enters it at most once;
-- the proofs show that the queues are empty by then. The loop of `wildcard_match`, which goes back
-- to its last star, has `wildcard_fuel` rounds, and is shown to end within them.
--
-- Not modelled: I/O (processes, pipes, files, sockets), serde, the HTTP and XML-RPC front ends, the
-- command line client, and tokio's scheduling, of which only the order of events remains. The
-- texts of log messages are left out; status descriptions keep their parts.

pub mod Prelude
pub mod Ring
pub mod Program
pub mod Listener
pub mod Dag
pub mod Ini
pub mod Manager
pub mod Config
pub mod Cron
pub mod Activity
