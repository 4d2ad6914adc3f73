-- ===== src/Manager/Samples.antt =====
-- A manager of two programs, and what commands do to it.
use rsupervisord.Prelude.{
  ℕ, suc, ◌≡◌, ◌≤◌, min, some, refl, arith, true, false, none, List, [], ◌∷◌, ◌++◌, map, Text,
  codes, text_eq,
}
use rsupervisord.Prelude.Maps
use rsupervisord.Prelude.Maps.{Map}
use rsupervisord.Prelude.Outcome.{ok}
use rsupervisord.Program.State.{ProgramState}
use rsupervisord.Dag
use rsupervisord.Dag.{BuildResult, DependencyGraph, contains, names, depends_of}
use rsupervisord.Dag.Counts.{Distinct}
use rsupervisord.Manager.{ProgramConfig, Api, Call, Manager, find_match}
use rsupervisord.Manager.Commands.{execute_start_all}
use rsupervisord.Manager.Generations.{dag_programs, execute_reload_config}
use rsupervisord.Manager.Run.{ManagerCommand, run_commands}
use rsupervisord.Manager.Registered.{Registered}
use rsupervisord.Manager.Invariant.{run_commands-Registered}
use rsupervisord.Manager.Reloaded.{Reloaded, execute_reload_config-Reloaded}
use rsupervisord.Manager.Timeouts.{
  find_targets_for_program, compute_stop_program_timeout, compute_restart_group_timeout,
  max_timeout,
}
use rsupervisord.Manager.Targets.{names_of}
use rsupervisord.Manager.Waits.{stop_calls_span, compute_stop_program_timeout_covers}
use rsupervisord.Manager.Layered.{NeverAfter, execute_start_all-NeverAfter}

-- Programs that are stopped and do what they are told; the world counts the calls.
abbrev obedient : Api Text ℕ (Unit {0})
obedient = record {
  status = λ h w. ProgramState.stopped;
  start = λ h w. (suc w, none);
  stop = λ period h w. (suc w, none);
  restart = λ period h w. (suc w, none);
  shutdown = λ h w. suc w;
  instantiate = λ c w pools. (w, ok (pools, c.name));
  no_pools = tt;
  is_cyclic = λ ps. false;
}

abbrev config : Text → List Text → Text → ProgramConfig
config name depends_on settings = record {
  name = name;
  group = codes "site";
  depends_on = depends_on;
  priority = 50;
  autostart = true;
  stop_wait_secs = 1;
  settings = settings;
}

abbrev old_configs : Map ProgramConfig
old_configs =
    (codes "db", config (codes "db") [] (codes "v1"))
    ∷ (codes "web", config (codes "web") (codes "db" ∷ []) (codes "v1"))
    ∷ []

abbrev new_configs : Map ProgramConfig
new_configs =
    (codes "db", config (codes "db") [] (codes "v1"))
    ∷ (codes "web", config (codes "web") (codes "db" ∷ []) (codes "v2"))
    ∷ []

abbrev site_graph : DependencyGraph
site_graph = record {
  start_layers = (codes "db" ∷ []) ∷ (codes "web" ∷ []) ∷ [];
  stop_layers = (codes "web" ∷ []) ∷ (codes "db" ∷ []) ∷ [];
}

abbrev site : Manager Text ℕ (Unit {0})
site = record {
  programs = (codes "db", codes "db") ∷ (codes "web", codes "web") ∷ [];
  configs = old_configs;
  pending_configs = old_configs;
  dag = site_graph;
  event_pools = tt;
  world = 0;
  calls = [];
}

program : Unit {0}
unfolding text_eq Maps.get Maps.contains_key Dag.build dag_programs contains execute_start_all
    find_match
program = tt

site_built : Dag.build obedient.is_cyclic (dag_programs old_configs) ≡ BuildResult.ok site_graph
unfolding program Dag.find_unknown Dag.kahn Dag.visit Dag.roots Dag.relax Dag.adj Dag.graph_of
    Dag.max_layer Dag.layer_nodes
site_built = refl

old-Distinct : Distinct (names (dag_programs old_configs))
unfolding program
old-Distinct = (refl, (refl, tt))

execute_start_all-NeverAfter_example :
    (started : List Text) × ((execute_start_all obedient site).calls ≡ [] ++ map Call.start started)
    × ((n d : Text)
        → contains n (names (dag_programs old_configs)) ≡ true
        → contains d (depends_of n (dag_programs old_configs)) ≡ true
        → NeverAfter d n started)
execute_start_all-NeverAfter_example =
    execute_start_all-NeverAfter obedient (dag_programs old_configs) site old-Distinct site_built

new-Distinct : Distinct (names new_configs)
unfolding program
new-Distinct = (refl, (refl, tt))

execute_reload_config-Reloaded_example :
    Reloaded obedient site new_configs (execute_reload_config obedient new_configs site)
execute_reload_config-Reloaded_example =
    execute_reload_config-Reloaded obedient site new_configs new-Distinct (refl, (refl, tt))

site-Registered : Registered site
unfolding Maps.contains_key
site-Registered n = ground arith

run_commands-Registered_example :
    Registered
      (run_commands obedient
        (ManagerCommand.reload_config new_configs
          ∷ ManagerCommand.remove_process_group (codes "site")
          ∷ ManagerCommand.add_process_group (codes "site")
          ∷ ManagerCommand.restart_daemon old_configs
          ∷ ManagerCommand.shutdown
          ∷ [])
        (record { manager = site; is_shutting_down = false; has_exited = false })).manager
run_commands-Registered_example =
    run_commands-Registered obedient
      (ManagerCommand.reload_config new_configs
        ∷ ManagerCommand.remove_process_group (codes "site")
        ∷ ManagerCommand.add_process_group (codes "site")
        ∷ ManagerCommand.restart_daemon old_configs
        ∷ ManagerCommand.shutdown
        ∷ [])
      (record { manager = site; is_shutting_down = false; has_exited = false }) site-Registered

matched :
    (find_match (codes "site:*") site ≡ codes "db" ∷ codes "web" ∷ [])
    × (find_match (codes " web ") site ≡ codes "web" ∷ [])
    × (find_match (codes "site:web") site ≡ codes "web" ∷ [])
    × (find_match (codes "other") site ≡ [])
unfolding program
matched = (refl, refl, refl, refl)

calls_made :
    (execute_start_all obedient site).calls
    ≡ Call.start (codes "db") ∷ Call.start (codes "web") ∷ []
unfolding program
calls_made = refl

compute_stop_program_timeout_covers_example :
    (names_of (find_targets_for_program (codes "site:*") site.configs)
      ≡ find_match (codes "site:*") site)
    × (min (stop_calls_span site (some 40) (find_match (codes "site:*") site)) max_timeout
        ≤ compute_stop_program_timeout (codes "site:*") (some 40) site.configs)
    × (compute_stop_program_timeout (codes "site:*") (some 40) site.configs ≤ max_timeout)
compute_stop_program_timeout_covers_example =
    compute_stop_program_timeout_covers (codes "site:*") (some 40) site site-Registered new-Distinct
      (refl, (refl, tt))

waited :
    (compute_stop_program_timeout (codes "site:*") (some 0) old_configs ≡ 74_000_000_000)
    × (compute_stop_program_timeout (codes "other") none old_configs ≡ 42_000_000_000)
    × (compute_restart_group_timeout (codes "site") none old_configs ≡ 144_000_000_002)
unfolding program compute_stop_program_timeout compute_restart_group_timeout
waited = (refl, refl, refl)
