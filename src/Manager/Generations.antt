-- ===== src/Manager/Generations.antt =====
-- src/manager/supervisor.rs: a new generation of programs (a reload, a restart of the daemon), and
-- groups that are added and removed at run time.
use rsupervisord.Prelude.{
  ℕ, Bool, true, false, not, ◌&&◌, ◌||◌, none, some, List, [], ◌∷◌, map, Text, text_eq, ◌==◌,
  if◌then◌else◌, is_empty,
}
use rsupervisord.Prelude.Maps
use rsupervisord.Prelude.Maps.{Map}
use rsupervisord.Prelude.Outcome.{Outcome, ok, err}
use rsupervisord.Program.State.{ProgramState, is_active, state_eq}
use rsupervisord.Dag
use rsupervisord.Dag.{DependencyGraph, BuildResult}
use rsupervisord.Config.Diff.{ConfigDiff, compute}
use rsupervisord.Manager.{
  ProgramConfig, Api, ManagerError, not_found, program_error, bad_dependencies, Manager,
  default_stop_wait,
}
use rsupervisord.Manager.Commands.{
  call_start, call_stop, call_shutdown, execute_start_all, execute_stop_all,
}

-- The derived `==` of configurations.
unfoldable pub texts_eq : List Text → List Text → Bool
unfolding text_eq
texts_eq [] [] = true
texts_eq [] (t ∷ ts) = false
texts_eq (s ∷ ss) [] = false
texts_eq (s ∷ ss) (t ∷ ts) = text_eq s t && texts_eq ss ts

abbrev pub bool_eq : Bool → Bool → Bool
bool_eq true b = b
bool_eq false b = not b

unfoldable pub config_eq : ProgramConfig → ProgramConfig → Bool
unfolding texts_eq text_eq
config_eq a b =
    text_eq a.name b.name
    && text_eq a.group b.group
    && texts_eq a.depends_on b.depends_on
    && (a.priority == b.priority)
    && bool_eq a.autostart b.autostart
    && (a.stop_wait_secs == b.stop_wait_secs)
    && text_eq a.settings b.settings

-- What the dependency graph reads of the configurations.
unfoldable pub dag_programs : Map ProgramConfig → Dag.Programs
dag_programs [] = []
dag_programs ((name, c) ∷ configs) =
    (name, record { depends_on = c.depends_on; priority = c.priority }) ∷ dag_programs configs

pub record ReloadSummary : Type 0 where
  pub added : List Text
  pub removed : List Text
  pub modified : List Text
  pub unchanged : List Text

abbrev pub values : Map ProgramConfig → List ProgramConfig
values [] = []
values ((name, c) ∷ configs) = c ∷ values configs

abbrev pub group_configs : Text → Map ProgramConfig → List ProgramConfig
group_configs group [] = []
group_configs group ((name, c) ∷ configs) =
    let rest = group_configs group configs in if text_eq c.group group then c ∷ rest else rest

unfoldable pub summary_of : ConfigDiff ProgramConfig → ReloadSummary
summary_of diff = record {
  added = map (λ c. c.name) diff.added;
  removed = diff.removed;
  modified = map (λ c. c.name) diff.modified;
  unchanged = diff.unchanged;
}

module _ {H W E : Type 0} (api : Api H W E) where
  abbrev State : Type 0
  State = Manager H W E

  abbrev Made : Type 0
  Made = W × Outcome Text (E × List (ProgramConfig × H))

  unfoldable pub stage_first : ProgramConfig → H → Made → Made
  stage_first c prog (w, err e) = (w, err e)
  stage_first c prog (w, ok (pools, staged)) = (w, ok (pools, (c, prog) ∷ staged))

  -- `?` behind the instance of a configuration.
  unfoldable pub make_first : ProgramConfig → (W → E → Made) → W × Outcome Text (E × H) → Made
  unfolding stage_first
  make_first c later (w, err e) = (w, err e)
  make_first c later (w, ok (pools, prog)) = stage_first c prog (later w pools)

  -- The instances of a list of configurations, made in order; an error ends the loop.
  unfoldable pub instantiate_all : List ProgramConfig → W → E → Made
  unfolding make_first
  instantiate_all [] w pools = (w, ok (pools, []))
  instantiate_all (c ∷ cs) w pools = make_first c (instantiate_all cs) (api.instantiate c w pools)

  -- `stop` and `shutdown` of an instance that goes.
  unfoldable pub retire : Text → ℕ → H → State → State
  unfolding call_stop call_shutdown
  retire name period prog m = call_shutdown api name prog (call_stop api name period prog m).0

  unfoldable pub autostart_new : ProgramConfig → H → State → State
  unfolding call_start
  autostart_new c prog m = if c.autostart then (call_start api c.name prog m).0 else m

  unfoldable pub register : Text → ProgramConfig → H → State → State
  unfolding Maps.insert
  register name c prog m = record m {
    programs = Maps.insert name prog m.programs;
    configs = Maps.insert name c m.configs;
  }

  -- The loop over the programs that go, for a reload and for a group.
  unfoldable pub remove_programs : List Text → State → State
  remove_programs [] m = m
  remove_programs (name ∷ rest) m =
      let gone : State = elim (Maps.get name m.programs) [
        | none ↦ m
        | some prog ↦
            retire name default_stop_wait prog (record m { programs = Maps.remove name m.programs })
      ] in
      remove_programs rest (record gone { configs = Maps.remove name gone.configs })

  unfoldable pub replace_programs : List (ProgramConfig × H) → State → State
  replace_programs [] m = m
  replace_programs ((c, prog) ∷ rest) m =
      let stopped : State = elim (Maps.get c.name m.programs) [
        | none ↦ m
        | some old ↦ retire c.name c.stop_wait_secs old m
      ] in
      replace_programs rest (register c.name c prog (autostart_new c prog stopped))

  unfoldable pub add_programs : List (ProgramConfig × H) → State → State
  add_programs [] m = m
  add_programs ((c, prog) ∷ rest) m =
      add_programs rest (register c.name c prog (autostart_new c prog m))

  -- The part of a reload that cannot fail.
  unfoldable pub commit :
      ConfigDiff ProgramConfig
      → DependencyGraph
      → E
      → (modified added : List (ProgramConfig × H)) → State
      → State
  commit diff new_dag pools modified added m =
      record (add_programs added (
        replace_programs modified
          (remove_programs diff.removed (record m { event_pools = pools })))) { dag = new_dag }

  -- A reload once the new instances of the added programs are made, or not.
  unfoldable pub with_added :
      ConfigDiff ProgramConfig
      → DependencyGraph
      → List (ProgramConfig × H)
      → State
      → W × Outcome Text (E × List (ProgramConfig × H))
      → State × Outcome ManagerError ReloadSummary
  with_added diff new_dag modified m (w', err e) = (record m { world = w' }, err (program_error e))
  with_added diff new_dag modified m (w', ok (pools, added)) =
      (commit diff new_dag pools modified added (record m { world = w' }), ok (summary_of diff))

  -- The same for the modified programs.
  unfoldable pub with_modified :
      ConfigDiff ProgramConfig
      → DependencyGraph
      → State
      → W × Outcome Text (E × List (ProgramConfig × H))
      → State × Outcome ManagerError ReloadSummary
  with_modified diff new_dag m (w', err e) = (record m { world = w' }, err (program_error e))
  with_modified diff new_dag m (w', ok (pools, modified)) =
      with_added diff new_dag modified (record m { world = w' })
        (instantiate_all diff.added w' pools)

  unfoldable pub with_dag :
      Map ProgramConfig → State → BuildResult → State × Outcome ManagerError ReloadSummary
  with_dag new_programs_map m (BuildResult.ok new_dag) =
      let diff = compute (λ c. c.name) config_eq m.configs new_programs_map in
      with_modified diff new_dag (record m { pending_configs = new_programs_map })
        (instantiate_all diff.modified m.world m.event_pools)
  with_dag new_programs_map m _ = (m, err bad_dependencies)

  -- `new_programs_map` is what `resolve_programs` made of the new configuration.
  unfoldable pub execute_reload_config :
      Map ProgramConfig → State → State × Outcome ManagerError ReloadSummary
  execute_reload_config new_programs_map m =
      with_dag new_programs_map m (Dag.build api.is_cyclic (dag_programs new_programs_map))

  unfoldable pub refresh_with : State → BuildResult → State
  refresh_with m (BuildResult.ok dag) = record m { dag = dag }
  refresh_with m _ = m

  unfoldable pub refresh_derived_state : State → State
  unfolding refresh_with
  refresh_derived_state m = refresh_with m (Dag.build api.is_cyclic (dag_programs m.configs))

  unfoldable pub shutdown_all : Map H → State → State
  unfolding call_shutdown
  shutdown_all [] m = m
  shutdown_all ((name, prog) ∷ programs) m = shutdown_all programs (call_shutdown api name prog m)

  unfoldable pub register_all : List (ProgramConfig × H) → State → State
  register_all [] m = m
  register_all ((c, prog) ∷ rest) m = register_all rest (register c.name c prog m)

  -- A restart of the daemon once the new instances are made, or not.
  unfoldable pub with_generation :
      State
      → W × Outcome Text (E × List (ProgramConfig × H))
      → State × Outcome ManagerError (Unit {0})
  with_generation m (w', err e) = (record m { world = w' }, err (program_error e))
  with_generation m (w', ok (pools, staged)) =
      let stopped = execute_stop_all api none (record m { world = w' }) in
      let drained = shutdown_all stopped.programs (record stopped { programs = [] }) in
      let staged_in = register_all staged (record drained { configs = []; event_pools = pools }) in
      (execute_start_all api (refresh_derived_state staged_in), ok tt)

  unfoldable pub restart_with_dag :
      Map ProgramConfig → State → BuildResult → State × Outcome ManagerError (Unit {0})
  restart_with_dag new_programs_map m (BuildResult.ok new_dag) =
      with_generation (record m { pending_configs = new_programs_map })
        (instantiate_all (values new_programs_map) m.world api.no_pools)
  restart_with_dag new_programs_map m _ = (m, err bad_dependencies)

  -- The keys of the new programs are their names.
  unfoldable pub execute_restart_daemon :
      Map ProgramConfig → State → State × Outcome ManagerError (Unit {0})
  execute_restart_daemon new_programs_map m =
      restart_with_dag new_programs_map m (Dag.build api.is_cyclic (dag_programs new_programs_map))

  unfoldable pub with_group :
      State → W × Outcome Text (E × List (ProgramConfig × H)) → State × Outcome ManagerError Bool
  with_group m (w', err e) = (record m { world = w' }, err (program_error e))
  with_group m (w', ok (pools, staged)) = (
    refresh_derived_state (add_programs staged (record m { world = w'; event_pools = pools })),
    ok true,
  )

  -- `ok false` says that the group is active.
  unfoldable pub execute_add_process_group : Text → State → State × Outcome ManagerError Bool
  execute_add_process_group group m =
      if not (is_empty (group_configs group m.configs))
      then (m, ok false)
      else if is_empty (group_configs group m.pending_configs)
      then (m, err (not_found group))
      else with_group m
          (instantiate_all (group_configs group m.pending_configs) m.world m.event_pools)

  -- Some process of the group is active or waits for a retry.
  unfoldable pub still_running : List ProgramConfig → State → Bool
  unfolding is_active state_eq Maps.get
  still_running [] m = false
  still_running (c ∷ cs) m =
      let rest = still_running cs m in
      let busy : Bool = elim (Maps.get c.name m.programs) [
        | none ↦ false
        | some prog ↦
            is_active (api.status prog m.world)
            || state_eq (api.status prog m.world) ProgramState.backoff
      ] in
      if busy then true else rest

  unfoldable pub execute_remove_process_group : Text → State → State × Outcome ManagerError Bool
  execute_remove_process_group group m =
      let active = group_configs group m.configs in
      if is_empty active
      then (m, err (not_found group))
      else if still_running active m
      then (m, ok false)
      else (refresh_derived_state (remove_programs (map (λ c. c.name) active) m), ok true)
