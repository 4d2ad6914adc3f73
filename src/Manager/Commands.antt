-- ===== src/Manager/Commands.antt =====
-- src/manager/supervisor.rs: starting and stopping programs, groups and all programs.
use rsupervisord.Prelude.{
  ℕ, Bool, false, not, ◌&&◌, Option, none, some, List, [], ◌∷◌, ◌++◌, Text, codes, leb,
  if◌then◌else◌, is_empty, reverse, filterb,
}
use rsupervisord.Prelude.Maps
use rsupervisord.Prelude.Maps.{Map}
use rsupervisord.Prelude.Outcome.{Outcome, ok, err}
use rsupervisord.Program.State.{ProgramState, state_eq, is_stopped_or_fatal}
use rsupervisord.Dag.{sort_by}
use rsupervisord.Manager.{
  Api, Call, ManagerError, not_found, program_error, Manager, priority_of, stop_wait, find_match,
}

module _ {H W E : Type 0} (api : Api H W E) where
  abbrev State : Type 0
  State = Manager H W E

  -- One call of a program.
  unfoldable pub call_start : Text → H → State → State × Option Text
  call_start name prog m =
      let (world', result) = api.start prog m.world in
      (record m { world = world'; calls = m.calls ++ Call.start name ∷ [] }, result)

  unfoldable pub call_stop : Text → ℕ → H → State → State × Option Text
  call_stop name period prog m =
      let (world', result) = api.stop period prog m.world in
      (record m { world = world'; calls = m.calls ++ Call.stop name period ∷ [] }, result)

  unfoldable pub call_restart : Text → ℕ → H → State → State × Option Text
  call_restart name period prog m =
      let (world', result) = api.restart period prog m.world in
      (record m { world = world'; calls = m.calls ++ Call.restart name period ∷ [] }, result)

  unfoldable pub call_shutdown : Text → H → State → State
  call_shutdown name prog m = record m {
    world = api.shutdown prog m.world;
    calls = m.calls ++ Call.shutdown name ∷ [];
  }

  -- A target that is no program is passed over.
  unfoldable pub call_target :
      (Text → H → State → State × Option Text) → Text → Option H → State → State × Option Text
  call_target call name none m = (m, none)
  call_target call name (some prog) m = call name prog m

  -- `?`
  unfoldable pub go_on : (State → State × Option Text) → State × Option Text → State × Option Text
  go_on later (m, none) = later m
  go_on later (m, some e) = (m, some e)

  -- A loop over targets that an error ends.
  unfoldable pub for_targets :
      (Text → H → State → State × Option Text) → List Text → State → State × Option Text
  unfolding Maps.get call_target go_on
  for_targets call [] m = (m, none)
  for_targets call (name ∷ rest) m =
      let later = for_targets call rest in
      go_on later (call_target call name (Maps.get name m.programs) m)

  unfoldable pub finish_targets :
      {A : Type 0} → A → State × Option Text → State × Outcome ManagerError A
  finish_targets a (m, none) = (m, ok a)
  finish_targets a (m, some e) = (m, err (program_error e))

  unfoldable pub group_targets : Text → State → List Text
  unfolding find_match sort_by priority_of
  group_targets group m =
      let members = find_match (group ++ codes ":*") m in
      let targets = if is_empty members then find_match group m else members in
      sort_by (λ a b. leb (priority_of m a) (priority_of m b)) targets

  unfoldable pub execute_start_group : Text → State → State × Outcome ManagerError (List Text)
  unfolding group_targets for_targets call_start finish_targets
  execute_start_group group m =
      let targets = group_targets group m in
      if is_empty targets
      then (m, err (not_found group))
      else finish_targets targets (for_targets call_start targets m)

  unfoldable pub execute_stop_group :
      Text → Option ℕ → State → State × Outcome ManagerError (List Text)
  unfolding group_targets for_targets call_stop finish_targets stop_wait
  execute_stop_group group grace_period m =
      let targets = group_targets group m in
      if is_empty targets
      then (m, err (not_found group))
      else finish_targets targets
          (for_targets (λ name. call_stop name (stop_wait m grace_period name)) (reverse targets) m)

  unfoldable pub execute_restart_group :
      Text → Option ℕ → State → State × Outcome ManagerError (List Text)
  unfolding execute_stop_group execute_start_group
  execute_restart_group group grace_period m =
      let (m', stopped) = execute_stop_group group grace_period m in
      elim stopped [
        | err e ↦ (m', err e)
        | ok names ↦
            let (m'', started) = execute_start_group group m' in
            elim started [ err e ↦ (m'', err e) | ok again ↦ (m'', ok names) ]
      ]

  unfoldable pub execute_start_program : Text → State → State × Outcome ManagerError (Unit {0})
  unfolding find_match for_targets call_start finish_targets
  execute_start_program name m =
      let targets = find_match name m in
      if is_empty targets
      then (m, err (not_found name))
      else finish_targets tt (for_targets call_start targets m)

  unfoldable pub execute_stop_program :
      Text → Option ℕ → State → State × Outcome ManagerError (Unit {0})
  unfolding find_match for_targets call_stop finish_targets stop_wait
  execute_stop_program name grace_period m =
      let targets = find_match name m in
      if is_empty targets
      then (m, err (not_found name))
      else finish_targets tt (
          for_targets (λ target. call_stop target (stop_wait m grace_period target))
            (reverse targets) m)

  unfoldable pub execute_restart_program :
      Text → Option ℕ → State → State × Outcome ManagerError (Unit {0})
  unfolding find_match for_targets call_restart finish_targets stop_wait
  execute_restart_program name grace_period m =
      let targets = find_match name m in
      if is_empty targets
      then (m, err (not_found name))
      else finish_targets tt (
          for_targets (λ target. call_restart target (stop_wait m grace_period target))
            (reverse targets) m)

  -- `should_start`, and the program is stopped or has given up.
  unfoldable pub starts_now : State → Text → Bool
  unfolding Maps.get is_stopped_or_fatal
  starts_now m name = elim (Maps.get name m.configs) [
    | none ↦ false
    | some c ↦ elim (Maps.get name m.programs) [
      | none ↦ false
      | some prog ↦ c.autostart && is_stopped_or_fatal (api.status prog m.world)
    ]
  ]

  unfoldable pub stops_now : State → Text → Bool
  unfolding Maps.get state_eq
  stops_now m name = elim (Maps.get name m.programs) [
    | none ↦ false
    | some prog ↦ not (state_eq (api.status prog m.world) ProgramState.stopped)
  ]

  -- The futures of a layer, with their errors logged and dropped. They run concurrently; the
  -- model runs them in the order of the layer.
  unfoldable pub run_all : (Text → H → State → State × Option Text) → List Text → State → State
  unfolding Maps.get call_target
  run_all call [] m = m
  run_all call (name ∷ rest) m =
      run_all call rest (call_target call name (Maps.get name m.programs) m).0

  unfoldable pub start_layers : List (List Text) → State → State
  unfolding run_all call_start starts_now
  start_layers [] m = m
  start_layers (layer ∷ layers) m =
      start_layers layers (run_all call_start (filterb (starts_now m) layer) m)

  unfoldable pub execute_start_all : State → State
  unfolding start_layers
  execute_start_all m = start_layers m.dag.start_layers m

  unfoldable pub stop_layers : Option ℕ → List (List Text) → State → State
  unfolding run_all call_stop stops_now stop_wait
  stop_layers grace_period [] m = m
  stop_layers grace_period (layer ∷ layers) m = stop_layers grace_period layers (
      run_all (λ name. call_stop name (stop_wait m grace_period name)) (filterb (stops_now m) layer)
        m)

  unfoldable pub execute_stop_all : Option ℕ → State → State
  unfolding stop_layers
  execute_stop_all grace_period m = stop_layers grace_period m.dag.stop_layers m
