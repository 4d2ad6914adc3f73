-- ===== src/Manager/Invariant.antt =====
-- Every command keeps the names of programs and configurations the same.
use rsupervisord.Prelude.{
  ◌≡◌, refl, sym, arith, not, none, List, [], ◌∷◌, map, Text, is_empty, subst, Bool-cases, inl, inr,
}
use rsupervisord.Prelude.Maps
use rsupervisord.Prelude.Maps.{Map, contains_key-insert, get-remove}
use rsupervisord.Prelude.Outcome.{Outcome, ok, err}
use rsupervisord.Dag
use rsupervisord.Dag.{DependencyGraph, BuildResult}
use rsupervisord.Manager.{ProgramConfig, Api, ManagerError, Manager}
use rsupervisord.Manager.Commands.{
  execute_start_group, execute_stop_group, execute_restart_group, execute_start_program,
  execute_stop_program, execute_restart_program, execute_start_all, execute_stop_all,
}
use rsupervisord.Manager.Generations.{
  dag_programs, instantiate_all, remove_programs, add_programs, execute_reload_config, refresh_with,
  refresh_derived_state, shutdown_all, with_generation, restart_with_dag, with_group, register_all,
  values, execute_restart_daemon, group_configs, execute_add_process_group, still_running,
  execute_remove_process_group,
}
use rsupervisord.Manager.Run.{
  ManagerCommand, Answer, Actor, answer_with, execute, leave, step, run_commands, start_program,
  stop_program, restart_program, start_group, stop_group, restart_group, start_all, shutdown,
  cancel, stop_all, reload_config, restart_daemon, add_process_group, remove_process_group,
}
use rsupervisord.Manager.Keeps.{Keeps, start_layers-Keeps, shutdown_all-Keeps}
use rsupervisord.Manager.Registered.{
  Registered, add_programs-Registered, register_all-Registered, remove_programs-Registered,
  reload-Registered,
}
use rsupervisord.Manager.Started.{
  of_Keeps, start_program-Registered, stop_program-Registered, restart_program-Registered,
  start_group-Registered, stop_group-Registered, restart_group-Registered, stop_all-Registered,
}

module _ {H W E : Type 0} (api : Api H W E) where
  abbrev State : Type 0
  State = Manager H W E

  refresh_with-Keeps : (m : State) (built : BuildResult) → Keeps m (refresh_with api m built)
  unfolding refresh_with
  refresh_with-Keeps m (BuildResult.ok dag) = (refl, refl)
  refresh_with-Keeps m (BuildResult.unknown_program name dep) = (refl, refl)
  refresh_with-Keeps m BuildResult.circular = (refl, refl)
  refresh_with-Keeps m BuildResult.circular_in_layers = (refl, refl)

  refresh-Keeps : (m : State) → Keeps m (refresh_derived_state api m)
  unfolding refresh_derived_state
  refresh-Keeps m = refresh_with-Keeps m (Dag.build api.is_cyclic (dag_programs m.configs))

  nothing-Registered :
      (n : Text) → Maps.contains_key {V = H} n [] ≡ Maps.contains_key {V = ProgramConfig} n []
  unfolding Maps.contains_key
  nothing-Registered n = refl

  start_all-Keeps : (m : State) → Keeps m (execute_start_all api m)
  unfolding execute_start_all
  start_all-Keeps m = start_layers-Keeps api m.dag.start_layers m

  with_generation-Registered :
      (m : State) (made : W × Outcome Text (E × List (ProgramConfig × H)))
      → Registered m
      → Registered (with_generation api m made).0
  unfolding with_generation
  with_generation-Registered m (w, err e) h = h
  with_generation-Registered m (w, ok (pools, staged)) h =
      let stopped = execute_stop_all api none (record m { world = w }) in
      let drained = shutdown_all api stopped.programs (record stopped { programs = [] }) in
      let fresh = record drained { configs = []; event_pools = pools } in
      let staged_in = register_all api staged fresh in
      let empty : Registered fresh =
        of_Keeps api (record stopped { programs = []; configs = [] }) fresh
          ((shutdown_all-Keeps api stopped.programs (record stopped { programs = [] })).0, refl)
          nothing-Registered in
      of_Keeps api (refresh_derived_state api staged_in)
        (execute_start_all api (refresh_derived_state api staged_in))
        (start_all-Keeps (refresh_derived_state api staged_in))
        (of_Keeps api staged_in (refresh_derived_state api staged_in) (refresh-Keeps staged_in)
          (register_all-Registered api staged fresh empty))

  restart_with_dag-Registered :
      (new : Map ProgramConfig) (m : State) (built : BuildResult)
      → Registered m
      → Registered (restart_with_dag api new m built).0
  unfolding restart_with_dag
  restart_with_dag-Registered new m (BuildResult.ok dag) h =
      with_generation-Registered (record m { pending_configs = new })
        (instantiate_all api (values new) m.world api.no_pools) h
  restart_with_dag-Registered new m (BuildResult.unknown_program name dep) h = h
  restart_with_dag-Registered new m BuildResult.circular h = h
  restart_with_dag-Registered new m BuildResult.circular_in_layers h = h

  with_group-Registered :
      (m : State) (made : W × Outcome Text (E × List (ProgramConfig × H)))
      → Registered m
      → Registered (with_group api m made).0
  unfolding with_group
  with_group-Registered m (w, err e) h = h
  with_group-Registered m (w, ok (pools, staged)) h =
      let added = add_programs api staged (record m { world = w; event_pools = pools }) in
      of_Keeps api added (refresh_derived_state api added) (refresh-Keeps added)
        (add_programs-Registered api staged (record m { world = w; event_pools = pools }) h)

  add_group-Registered :
      (group : Text) (m : State)
      → Registered m
      → Registered (execute_add_process_group api group m).0
  unfolding execute_add_process_group
  add_group-Registered group m h =
      elim (Bool-cases (not (is_empty (group_configs group m.configs)))) [
        | inl t ↦ rw t h
        | inr f ↦ rw f (elim (Bool-cases (is_empty (group_configs group m.pending_configs))) [
          | inl t ↦ rw t h
          | inr g ↦ rw g (
              with_group-Registered m
                (instantiate_all api (group_configs group m.pending_configs) m.world m.event_pools)
                h)
        ])
      ]

  remove_group-Registered :
      (group : Text) (m : State)
      → Registered m
      → Registered (execute_remove_process_group api group m).0
  unfolding execute_remove_process_group
  remove_group-Registered group m h = elim (Bool-cases (is_empty (group_configs group m.configs))) [
    | inl t ↦ rw t h
    | inr f ↦ rw f (elim (Bool-cases (still_running api (group_configs group m.configs) m)) [
      | inl t ↦ rw t h
      | inr g ↦
          let removed = remove_programs api (map (λ c. c.name) (group_configs group m.configs)) m in
          rw g (
            of_Keeps api removed (refresh_derived_state api removed) (refresh-Keeps removed) (
              remove_programs-Registered api (map (λ c. c.name) (group_configs group m.configs)) m
                h))
    ])
  ]

  answer_with-manager :
      {A : Type 0} (f : A → Answer) (r : State × Outcome ManagerError A) → (answer_with f r).0 ≡ r.0
  unfolding answer_with
  answer_with-manager f (m, ok a) = refl
  answer_with-manager f (m, err e) = refl

  answered :
      {A : Type 0} (f : A → Answer) (r : State × Outcome ManagerError A)
      → Registered r.0
      → Registered (answer_with f r).0
  answered f r h = subst Registered (sym (answer_with-manager f r)) h

  execute-Registered :
      (command : ManagerCommand) (m : State) → Registered m → Registered (execute api command m).0
  unfolding execute
  execute-Registered (start_program name) m h =
      answered (λ a. Answer.done) (execute_start_program api name m)
        (start_program-Registered api name m h)
  execute-Registered (stop_program name period) m h =
      answered (λ a. Answer.done) (execute_stop_program api name period m)
        (stop_program-Registered api name period m h)
  execute-Registered (restart_program name period) m h =
      answered (λ a. Answer.done) (execute_restart_program api name period m)
        (restart_program-Registered api name period m h)
  execute-Registered (start_group group) m h =
      answered Answer.members (execute_start_group api group m)
        (start_group-Registered api group m h)
  execute-Registered (stop_group group period) m h =
      answered Answer.members (execute_stop_group api group period m)
        (stop_group-Registered api group period m h)
  execute-Registered (restart_group group period) m h =
      answered Answer.members (execute_restart_group api group period m)
        (restart_group-Registered api group period m h)
  execute-Registered start_all m h = of_Keeps api m (execute_start_all api m) (start_all-Keeps m) h
  execute-Registered (stop_all period) m h = stop_all-Registered api period m h
  execute-Registered (reload_config new) m h =
      answered Answer.summary (execute_reload_config api new m) (reload-Registered api new m h)
  execute-Registered (restart_daemon new) m h =
      answered (λ a. Answer.done) (execute_restart_daemon api new m)
        (unfold execute_restart_daemon in
          restart_with_dag-Registered new m (Dag.build api.is_cyclic (dag_programs new)) h)
  execute-Registered (add_process_group group) m h =
      answered Answer.flag (execute_add_process_group api group m) (add_group-Registered group m h)
  execute-Registered (remove_process_group group) m h =
      answered Answer.flag (execute_remove_process_group api group m)
        (remove_group-Registered group m h)
  execute-Registered shutdown m h = stop_all-Registered api none m h
  execute-Registered cancel m h = stop_all-Registered api none m h

  leave-Keeps : (m : State) → Keeps m (leave api m)
  unfolding leave
  leave-Keeps m = shutdown_all-Keeps api m.programs m

  step-Registered :
      (command : ManagerCommand) (a : Actor H W E)
      → Registered a.manager
      → Registered (step api command a).0.manager
  unfolding step
  step-Registered command a h n =
      let m' = (execute api command a.manager).0 in
      let done = execute-Registered command a.manager h in
      ground (arith, h n, done n, of_Keeps api m' (leave api m') (leave-Keeps m') done n)

  -- The programs and the configurations have the same names after any commands, if they have them
  -- before.
  pub run_commands-Registered :
      (commands : List ManagerCommand) (a : Actor H W E)
      → Registered a.manager
      → Registered (run_commands api commands a).manager
  unfolding run_commands
  run_commands-Registered [] a h = h
  run_commands-Registered (command ∷ rest) a h =
      run_commands-Registered rest (step api command a).0 (step-Registered command a h)
