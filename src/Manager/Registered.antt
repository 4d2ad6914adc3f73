-- ===== src/Manager/Registered.antt =====
-- The programs and their configurations have the same names, whatever the manager is told to do.
use rsupervisord.Prelude.{
  ℕ, ◌≡◌, refl, ap, arith, none, some, List, [], ◌∷◌, Text, text_eq, if◌then◌else◌, Option-cases,
  inl, inr,
}
use rsupervisord.Prelude.Maps
use rsupervisord.Prelude.Maps.{Map, contains_key-insert, get-remove}
use rsupervisord.Prelude.TextLaws.{eq_of_text_eq}
use rsupervisord.Prelude.Outcome.{Outcome, ok, err}
use rsupervisord.Dag
use rsupervisord.Dag.{DependencyGraph, BuildResult}
use rsupervisord.Config.Diff.{ConfigDiff, compute}
use rsupervisord.Manager.{ProgramConfig, Api, Manager, default_stop_wait}
use rsupervisord.Manager.Commands.{call_start, call_stop, call_shutdown}
use rsupervisord.Manager.Generations.{
  dag_programs, instantiate_all, retire, autostart_new, register, remove_programs, replace_programs,
  add_programs, commit, config_eq, execute_reload_config, with_added, with_modified, with_dag,
  register_all,
}
use rsupervisord.Manager.Keeps.{Keeps, Keeps-trans}

module _ {H W E : Type 0} where
  abbrev pub Registered : Manager H W E → Type 0
  Registered m = (n : Text) → Maps.contains_key n m.programs ≡ Maps.contains_key n m.configs

module _ {H W E : Type 0} (api : Api H W E) where
  abbrev State : Type 0
  State = Manager H W E

  pub retire-Keeps :
      (name : Text) (period : ℕ) (prog : H) (m : State) → Keeps m (retire api name period prog m)
  unfolding retire call_stop call_shutdown
  retire-Keeps name period prog m = (refl, refl)

  pub autostart_new-Keeps :
      (c : ProgramConfig) (prog : H) (m : State) → Keeps m (autostart_new api c prog m)
  unfolding autostart_new call_start
  autostart_new-Keeps c prog m = ground arith

  pub register-Registered :
      (c : ProgramConfig) (prog : H) (m m' : State)
      → Keeps m m'
      → Registered m
      → Registered (register api c.name c prog m')
  unfolding register
  register-Registered c prog m m' k h n = ground (
    arith,
    h n,
    k,
    contains_key-insert n c.name prog m.programs,
    contains_key-insert n c.name c m.configs,
  )

  pub add_programs-Registered :
      (staged : List (ProgramConfig × H)) (m : State)
      → Registered m
      → Registered (add_programs api staged m)
  unfolding add_programs
  add_programs-Registered [] m h = h
  add_programs-Registered ((c, prog) ∷ rest) m h =
      add_programs-Registered rest _
        (register-Registered c prog m (autostart_new api c prog m) (autostart_new-Keeps c prog m) h)

  pub register_all-Registered :
      (staged : List (ProgramConfig × H)) (m : State)
      → Registered m
      → Registered (register_all api staged m)
  unfolding register_all
  register_all-Registered [] m h = h
  register_all-Registered ((c, prog) ∷ rest) m h =
      register_all-Registered rest _ (register-Registered c prog m m (refl, refl) h)

  -- The old instance of a modified program, stopped.
  abbrev pub stopped : ProgramConfig → State → State
  stopped c m = elim (Maps.get c.name m.programs) [
    | none ↦ m
    | some old ↦ retire api c.name c.stop_wait_secs old m
  ]

  pub stopped-Keeps : (c : ProgramConfig) (m : State) → Keeps m (stopped c m)
  stopped-Keeps c m = elim (Option-cases (Maps.get c.name m.programs)) [
    | inl e ↦ rw (e, stopped) (refl, refl)
    | inr (old, e) ↦ rw (e, stopped) (retire-Keeps c.name c.stop_wait_secs old m)
  ]

  pub replaced-Keeps :
      (c : ProgramConfig) (prog : H) (m : State) → Keeps m (autostart_new api c prog (stopped c m))
  replaced-Keeps c prog m =
      Keeps-trans m (stopped c m) (autostart_new api c prog (stopped c m)) (stopped-Keeps c m)
        (autostart_new-Keeps c prog (stopped c m))

  replace_programs-Registered :
      (staged : List (ProgramConfig × H)) (m : State)
      → Registered m
      → Registered (replace_programs api staged m)
  unfolding replace_programs
  replace_programs-Registered [] m h = h
  replace_programs-Registered ((c, prog) ∷ rest) m h = replace_programs-Registered rest _ (
      register-Registered c prog m (autostart_new api c prog (stopped c m))
        (replaced-Keeps c prog m) h)

  -- A program that goes, with its instance stopped.
  abbrev pub gone : Text → State → State
  gone name m = elim (Maps.get name m.programs) [
    | none ↦ m
    | some prog ↦
        retire api name default_stop_wait prog (record m { programs = Maps.remove name m.programs })
  ]

  pub gone-maps :
      (name n : Text) (m : State)
      → (Maps.get n (gone name m).programs
          ≡ (if text_eq n name then none else Maps.get n m.programs))
        × ((gone name m).configs ≡ m.configs)
  unfolding retire call_stop call_shutdown
  gone-maps name n m = elim (Option-cases (Maps.get name m.programs)) [
    | inl e ↦ rw (e, gone) (ground (arith, e, eq_of_text_eq n name), refl)
    | inr (prog, e) ↦ rw (e, gone) (get-remove n name m.programs, refl)
  ]

  pub remove_programs-Registered :
      (names : List Text) (m : State) → Registered m → Registered (remove_programs api names m)
  unfolding remove_programs Maps.contains_key
  remove_programs-Registered [] m h = h
  remove_programs-Registered (name ∷ rest) m h =
      remove_programs-Registered rest
        (record (gone name m) { configs = Maps.remove name (gone name m).configs })
        λ n. ground (
          arith,
          h n,
          gone-maps name n m,
          ap (Maps.remove name) (gone-maps name n m).1,
          get-remove n name m.configs,
        )

  commit-Registered :
      (diff : ConfigDiff ProgramConfig) (dag : DependencyGraph) (pools : E)
      (modified added : List (ProgramConfig × H)) (m : State)
      → Registered m
      → Registered (commit api diff dag pools modified added m)
  unfolding commit
  commit-Registered diff dag pools modified added m h =
      let start = record m { event_pools = pools } in
      add_programs-Registered added
        (replace_programs api modified (remove_programs api diff.removed start))
        (replace_programs-Registered modified (remove_programs api diff.removed start)
          (remove_programs-Registered diff.removed start h))

  instance_Keeps : (m : State) (w : W) → Registered m → Registered (record m { world = w })
  instance_Keeps m w h = h

  with_added-Registered :
      (diff : ConfigDiff ProgramConfig) (dag : DependencyGraph)
      (modified : List (ProgramConfig × H)) (m : State)
      (made : W × Outcome Text (E × List (ProgramConfig × H)))
      → Registered m
      → Registered (with_added api diff dag modified m made).0
  unfolding with_added
  with_added-Registered diff dag modified m (w, err e) h = h
  with_added-Registered diff dag modified m (w, ok (pools, added)) h =
      commit-Registered diff dag pools modified added (record m { world = w }) h

  with_modified-Registered :
      (diff : ConfigDiff ProgramConfig) (dag : DependencyGraph) (m : State)
      (made : W × Outcome Text (E × List (ProgramConfig × H)))
      → Registered m
      → Registered (with_modified api diff dag m made).0
  unfolding with_modified
  with_modified-Registered diff dag m (w, err e) h = h
  with_modified-Registered diff dag m (w, ok (pools, modified)) h =
      with_added-Registered diff dag modified (record m { world = w })
        (instantiate_all api diff.added w pools) h

  with_dag-Registered :
      (new : Map ProgramConfig) (m : State) (built : BuildResult)
      → Registered m
      → Registered (with_dag api new m built).0
  unfolding with_dag
  with_dag-Registered new m (BuildResult.ok dag) h =
      let diff = compute (λ c. c.name) config_eq m.configs new in
      with_modified-Registered diff dag (record m { pending_configs = new })
        (instantiate_all api diff.modified m.world m.event_pools) h
  with_dag-Registered new m (BuildResult.unknown_program name dep) h = h
  with_dag-Registered new m BuildResult.circular h = h
  with_dag-Registered new m BuildResult.circular_in_layers h = h

  pub reload-Registered :
      (new : Map ProgramConfig) (m : State)
      → Registered m
      → Registered (execute_reload_config api new m).0
  unfolding execute_reload_config
  reload-Registered new m = with_dag-Registered new m (Dag.build api.is_cyclic (dag_programs new))
