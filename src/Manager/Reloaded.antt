-- ===== src/Manager/Reloaded.antt =====
-- A reload that succeeds gives the new configuration, and one that fails changes nothing.
use rsupervisord.Prelude.{◌≡◌, refl, ap, ◌∙◌, some, List, [], ◌∷◌, Text}
use rsupervisord.Prelude.Maps
use rsupervisord.Prelude.Maps.{Map}
use rsupervisord.Prelude.Outcome.{Outcome, ok, err}
use rsupervisord.Dag
use rsupervisord.Dag.{DependencyGraph, BuildResult, contains, names}
use rsupervisord.Dag.Counts.{Distinct}
use rsupervisord.Config.Diff.{ConfigDiff, compute}
use rsupervisord.Manager.{ProgramConfig, Api, ManagerError, Manager}
use rsupervisord.Manager.Generations.{
  dag_programs, stage_first, make_first, instantiate_all, remove_programs, replace_programs,
  add_programs, commit, config_eq, summary_of, ReloadSummary, with_added, with_modified, with_dag,
  execute_reload_config,
}
use rsupervisord.Manager.Reloads.{
  is_named, Untouched, Untouched-trans, configs_of, put, remove_programs-configs,
  replace_programs-configs, add_programs-configs, remove_programs-Untouched,
  replace_programs-Untouched, add_programs-Untouched,
}
use rsupervisord.Manager.Entries.{Keyed}
use rsupervisord.Manager.Applied.{same_not_named, applied-eq}

module _ {H W E : Type 0} (api : Api H W E) where
  abbrev State : Type 0
  State = Manager H W E

  -- The configurations of the instances made are those of the list.
  abbrev Stages : List ProgramConfig → W × Outcome Text (E × List (ProgramConfig × H)) → Type 0
  Stages cs (w, err e) = Unit {0}
  Stages cs (w, ok (pools, staged)) = configs_of staged ≡ cs

  stage_first-Stages :
      (c : ProgramConfig) (prog : H) (cs : List ProgramConfig)
      (made : W × Outcome Text (E × List (ProgramConfig × H)))
      → Stages cs made
      → Stages (c ∷ cs) (stage_first api c prog made)
  unfolding stage_first
  stage_first-Stages c prog cs (w, err e) h = tt
  stage_first-Stages c prog cs (w, ok (pools, staged)) h = ap (◌∷◌ c) h

  make_first-Stages :
      (c : ProgramConfig) (cs : List ProgramConfig)
      (later : W → E → W × Outcome Text (E × List (ProgramConfig × H)))
      (made : W × Outcome Text (E × H))
      → ((w : W) (pools : E) → Stages cs (later w pools))
      → Stages (c ∷ cs) (make_first api c later made)
  unfolding make_first
  make_first-Stages c cs later (w, err e) h = tt
  make_first-Stages c cs later (w, ok (pools, prog)) h =
      stage_first-Stages c prog cs (later w pools) (h w pools)

  instantiate_all-Stages :
      (cs : List ProgramConfig) (w : W) (pools : E) → Stages cs (instantiate_all api cs w pools)
  unfolding instantiate_all
  instantiate_all-Stages [] w pools = refl
  instantiate_all-Stages (c ∷ cs) w pools =
      make_first-Stages c cs (instantiate_all api cs) (api.instantiate c w pools)
        (instantiate_all-Stages cs)

  -- What a reload promises of its result.
  abbrev pub Reloaded :
      State → Map ProgramConfig → State × Outcome ManagerError ReloadSummary → Type 0
  Reloaded m new (m', ok summary) =
      ((n : Text) → Maps.get n m'.configs ≡ Maps.get n new)
      × (Dag.build api.is_cyclic (dag_programs new) ≡ BuildResult.ok m'.dag)
      × ((n : Text) (c : ProgramConfig)
          → Maps.get n m.configs ≡ some c
          → Maps.get n new ≡ some c
          → Untouched n m m')
  Reloaded m new (m', err e) =
      (m'.programs ≡ m.programs)
      × (m'.configs ≡ m.configs)
      × (m'.dag ≡ m.dag)
      × (m'.event_pools ≡ m.event_pools)
      × (m'.calls ≡ m.calls)

  module _ (m : State) (new : Map ProgramConfig) (distinct : Distinct (names new))
      (keyed : Keyed new) where
    abbrev change : ConfigDiff ProgramConfig
    change = compute (λ c. c.name) config_eq m.configs new

    -- The state in which the loops of a reload start.
    abbrev begun : W → E → State
    begun w pools = record m { pending_configs = new; world = w; event_pools = pools }

    commit-Reloaded :
        (dag : DependencyGraph) (modified added : List (ProgramConfig × H)) (w : W) (pools : E)
        → Dag.build api.is_cyclic (dag_programs new) ≡ BuildResult.ok dag
        → configs_of modified ≡ change.modified
        → configs_of added ≡ change.added
        → Reloaded m new (
          commit api change dag pools modified added
              (record m { pending_configs = new; world = w }),
          ok (summary_of change),
        )
    unfolding commit
    commit-Reloaded dag modified added w pools built em ea =
        let m1 = remove_programs api change.removed (begun w pools) in
        let m2 = replace_programs api modified m1 in
        (
          λ n.
              ap (Maps.get n) (add_programs-configs api added m2)
              ∙ ap (λ (cs : List ProgramConfig). Maps.get n (put cs m2.configs)) ea
              ∙ ap (λ (cs : Map ProgramConfig). Maps.get n (put change.added cs))
                  (replace_programs-configs api modified m1
                    ∙ ap (λ (cs : List ProgramConfig). put cs m1.configs) em)
              ∙ applied-eq m.configs new distinct keyed n m1.configs
                  (remove_programs-configs api n change.removed (begun w pools)),
          built,
          λ n c was is.
              (let (a, b, r) = same_not_named m.configs new distinct keyed n c was is in
                Untouched-trans n m m1 (add_programs api added m2)
                  (remove_programs-Untouched api n change.removed (begun w pools) r)
                  (Untouched-trans n m1 m2 (add_programs api added m2)
                    (replace_programs-Untouched api n modified m1 (ap (is_named n) em ∙ b))
                    (add_programs-Untouched api n added m2 (ap (is_named n) ea ∙ a)))),
        )

    with_added-Reloaded :
        (dag : DependencyGraph) (modified : List (ProgramConfig × H)) (w : W)
        (made : W × Outcome Text (E × List (ProgramConfig × H)))
        → Dag.build api.is_cyclic (dag_programs new) ≡ BuildResult.ok dag
        → configs_of modified ≡ change.modified
        → Stages change.added made
        → Reloaded m new (
            with_added api change dag modified (record m { pending_configs = new; world = w }) made)
    unfolding with_added
    with_added-Reloaded dag modified w (w', err e) built em h = (refl, refl, refl, refl, refl)
    with_added-Reloaded dag modified w (w', ok (pools, added)) built em h =
        commit-Reloaded dag modified added w' pools built em h

    with_modified-Reloaded :
        (dag : DependencyGraph) (made : W × Outcome Text (E × List (ProgramConfig × H)))
        → Dag.build api.is_cyclic (dag_programs new) ≡ BuildResult.ok dag
        → Stages change.modified made
        → Reloaded m new (with_modified api change dag (record m { pending_configs = new }) made)
    unfolding with_modified
    with_modified-Reloaded dag (w', err e) built h = (refl, refl, refl, refl, refl)
    with_modified-Reloaded dag (w', ok (pools, modified)) built h =
        with_added-Reloaded dag modified w' (instantiate_all api change.added w' pools) built h
          (instantiate_all-Stages change.added w' pools)

    with_dag-Reloaded :
        (result : BuildResult)
        → Dag.build api.is_cyclic (dag_programs new) ≡ result
        → Reloaded m new (with_dag api new m result)
    unfolding with_dag
    with_dag-Reloaded (BuildResult.ok dag) built =
        with_modified-Reloaded dag (instantiate_all api change.modified m.world m.event_pools) built
          (instantiate_all-Stages change.modified m.world m.event_pools)
    with_dag-Reloaded (BuildResult.unknown_program name dep) built = (refl, refl, refl, refl, refl)
    with_dag-Reloaded BuildResult.circular built = (refl, refl, refl, refl, refl)
    with_dag-Reloaded BuildResult.circular_in_layers built = (refl, refl, refl, refl, refl)

    -- Where the new programs have distinct names and stand under them, a reload that succeeds makes
    -- the new configuration and its graph the active ones, and keeps the instance of each program
    -- whose configuration is the same, without a call of it; a reload that fails leaves programs,
    -- configurations, graph and event pools alone and makes no call.
    pub execute_reload_config-Reloaded : Reloaded m new (execute_reload_config api new m)
    unfolding execute_reload_config
    execute_reload_config-Reloaded =
        with_dag-Reloaded (Dag.build api.is_cyclic (dag_programs new)) refl
