-- ===== src/Manager/Started.antt =====
-- The commands that start and stop programs keep the names of programs and configurations.
use rsupervisord.Prelude.{
  ℕ, ◌≡◌, refl, sym, ap, ◌∙◌, arith, Option, none, some, List, Text, is_empty, subst, Bool-cases,
  inl, inr, reverse,
}
use rsupervisord.Prelude.Maps
use rsupervisord.Prelude.Maps.{Map, contains_key-insert, get-remove}
use rsupervisord.Manager.{Api, Manager, stop_wait, find_match}
use rsupervisord.Manager.Commands.{
  call_start, call_stop, call_restart, for_targets, finish_targets, group_targets,
  execute_start_group, execute_stop_group, execute_restart_group, execute_start_program,
  execute_stop_program, execute_restart_program, stop_layers, execute_stop_all,
}
use rsupervisord.Manager.Keeps.{
  Keeps, for_targets-Keeps, call_start-Keeps, call_stop-Keeps, call_restart-Keeps,
  stop_layers-Keeps,
}
use rsupervisord.Manager.Registered.{Registered}

module _ {H W E : Type 0} (api : Api H W E) where
  abbrev State : Type 0
  State = Manager H W E

  pub of_Keeps : (m m' : State) → Keeps m m' → Registered m → Registered m'
  of_Keeps m m' k h n = ap (Maps.contains_key n) k.0 ∙ h n ∙ sym (ap (Maps.contains_key n) k.1)

  finish_targets-state :
      {A : Type 0} (a : A) (r : State × Option Text) → (finish_targets api a r).0 ≡ r.0
  unfolding finish_targets
  finish_targets-state a (m, none) = refl
  finish_targets-state a (m, some e) = refl

  targets-Registered :
      {A : Type 0} (a : A) (call : Text → H → State → State × Option Text)
      (keeps : (name : Text) (prog : H) (m : State) → Keeps m (call name prog m).0)
      (targets : List Text) (m : State)
      → Registered m
      → Registered (finish_targets api a (for_targets api call targets m)).0
  targets-Registered a call keeps targets m h =
      subst Registered (sym (finish_targets-state a (for_targets api call targets m))) (
        of_Keeps m (for_targets api call targets m).0 (for_targets-Keeps api call keeps targets m)
          h)

  pub start_program-Registered :
      (name : Text) (m : State) → Registered m → Registered (execute_start_program api name m).0
  unfolding execute_start_program
  start_program-Registered name m h = elim (Bool-cases (is_empty (find_match name m))) [
    | inl t ↦ rw t h
    | inr f ↦
        rw f (targets-Registered tt (call_start api) (call_start-Keeps api) (find_match name m) m h)
  ]

  pub stop_program-Registered :
      (name : Text) (period : Option ℕ) (m : State)
      → Registered m
      → Registered (execute_stop_program api name period m).0
  unfolding execute_stop_program
  stop_program-Registered name period m h = elim (Bool-cases (is_empty (find_match name m))) [
    | inl t ↦ rw t h
    | inr f ↦ rw f (
        targets-Registered tt (λ target. call_stop api target (stop_wait m period target))
          (call_stop-Keeps api (stop_wait m period)) (reverse (find_match name m)) m h)
  ]

  pub restart_program-Registered :
      (name : Text) (period : Option ℕ) (m : State)
      → Registered m
      → Registered (execute_restart_program api name period m).0
  unfolding execute_restart_program
  restart_program-Registered name period m h = elim (Bool-cases (is_empty (find_match name m))) [
    | inl t ↦ rw t h
    | inr f ↦ rw f (
        targets-Registered tt (λ target. call_restart api target (stop_wait m period target))
          (call_restart-Keeps api (stop_wait m period)) (reverse (find_match name m)) m h)
  ]

  pub start_group-Registered :
      (group : Text) (m : State) → Registered m → Registered (execute_start_group api group m).0
  unfolding execute_start_group
  start_group-Registered group m h = elim (Bool-cases (is_empty (group_targets api group m))) [
    | inl t ↦ rw t h
    | inr f ↦ rw f (
        targets-Registered _ (call_start api) (call_start-Keeps api) (group_targets api group m) m
          h)
  ]

  pub stop_group-Registered :
      (group : Text) (period : Option ℕ) (m : State)
      → Registered m
      → Registered (execute_stop_group api group period m).0
  unfolding execute_stop_group
  stop_group-Registered group period m h =
      elim (Bool-cases (is_empty (group_targets api group m))) [
        | inl t ↦ rw t h
        | inr f ↦ rw f (
            targets-Registered _ (λ name. call_stop api name (stop_wait m period name))
              (call_stop-Keeps api (stop_wait m period)) (reverse (group_targets api group m)) m h)
      ]

  pub restart_group-Registered :
      (group : Text) (period : Option ℕ) (m : State)
      → Registered m
      → Registered (execute_restart_group api group period m).0
  unfolding execute_restart_group
  restart_group-Registered group period m h n =
      let kept = stop_group-Registered group period m h in
      ground (
        arith,
        kept n,
        start_group-Registered group (execute_stop_group api group period m).0 kept n,
      )

  pub stop_all-Registered :
      (period : Option ℕ) (m : State) → Registered m → Registered (execute_stop_all api period m)
  unfolding execute_stop_all
  stop_all-Registered period m h =
      of_Keeps m (stop_layers api period m.dag.stop_layers m)
        (stop_layers-Keeps api period m.dag.stop_layers m) h
