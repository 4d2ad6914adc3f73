-- ===== src/Manager/Keeps.antt =====
-- What starting and stopping programs leaves alone.
use rsupervisord.Prelude.{ℕ, ◌≡◌, refl, ◌∙◌, Option, none, some, List, [], ◌∷◌, Text, filterb}
use rsupervisord.Prelude.Maps
use rsupervisord.Prelude.Maps.{Map, contains_key-insert, get-remove}
use rsupervisord.Manager.{Api, Manager, stop_wait}
use rsupervisord.Manager.Commands.{
  call_start, call_stop, call_restart, call_shutdown, call_target, go_on, for_targets, run_all,
  start_layers, stop_layers, starts_now, stops_now,
}
use rsupervisord.Manager.Generations.{shutdown_all}

module _ {H W E : Type 0} where
  -- The maps of the manager are as before.
  abbrev pub Keeps : Manager H W E → Manager H W E → Type 0
  Keeps m m' = (m'.programs ≡ m.programs) × (m'.configs ≡ m.configs)

  pub Keeps-trans : (a b c : Manager H W E) → Keeps a b → Keeps b c → Keeps a c
  Keeps-trans a b c f g = (g.0 ∙ f.0, g.1 ∙ f.1)

module _ {H W E : Type 0} (api : Api H W E) where
  abbrev State : Type 0
  State = Manager H W E

  module _ (call : Text → H → State → State × Option Text)
      (keeps : (name : Text) (prog : H) (m : State) → Keeps m (call name prog m).0) where
    call_target-Keeps :
        (name : Text) (prog : Option H) (m : State) → Keeps m (call_target api call name prog m).0
    unfolding call_target
    call_target-Keeps name none m = (refl, refl)
    call_target-Keeps name (some prog) m = keeps name prog m

    pub run_all-Keeps : (names : List Text) (m : State) → Keeps m (run_all api call names m)
    unfolding run_all
    run_all-Keeps [] m = (refl, refl)
    run_all-Keeps (name ∷ rest) m =
        let m' = (call_target api call name (Maps.get name m.programs) m).0 in
        Keeps-trans m m' (run_all api call rest m')
          (call_target-Keeps name (Maps.get name m.programs) m) (run_all-Keeps rest m')

    go_on-Keeps :
        (later : State → State × Option Text) (m : State) (r : State × Option Text)
        → ((m' : State) → Keeps m' (later m').0)
        → Keeps m r.0
        → Keeps m (go_on api later r).0
    unfolding go_on
    go_on-Keeps later m (m', none) h k = Keeps-trans m m' (later m').0 k (h m')
    go_on-Keeps later m (m', some e) h k = k

    pub for_targets-Keeps :
        (names : List Text) (m : State) → Keeps m (for_targets api call names m).0
    unfolding for_targets
    for_targets-Keeps [] m = (refl, refl)
    for_targets-Keeps (name ∷ rest) m =
        go_on-Keeps (for_targets api call rest) m
          (call_target api call name (Maps.get name m.programs) m) (for_targets-Keeps rest)
          (call_target-Keeps name (Maps.get name m.programs) m)

  pub call_start-Keeps :
      (name : Text) (prog : H) (m : State) → Keeps m (call_start api name prog m).0
  unfolding call_start
  call_start-Keeps name prog m = (refl, refl)

  pub call_stop-Keeps :
      (period : Text → ℕ) (name : Text) (prog : H) (m : State)
      → Keeps m (call_stop api name (period name) prog m).0
  unfolding call_stop
  call_stop-Keeps period name prog m = (refl, refl)

  pub call_restart-Keeps :
      (period : Text → ℕ) (name : Text) (prog : H) (m : State)
      → Keeps m (call_restart api name (period name) prog m).0
  unfolding call_restart
  call_restart-Keeps period name prog m = (refl, refl)

  pub start_layers-Keeps :
      (layers : List (List Text)) (m : State) → Keeps m (start_layers api layers m)
  unfolding start_layers
  start_layers-Keeps [] m = (refl, refl)
  start_layers-Keeps (layer ∷ layers) m =
      let m' = run_all api (call_start api) (filterb (starts_now api m) layer) m in
      Keeps-trans m m' (start_layers api layers m')
        (run_all-Keeps (call_start api) call_start-Keeps (filterb (starts_now api m) layer) m)
        (start_layers-Keeps layers m')

  pub stop_layers-Keeps :
      (grace_period : Option ℕ) (layers : List (List Text)) (m : State)
      → Keeps m (stop_layers api grace_period layers m)
  unfolding stop_layers
  stop_layers-Keeps grace_period [] m = (refl, refl)
  stop_layers-Keeps grace_period (layer ∷ layers) m =
      let call = λ (name : Text). call_stop api name (stop_wait m grace_period name) in
      let m' = run_all api call (filterb (stops_now api m) layer) m in
      Keeps-trans m m' (stop_layers api grace_period layers m')
        (run_all-Keeps call (call_stop-Keeps (stop_wait m grace_period))
          (filterb (stops_now api m) layer) m)
        (stop_layers-Keeps grace_period layers m')

  pub shutdown_all-Keeps : (programs : Map H) (m : State) → Keeps m (shutdown_all api programs m)
  unfolding shutdown_all call_shutdown
  shutdown_all-Keeps [] m = (refl, refl)
  shutdown_all-Keeps ((name, prog) ∷ programs) m =
      let m' = call_shutdown api name prog m in
      Keeps-trans m m' (shutdown_all api programs m') (refl, refl) (shutdown_all-Keeps programs m')
