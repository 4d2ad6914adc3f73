-- ===== src/Manager/Reloads.antt =====
-- What a reload does to the configurations and to the programs that did not change.
use rsupervisord.Prelude.{
  ℕ, ◌≡◌, refl, ap, ◌∙◌, arith, Bool, true, false, ◌||◌, none, some, List, [], ◌∷◌, ◌++◌, Text,
  text_eq, if◌then◌else◌, Option-cases, inl, inr,
}
use rsupervisord.Prelude.Maps
use rsupervisord.Prelude.Maps.{Map, get-insert, get-remove}
use rsupervisord.Dag.{contains}
use rsupervisord.Config.Diff.Classified.{In}
use rsupervisord.Manager.{ProgramConfig, Api, Call, Manager, default_stop_wait}
use rsupervisord.Manager.Registered.{gone, gone-maps, stopped, replaced-Keeps, autostart_new-Keeps}
use rsupervisord.Manager.Commands.{call_start, call_stop, call_shutdown}
use rsupervisord.Manager.Generations.{
  retire, autostart_new, register, remove_programs, replace_programs, add_programs,
}

-- The name of a call.
abbrev pub call_name : Call → Text
call_name (Call.start n) = n
call_name (Call.shutdown n) = n
call_name (Call.stop n p) = n
call_name (Call.restart n p) = n

abbrev pub calls_of : Text → List Call → List Call
calls_of n [] = []
calls_of n (c ∷ cs) = let rest = calls_of n cs in if text_eq n (call_name c) then c ∷ rest else rest

calls_of-append :
    (n : Text) (xs ys : List Call) → calls_of n (xs ++ ys) ≡ calls_of n xs ++ calls_of n ys
calls_of-append n [] ys = refl
calls_of-append n (x ∷ xs) ys = ground (arith, calls_of-append n xs ys)

calls_of-other :
    (n : Text) (xs : List Call) (c : Call)
    → text_eq n (call_name c) ≡ false
    → calls_of n (xs ++ c ∷ []) ≡ calls_of n xs
calls_of-other n [] c h = rw h refl
calls_of-other n (x ∷ xs) c h = ground (arith, calls_of-other n xs c h)

-- Some configuration of the list has the name.
abbrev pub is_named : Text → List ProgramConfig → Bool
is_named n [] = false
is_named n (c ∷ cs) = text_eq n c.name || is_named n cs

abbrev pub configs_of : {H : Type 0} → List (ProgramConfig × H) → List ProgramConfig
configs_of [] = []
configs_of ((c, prog) ∷ staged) = c ∷ configs_of staged

module _ {H W E : Type 0} where
  -- The instance under the name is the same one, and no call was made of it.
  abbrev pub Untouched : Text → Manager H W E → Manager H W E → Type 0
  Untouched n m m' =
      (Maps.get n m'.programs ≡ Maps.get n m.programs) × (calls_of n m'.calls ≡ calls_of n m.calls)

  pub Untouched-trans :
      (n : Text) (a b c : Manager H W E) → Untouched n a b → Untouched n b c → Untouched n a c
  Untouched-trans n a b c f g = (g.0 ∙ f.0, g.1 ∙ f.1)

-- The configurations put in one after the other, each under its name.
pub put : List ProgramConfig → Map ProgramConfig → Map ProgramConfig
put [] m = m
put (c ∷ cs) m = put cs (Maps.insert c.name c m)

pub get-put_other :
    (n : Text) (cs : List ProgramConfig) (m : Map ProgramConfig)
    → is_named n cs ≡ false
    → Maps.get n (put cs m) ≡ Maps.get n m
unfolding put
get-put_other n [] m h = refl
get-put_other n (c ∷ cs) m h =
    ground (arith, h, get-put_other n cs (Maps.insert c.name c m), get-insert n c.name c m)

pub get-put :
    (n : Text) (x : ProgramConfig) (cs : List ProgramConfig) (m : Map ProgramConfig)
    → ((c : ProgramConfig) → In c cs → text_eq n c.name ≡ true → c ≡ x)
    → Maps.get n (put cs m) ≡ (if is_named n cs then some x else Maps.get n m)
unfolding put
get-put n x [] m h = refl
get-put n x (c ∷ cs) m h = ground (
  arith,
  get-put n x cs (Maps.insert c.name c m) (λ d i. h d (inr i)),
  get-insert n c.name c m,
  h c (inl refl),
)

module _ {H W E : Type 0} (api : Api H W E) where
  abbrev State : Type 0
  State = Manager H W E

  -- The state behind one round of `remove_programs`.
  abbrev dropped : Text → State → State
  dropped x m = record (gone api x m) { configs = Maps.remove x (gone api x m).configs }

  pub remove_programs-configs :
      (n : Text) (removed : List Text) (m : State)
      → Maps.get n (remove_programs api removed m).configs
        ≡ (if contains n removed then none else Maps.get n m.configs)
  unfolding remove_programs contains
  remove_programs-configs n [] m = refl
  remove_programs-configs n (x ∷ removed) m = ground (
    arith,
    remove_programs-configs n removed (dropped x m),
    ap (λ (cs : Map ProgramConfig). Maps.get n (Maps.remove x cs)) (gone-maps api x n m).1,
    get-remove n x m.configs,
  )

  pub replace_programs-configs :
      (staged : List (ProgramConfig × H)) (m : State)
      → (replace_programs api staged m).configs ≡ put (configs_of staged) m.configs
  unfolding replace_programs put register
  replace_programs-configs [] m = refl
  replace_programs-configs ((c, prog) ∷ staged) m =
      replace_programs-configs staged
        (register api c.name c prog (autostart_new api c prog (stopped api c m)))
      ∙ ap (λ (cs : Map ProgramConfig). put (configs_of staged) (Maps.insert c.name c cs))
          (replaced-Keeps api c prog m).1

  pub add_programs-configs :
      (staged : List (ProgramConfig × H)) (m : State)
      → (add_programs api staged m).configs ≡ put (configs_of staged) m.configs
  unfolding add_programs put register
  add_programs-configs [] m = refl
  add_programs-configs ((c, prog) ∷ staged) m =
      add_programs-configs staged (register api c.name c prog (autostart_new api c prog m))
      ∙ ap (λ (cs : Map ProgramConfig). put (configs_of staged) (Maps.insert c.name c cs))
          (autostart_new-Keeps api c prog m).1

  retire-calls :
      (n name : Text) (period : ℕ) (prog : H) (m : State)
      → text_eq n name ≡ false
      → calls_of n (retire api name period prog m).calls ≡ calls_of n m.calls
  unfolding retire call_stop call_shutdown
  retire-calls n name period prog m h =
      calls_of-other n (m.calls ++ Call.stop name period ∷ []) (Call.shutdown name) h
      ∙ calls_of-other n m.calls (Call.stop name period) h

  autostart_new-calls :
      (n : Text) (c : ProgramConfig) (prog : H) (m : State)
      → text_eq n c.name ≡ false
      → calls_of n (autostart_new api c prog m).calls ≡ calls_of n m.calls
  unfolding autostart_new call_start
  autostart_new-calls n c prog m h = ground (arith, calls_of-other n m.calls (Call.start c.name) h)

  dropped-Untouched : (n x : Text) (m : State) → text_eq n x ≡ false → Untouched n m (dropped x m)
  dropped-Untouched n x m h = (
    ground (arith, h, (gone-maps api x n m).0),
    elim (Option-cases (Maps.get x m.programs)) [
      | inl e ↦ rw (e, dropped, gone) refl
      | inr (prog, e) ↦
          rw (e, dropped, gone)
            (retire-calls n x default_stop_wait prog
              (record m { programs = Maps.remove x m.programs }) h)
    ],
  )

  stopped-calls :
      (n : Text) (c : ProgramConfig) (m : State)
      → text_eq n c.name ≡ false
      → calls_of n (stopped api c m).calls ≡ calls_of n m.calls
  stopped-calls n c m h = elim (Option-cases (Maps.get c.name m.programs)) [
    | inl e ↦ rw (e, stopped) refl
    | inr (old, e) ↦ rw (e, stopped) (retire-calls n c.name c.stop_wait_secs old m h)
  ]

  register-Untouched :
      (n : Text) (c : ProgramConfig) (prog : H) (m m' : State)
      → text_eq n c.name ≡ false
      → m'.programs ≡ m.programs
      → calls_of n m'.calls ≡ calls_of n m.calls
      → Untouched n m (register api c.name c prog m')
  unfolding register
  register-Untouched n c prog m m' h k calls =
      (ground (arith, h, get-insert n c.name prog m'.programs, ap (Maps.get n) k), calls)

  pub remove_programs-Untouched :
      (n : Text) (removed : List Text) (m : State)
      → contains n removed ≡ false
      → Untouched n m (remove_programs api removed m)
  unfolding remove_programs contains
  remove_programs-Untouched n [] m h = (refl, refl)
  remove_programs-Untouched n (x ∷ removed) m h =
      Untouched-trans n m (dropped x m) (remove_programs api removed (dropped x m))
        (dropped-Untouched n x m (ground (arith, h)))
        (remove_programs-Untouched n removed (dropped x m) (ground (arith, h)))

  pub replace_programs-Untouched :
      (n : Text) (staged : List (ProgramConfig × H)) (m : State)
      → is_named n (configs_of staged) ≡ false
      → Untouched n m (replace_programs api staged m)
  unfolding replace_programs
  replace_programs-Untouched n [] m h = (refl, refl)
  replace_programs-Untouched n ((c, prog) ∷ staged) m h =
      let other : text_eq n c.name ≡ false = ground (arith, h) in
      let m' = autostart_new api c prog (stopped api c m) in
      Untouched-trans n m (register api c.name c prog m')
        (replace_programs api staged (register api c.name c prog m'))
        (register-Untouched n c prog m m' other (replaced-Keeps api c prog m).0
          (autostart_new-calls n c prog (stopped api c m) other ∙ stopped-calls n c m other))
        (replace_programs-Untouched n staged (register api c.name c prog m') (ground (arith, h)))

  pub add_programs-Untouched :
      (n : Text) (staged : List (ProgramConfig × H)) (m : State)
      → is_named n (configs_of staged) ≡ false
      → Untouched n m (add_programs api staged m)
  unfolding add_programs
  add_programs-Untouched n [] m h = (refl, refl)
  add_programs-Untouched n ((c, prog) ∷ staged) m h =
      let other : text_eq n c.name ≡ false = ground (arith, h) in
      let m' = autostart_new api c prog m in
      Untouched-trans n m (register api c.name c prog m')
        (add_programs api staged (register api c.name c prog m'))
        (register-Untouched n c prog m m' other (autostart_new-Keeps api c prog m).0
          (autostart_new-calls n c prog m other))
        (add_programs-Untouched n staged (register api c.name c prog m') (ground (arith, h)))
