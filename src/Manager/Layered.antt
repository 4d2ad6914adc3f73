-- ===== src/Manager/Layered.antt =====
-- The order in which `execute_start_all` starts programs, from the layers of the graph.
use rsupervisord.Prelude.{
  ◌≡◌, refl, sym, ap, ◌∙◌, arith, Bool, true, false, Option, none, some, List, [], ◌∷◌, ◌++◌, map,
  Text, filterb, concat, append_assoc, append-nil, Bool-cases, inl, inr,
}
use rsupervisord.Prelude.Maps
use rsupervisord.Prelude.Maps.{Map}
use rsupervisord.Prelude.TextLaws.{eq_of_text_eq, text_eq_refl}
use rsupervisord.Dag
use rsupervisord.Dag.{BuildResult, contains, names, depends_of}
use rsupervisord.Dag.Counts.{Distinct, contains-append}
use rsupervisord.Dag.Layers.{Precedes}
use rsupervisord.Dag.Order.{build-Layered}
use rsupervisord.Dag.Once.{build-Distinct}
use rsupervisord.Manager.{Api, Call, Manager}
use rsupervisord.Manager.Commands.{
  call_start, call_target, run_all, starts_now, start_layers, execute_start_all,
}

-- Every name of the first list is in the second.
abbrev Within : List Text → List Text → Type 0
Within xs ys = (x : Text) → contains x ys ≡ false → contains x xs ≡ false

-- Layer by layer.
abbrev Picked : List (List Text) → List (List Text) → Type 0
Picked [] [] = Unit {0}
Picked [] (l ∷ ls) = ⊥
Picked (p ∷ ps) [] = ⊥
Picked (p ∷ ps) (l ∷ ls) = Within p l × Picked ps ls

filterb-Within : (test : Text → Bool) (xs : List Text) → Within (filterb test xs) xs
unfolding contains
filterb-Within test [] x h = h
filterb-Within test (y ∷ ys) x h = ground (arith, h, filterb-Within test ys x)

concat-Within : (ps ls : List (List Text)) → Picked ps ls → Within (concat ps) (concat ls)
concat-Within [] [] h x e = e
concat-Within [] (l ∷ ls) h x e = absurd h
concat-Within (p ∷ ps) [] h x e = absurd h
concat-Within (p ∷ ps) (l ∷ ls) h x e = ground (
  arith,
  e,
  contains-append x p (concat ps),
  contains-append x l (concat ls),
  h.0 x,
  concat-Within ps ls h.1 x,
)

map-append_start :
    (xs ys : List Text) → map Call.start (xs ++ ys) ≡ map Call.start xs ++ map Call.start ys
map-append_start [] ys = refl
map-append_start (x ∷ xs) ys = ap (◌∷◌ (Call.start x)) (map-append_start xs ys)

-- No element `d` stands behind an element `n`.
abbrev pub NeverAfter : Text → Text → List Text → Type 0
NeverAfter d n started = (xs ys : List Text) → started ≡ xs ++ n ∷ ys → contains d ys ≡ false

split-NeverAfter :
    (d n : Text) (front back : List Text)
    → contains n front ≡ false
    → contains d back ≡ false
    → NeverAfter d n (front ++ back)
unfolding contains
split-NeverAfter d n [] back hf hb xs ys e =
    ground (arith, contains-append d xs (n ∷ ys), ap (contains d) e, hb)
split-NeverAfter d n (a ∷ front) back hf hb [] ys e = ground (arith, hf, e, text_eq_refl n)
split-NeverAfter d n (a ∷ front) back hf hb (x ∷ xs) ys e =
    split-NeverAfter d n front back (ground (arith, hf)) hb xs ys (cc e)

Distinct-disjoint :
    (x : Text) (xs ys : List Text)
    → Distinct (xs ++ ys)
    → contains x ys ≡ true
    → contains x xs ≡ false
unfolding contains
Distinct-disjoint x [] ys u h = refl
Distinct-disjoint x (y ∷ xs) ys u h =
    ground
      (arith, Distinct-disjoint x xs ys u.1 h, u.0, contains-append y xs ys, eq_of_text_eq x y, h)

Distinct-tail : (xs ys : List Text) → Distinct (xs ++ ys) → Distinct ys
Distinct-tail [] ys u = u
Distinct-tail (x ∷ xs) ys u = Distinct-tail xs ys u.1

Precedes-contains :
    (d n : Text) (ls : List (List Text)) → Precedes d n ls → contains n (concat ls) ≡ true
Precedes-contains d n [] p = absurd p
Precedes-contains d n (l ∷ ls) (inl (here, later)) =
    ground (arith, later, contains-append n l (concat ls))
Precedes-contains d n (l ∷ ls) (inr p) =
    ground (arith, Precedes-contains d n ls p, contains-append n l (concat ls))

-- What stands in one part stands not in the other.
Distinct-other :
    (x : Text) (xs ys : List Text)
    → Distinct (xs ++ ys)
    → contains x xs ≡ true
    → contains x ys ≡ false
Distinct-other x xs ys u h = elim (Bool-cases (contains x ys)) [
  | inl t ↦ (let no = Distinct-disjoint x xs ys u t in absurd (cc (no, h)))
  | inr f ↦ f
]

layers-NeverAfter :
    (d n : Text) (ps ls : List (List Text))
    → Picked ps ls
    → Distinct (concat ls)
    → Precedes d n ls
    → (front back : List Text) × (concat ps ≡ front ++ back)
      × (contains n front ≡ false)
      × (contains d back ≡ false)
layers-NeverAfter d n [] [] h u p = absurd p
layers-NeverAfter d n [] (l ∷ ls) h u p = absurd h
layers-NeverAfter d n (q ∷ ps) [] h u p = absurd p
layers-NeverAfter d n (q ∷ ps) (l ∷ ls) h u (inl (here, later)) = (
  q,
  concat ps,
  refl,
  h.0 n (Distinct-disjoint n l (concat ls) u later),
  concat-Within ps ls h.1 d (Distinct-other d l (concat ls) u here),
)
layers-NeverAfter d n (q ∷ ps) (l ∷ ls) h u (inr p) =
    let (front, back, e, hf, hb) =
      layers-NeverAfter d n ps ls h.1 (Distinct-tail l (concat ls) u) p in
    let fresh : contains n q ≡ false =
      h.0 n (Distinct-disjoint n l (concat ls) u (Precedes-contains d n ls p)) in
    (
      q ++ front,
      back,
      ap (λ (r : List Text). q ++ r) e ∙ sym (append_assoc q front back),
      ground (arith, contains-append n q front, fresh, hf),
      hb,
    )

module _ {H W E : Type 0} (api : Api H W E) where
  abbrev State : Type 0
  State = Manager H W E

  -- What a run of calls over some names starts.
  abbrev Started : List Text → State → State → Type 0
  Started names m m' = (p : List Text) × Within p names × (m'.calls ≡ m.calls ++ map Call.start p)

  call_target-Started :
      (x : Text) (o : Option H) (m : State)
      → Started (x ∷ []) m (call_target api (call_start api) x o m).0
  unfolding call_target call_start
  call_target-Started x none m = ([], (λ y h. unfold contains in refl), sym (append-nil m.calls))
  call_target-Started x (some prog) m = (x ∷ [], (λ y h. h), refl)

  run_all-Started : (xs : List Text) (m : State) → Started xs m (run_all api (call_start api) xs m)
  unfolding run_all contains
  run_all-Started [] m = ([], (λ x h. h), sym (append-nil m.calls))
  run_all-Started (x ∷ xs) m =
      let m' = (call_target api (call_start api) x (Maps.get x m.programs) m).0 in
      let (p, within, calls) = call_target-Started x (Maps.get x m.programs) m in
      let (p', within', calls') = run_all-Started xs m' in
      (
        p ++ p',
        λ y h. ground (arith, contains-append y p p', within y, within' y, h),
        calls'
            ∙ ap (λ (c : List Call). c ++ map Call.start p') calls
            ∙ append_assoc m.calls (map Call.start p) (map Call.start p')
            ∙ ap (λ (c : List Call). m.calls ++ c) (sym (map-append_start p p')),
      )

  start_layers-Started :
      (layers : List (List Text)) (m : State)
      → (ps : List (List Text)) × Picked ps layers
        × ((start_layers api layers m).calls ≡ m.calls ++ map Call.start (concat ps))
  unfolding start_layers
  start_layers-Started [] m = ([], tt, sym (append-nil m.calls))
  start_layers-Started (layer ∷ layers) m =
      let chosen = filterb (starts_now api m) layer in
      let m' = run_all api (call_start api) chosen m in
      let (p, within, calls) = run_all-Started chosen m in
      let (ps, picked, calls') = start_layers-Started layers m' in
      (
        p ∷ ps,
        ((λ y h. within y (filterb-Within (starts_now api m) layer y h)), picked),
        calls'
            ∙ ap (λ (c : List Call). c ++ map Call.start (concat ps)) calls
            ∙ append_assoc m.calls (map Call.start p) (map Call.start (concat ps))
            ∙ ap (λ (c : List Call). m.calls ++ c) (sym (map-append_start p (concat ps))),
      )

  -- Where the graph was built from the configurations, and these have distinct names, the calls of
  -- a start of all programs are starts, and none of a dependency stands behind one of a program
  -- that depends on it.
  pub execute_start_all-NeverAfter :
      (ps : Dag.Programs) (m : State)
      → Distinct (names ps)
      → Dag.build api.is_cyclic ps ≡ BuildResult.ok m.dag
      → (started : List Text) × ((execute_start_all api m).calls
          ≡ m.calls ++ map Call.start started)
        × ((n d : Text)
            → contains n (names ps) ≡ true
            → contains d (depends_of n ps) ≡ true
            → NeverAfter d n started)
  unfolding execute_start_all
  execute_start_all-NeverAfter ps m u built =
      let (picks, picked, calls) = start_layers-Started m.dag.start_layers m in
      (
        concat picks,
        calls,
        λ n d known depends xs ys e.
            (let precedes =
                (build-Layered api.is_cyclic ps m.dag u built).first n d known depends in
              let (front, back, split, hf, hb) =
                layers-NeverAfter d n picks m.dag.start_layers picked
                  (build-Distinct api.is_cyclic ps m.dag u built) precedes in
              split-NeverAfter d n front back hf hb xs ys (sym split ∙ e)),
      )
