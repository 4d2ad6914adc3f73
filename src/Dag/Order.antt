-- ===== src/Dag/Order.antt =====
-- What `DependencyGraph::build` promises.
use mathlib.Core.List.{reverse_aux}
use rsupervisord.Prelude.{
  ℕ, ◌+◌, ◌<◌, ◌≡◌, refl, ap, ◌∙◌, arith, Bool, true, false, ◌&&◌, List, [], ◌∷◌, ◌++◌, map,
  append-nil, Text, text_eq, ◌==◌, is_empty, length, Bool-cases, inl, inr, concat,
}
use rsupervisord.Prelude.TextLaws.{eq_of_text_eq}
use rsupervisord.Dag.{
  Programs, contains, names, depends_of, kahn, max_layer, stops_before, sort_by, collect_layers,
  DependencyGraph, BuildResult, graph_of, build,
}
use rsupervisord.Dag.Counts.{Distinct, contains-append, contains_all}
use rsupervisord.Dag.Kahn.{below, Ready, DepsBelow}
use rsupervisord.Dag.Loop.{Final, length-names}
use rsupervisord.Dag.Roots.{kahn-Final}
use rsupervisord.Dag.Layers.{
  at, contains-sort_by, at_of_contains, at_of_below, at-le, Precedes, collected, precedes,
}

module _ (before : Text → Text → Bool) where
  abbrev sorted : List (List Text) → List (List Text)
  sorted = map (sort_by before)

  contains-sorted :
      (x : Text) (layers : List (List Text))
      → contains x (concat layers) ≡ true
      → contains x (concat (sorted layers)) ≡ true
  contains-sorted x [] c = c
  contains-sorted x (layer ∷ rest) c = ground (
    arith,
    c,
    contains-sorted x rest,
    contains-sort_by before x layer,
    contains-append x layer (concat rest),
    contains-append x (sort_by before layer) (concat (sorted rest)),
  )

  keep :
      (n d : Text) (xs acc : List (List Text))
      → Precedes n d (sorted acc)
      → Precedes n d (sorted (reverse_aux xs acc))
  keep n d [] acc p = p
  keep n d (x ∷ xs) acc p = keep n d xs (x ∷ acc) (inr p)

  cross :
      (n d : Text) (xs acc : List (List Text))
      → contains n (concat xs) ≡ true
      → contains d (concat acc) ≡ true
      → Precedes n d (sorted (reverse_aux xs acc))
  cross n d [] acc c c' = unfold contains in cc c
  cross n d (x ∷ xs) acc c c' = elim (Bool-cases (contains n x)) [
    | inl t ↦
        keep n d xs (x ∷ acc) (inl (contains-sort_by before n x ∙ t, contains-sorted d acc c'))
    | inr f ↦
        cross n d xs (x ∷ acc) (ground (arith, c, f, contains-append n x (concat xs)))
          (ground (arith, c', contains-append d x (concat acc)))
  ]

  -- Reversing the layers, and sorting each, turns the order around.
  turned :
      (d n : Text) (xs acc : List (List Text))
      → Precedes d n xs
      → Precedes n d (sorted (reverse_aux xs acc))
  turned d n [] acc p = absurd p
  turned d n (x ∷ xs) acc (inl (here, later)) =
      cross n d xs (x ∷ acc) later (ground (arith, here, contains-append d x (concat acc)))
  turned d n (x ∷ xs) acc (inr p) = turned d n xs (x ∷ acc) p

DepsBelow-at :
    (placed : List (Text × ℕ)) (l : ℕ) (ds : List Text) (d : Text)
    → DepsBelow placed l ds
    → contains d ds ≡ true
    → below d l placed ≡ true
unfolding contains
DepsBelow-at placed l [] d b c = cc c
DepsBelow-at placed l (x ∷ ds) d b c = elim (Bool-cases (text_eq d x)) [
  | inl t ↦ ap (λ z. below z l placed) (eq_of_text_eq d x t) ∙ b.0
  | inr f ↦ DepsBelow-at placed l ds d b.1 (ground (arith, c, f))
]

Ready-at :
    (ps : Programs) (placed es : List (Text × ℕ)) (n : Text) (l : ℕ)
    → Ready ps placed es
    → at n l es ≡ true
    → DepsBelow placed l (depends_of n ps)
unfolding at
Ready-at ps placed [] n l r h = absurd (cc h)
Ready-at ps placed ((m, k) ∷ es) n l r h = elim (Bool-cases (text_eq n m && (k == l))) [
  | inl t ↦
      let e : n ≡ m = eq_of_text_eq n m (ground (arith, t)) in
      let e' : k ≡ l = ground (arith, t) in rw (e, ← e') r.0
  | inr f ↦ Ready-at ps placed es n l r.1 (ground (arith, f, h))
]

-- Every program starts; a dependency starts in an earlier layer, and stops in a later one.
pub record Layered (ps : Programs) (g : DependencyGraph) : Type 0 where
  pub started :
      (n : Text) → contains n (names ps) ≡ true → contains n (concat g.start_layers) ≡ true
  pub first :
      (n d : Text)
      → contains n (names ps) ≡ true
      → contains d (depends_of n ps) ≡ true
      → Precedes d n g.start_layers
  pub last :
      (n d : Text)
      → contains n (names ps) ≡ true
      → contains d (depends_of n ps) ≡ true
      → Precedes n d g.stop_layers

module _ (ps : Programs) (placed : List (Text × ℕ)) (f : Final ps placed)
    (all_placed : length placed ≡ length ps) where
  is_placed : (n : Text) → contains n (names ps) ≡ true → contains n (names placed) ≡ true
  is_placed n c =
      let same : names (placed ++ []) ≡ names placed = ap names (append-nil placed) in
      contains_all (names placed) (names ps) (rw same at f.invariant.distinct)
        (λ m h. f.invariant.known m (rw same h))
        (omega (arith, length-names placed, length-names ps, all_placed)) n c

  fits : (n : Text) (l : ℕ) → at n l placed ≡ true → l < 0 + (max_layer placed + 1)
  fits n l h = omega (arith, at-le n l placed h)

  starts :
      (n : Text)
      → contains n (names ps) ≡ true
      → contains n (concat (graph_of ps placed).start_layers) ≡ true
  unfolding graph_of contains
  starts n c =
      let (l, h) = at_of_contains n placed (is_placed n c) in
      ground
        (arith, c, collected ps placed n l 0 (max_layer placed + 1) h (omega arith) (fits n l h))

  firsts :
      (n d : Text)
      → contains n (names ps) ≡ true
      → contains d (depends_of n ps) ≡ true
      → Precedes d n (collect_layers ps placed 0 (max_layer placed + 1))
  firsts n d c dep =
      let (l, h) = at_of_contains n placed (is_placed n c) in
      let r : Ready ps placed placed = rw (append-nil placed) at f.invariant.ready in
      let (k, hd, lt) =
        at_of_below d l placed
          (DepsBelow-at placed l (depends_of n ps) d (Ready-at ps placed placed n l r h) dep) in
      precedes ps placed d n k l 0 (max_layer placed + 1) hd h (omega arith) lt (fits n l h)

  not_empty : (n : Text) → contains n (names ps) ≡ true → is_empty ps ≡ false
  not_empty n c = go ps c
    where
      go : (qs : Programs) → contains n (names qs) ≡ true → is_empty qs ≡ false
      go [] h = unfold contains in cc h
      go (q ∷ qs) h = refl

  graph_of-Layered : Layered ps (graph_of ps placed)
  unfolding graph_of
  graph_of-Layered = record {
    started = starts;
    first = λ n d c dep. rw (not_empty n c) (firsts n d c dep);
    last = λ n d c dep. rw (not_empty n c) (
        turned (stops_before ps) d n (collect_layers ps placed 0 (max_layer placed + 1)) []
          (firsts n d c dep));
  }

pub build-ok :
    (is_cyclic : Programs → Bool) (ps : Programs) (g : DependencyGraph)
    → build is_cyclic ps ≡ BuildResult.ok g
    → (length (kahn ps) ≡ length ps) × (graph_of ps (kahn ps) ≡ g)
unfolding build
build-ok is_cyclic ps g h = ground (arith, h)

-- A graph that is built from programs with distinct names starts every program, starts each
-- dependency of a program in an earlier layer than the program, and stops it in a later one.
pub build-Layered :
    (is_cyclic : Programs → Bool) (ps : Programs) (g : DependencyGraph)
    → Distinct (names ps)
    → build is_cyclic ps ≡ BuildResult.ok g
    → Layered ps g
build-Layered is_cyclic ps g d h =
    let (all_placed, same) = build-ok is_cyclic ps g h in
    rw (← same) (graph_of-Layered ps (kahn ps) (kahn-Final ps d) all_placed)
