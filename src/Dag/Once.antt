-- ===== src/Dag/Once.antt =====
-- How often a program stands in the start layers.
use rsupervisord.Prelude.{
  ℕ, zero, suc, ◌+◌, ◌≤◌, ◌≡◌, refl, sym, ap, ◌∙◌, arith, Bool, true, false, List, [], ◌∷◌, ◌++◌,
  append-nil, Text, ◌==◌, is_empty, concat, Bool-cases, inl, inr,
}
use rsupervisord.Prelude.TextLaws.{text_eq_refl}
use rsupervisord.Dag.{
  Programs, contains, names, kahn, layer_nodes, max_layer, starts_before, insert, sort_by,
  collect_layers, DependencyGraph, BuildResult, graph_of, build,
}
use rsupervisord.Dag.Counts.{Distinct, contains-append, contains-text_eq}
use rsupervisord.Prelude.TextLaws.{text_eq_comm}
use rsupervisord.Dag.Roots.{kahn-Final}
use rsupervisord.Dag.Layers.{at, contains-sort_by, contains-insert, contains-layer_nodes}
use rsupervisord.Dag.Order.{build-ok}

Distinct-append :
    (xs ys : List Text)
    → Distinct xs
    → Distinct ys
    → ((n : Text) → contains n xs ≡ true → contains n ys ≡ false)
    → Distinct (xs ++ ys)
unfolding contains
Distinct-append [] ys dx dy apart = dy
Distinct-append (x ∷ xs) ys dx dy apart = (
  ground (arith, dx.0, contains-append x xs ys, apart x (ground (arith, text_eq_refl x))),
  Distinct-append xs ys dx.1 dy (λ n c. apart n (ground (arith, c))),
)

Distinct-insert :
    (before : Text → Text → Bool) (x : Text) (ys : List Text)
    → Distinct ys
    → contains x ys ≡ false
    → Distinct (insert before x ys)
unfolding insert contains
Distinct-insert before x [] d new = (refl, tt)
Distinct-insert before x (y ∷ ys) d new = elim (Bool-cases (before x y)) [
  | inl t ↦ rw t (new, d)
  | inr f ↦ rw f (
    ground (arith, contains-insert before y x ys, new, d.0, text_eq_comm x y),
    Distinct-insert before x ys d.1 (ground (arith, new)),
  )
]

Distinct-sort_by :
    (before : Text → Text → Bool) (xs : List Text) → Distinct xs → Distinct (sort_by before xs)
unfolding sort_by
Distinct-sort_by before [] d = tt
Distinct-sort_by before (x ∷ xs) d =
    Distinct-insert before x (sort_by before xs) (Distinct-sort_by before xs d.1)
      (contains-sort_by before x xs ∙ d.0)

layer_nodes-names :
    (n : Text) (l : ℕ) (es : List (Text × ℕ))
    → contains n (layer_nodes l es) ≡ true
    → contains n (names es) ≡ true
unfolding layer_nodes contains
layer_nodes-names n l [] c = c
layer_nodes-names n l ((m, k) ∷ es) c = ground (arith, c, layer_nodes-names n l es)

Distinct-layer_nodes :
    (l : ℕ) (es : List (Text × ℕ)) → Distinct (names es) → Distinct (layer_nodes l es)
unfolding layer_nodes
Distinct-layer_nodes l [] d = tt
Distinct-layer_nodes l ((m, k) ∷ es) d = elim (Bool-cases (k == l)) [
  | inl t ↦ rw t (ground (arith, d.0, layer_nodes-names m l es), Distinct-layer_nodes l es d.1)
  | inr f ↦ rw f (Distinct-layer_nodes l es d.1)
]

at-names :
    (n : Text) (l : ℕ) (es : List (Text × ℕ)) → at n l es ≡ true → contains n (names es) ≡ true
at-names n l es h = layer_nodes-names n l es (sym (contains-layer_nodes n l es) ∙ h)

-- A name is placed once.
one_layer :
    (n : Text) (a b : ℕ) (es : List (Text × ℕ))
    → Distinct (names es)
    → at n a es ≡ true
    → at n b es ≡ true
    → a ≡ b
unfolding at
one_layer n a b [] d ha hb = absurd (cc ha)
one_layer n a b ((m, k) ∷ es) d ha hb = ground (
  arith,
  d.0,
  ha,
  hb,
  contains-text_eq n m (names es),
  at-names n a es,
  at-names n b es,
  one_layer n a b es d.1,
)

module _ (ps : Programs) (placed : List (Text × ℕ)) (d : Distinct (names placed)) where
  -- What is collected from layer `lo` on is placed in such a layer.
  placed_from :
      (n : Text) (lo cnt : ℕ)
      → contains n (concat (collect_layers ps placed lo cnt)) ≡ true
      → (l : ℕ) × (at n l placed ≡ true) × (lo ≤ l)
  unfolding collect_layers
  placed_from n lo zero c = unfold contains in absurd (cc c)
  placed_from n lo (suc cnt) c = elim (Bool-cases (at n lo placed)) [
    | inl t ↦ (lo, t, omega arith)
    | inr f ↦
        (let rest = concat (collect_layers ps placed (lo + 1) cnt) in
          let sorted = sort_by (starts_before ps) (layer_nodes lo placed) in
          let later : contains n rest ≡ true = ground (
            arith,
            c,
            f,
            contains-append n sorted rest,
            contains-sort_by (starts_before ps) n (layer_nodes lo placed),
            contains-layer_nodes n lo placed,
          ) in
          let (l, h, le) = placed_from n (lo + 1) cnt later in (l, h, omega (arith, le)))
  ]

  Distinct-collect_layers : (lo cnt : ℕ) → Distinct (concat (collect_layers ps placed lo cnt))
  unfolding collect_layers
  Distinct-collect_layers lo zero = tt
  Distinct-collect_layers lo (suc cnt) = elim (Bool-cases (is_empty (layer_nodes lo placed))) [
    | inl t ↦ rw t (Distinct-collect_layers (lo + 1) cnt)
    | inr f ↦ rw f (
        Distinct-append _ _
          (Distinct-sort_by (starts_before ps) (layer_nodes lo placed)
            (Distinct-layer_nodes lo placed d))
          (Distinct-collect_layers (lo + 1) cnt) apart)
  ]
    where
      apart :
          (n : Text)
          → contains n (sort_by (starts_before ps) (layer_nodes lo placed)) ≡ true
          → contains n (concat (collect_layers ps placed (lo + 1) cnt)) ≡ false
      apart n c = elim (Bool-cases (contains n (concat (collect_layers ps placed (lo + 1) cnt)))) [
        | inr f ↦ f
        | inl t ↦
            (let (l, h, le) = placed_from n (lo + 1) cnt t in
              let here : at n lo placed ≡ true =
                contains-layer_nodes n lo placed
                ∙ sym (contains-sort_by (starts_before ps) n (layer_nodes lo placed))
                ∙ c in
              absurd (omega (arith, le, one_layer n lo l placed d here h)))
      ]

-- In a graph that is built from programs with distinct names, no name stands twice in the layers
-- of the start.
pub build-Distinct :
    (is_cyclic : Programs → Bool) (ps : Programs) (g : DependencyGraph)
    → Distinct (names ps)
    → build is_cyclic ps ≡ BuildResult.ok g
    → Distinct (concat g.start_layers)
build-Distinct is_cyclic ps g d h =
    let (all_placed, same) = build-ok is_cyclic ps g h in
    let kept : Distinct (names (kahn ps)) =
      rw (ap names (append-nil (kahn ps))) at (kahn-Final ps d).invariant.distinct in
    rw (← same) (
      unfold graph_of in
      elim (Bool-cases (is_empty ps)) [
        | inl t ↦ rw t tt
        | inr f ↦ rw f (Distinct-collect_layers ps (kahn ps) kept 0 (max_layer (kahn ps) + 1))
      ])
