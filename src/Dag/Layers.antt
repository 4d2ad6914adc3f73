-- ===== src/Dag/Layers.antt =====
-- From the placed programs to the start layers.
use rsupervisord.Prelude.{
  ℕ, zero, suc, ◌+◌, ◌≤◌, ◌<◌, ◌≡◌, refl, sym, ◌∙◌, arith, Bool, true, false, ◌&&◌, ◌||◌, List, [],
  ◌∷◌, Text, text_eq, ltb, ◌==◌, is_empty, Bool-cases, inl, inr, ◌⊎◌, concat,
}
use rsupervisord.Dag.{
  Programs, contains, names, layer_nodes, max_layer, starts_before, insert, sort_by, collect_layers,
}
use rsupervisord.Dag.Counts.{contains-append}
use rsupervisord.Dag.Kahn.{below}

-- `n` is placed in layer `l`.
unfoldable pub at : Text → ℕ → List (Text × ℕ) → Bool
at n l [] = false
at n l ((m, k) ∷ es) = (text_eq n m && (k == l)) || at n l es

==_eq : (a b : ℕ) → (a == b) ≡ true → a ≡ b
==_eq a b h = ground arith

pub contains-insert :
    (before : Text → Text → Bool) (z x : Text) (ys : List Text)
    → contains z (insert before x ys) ≡ (text_eq z x || contains z ys)
unfolding contains insert
contains-insert before z x [] = refl
contains-insert before z x (y ∷ ys) = ground (arith, contains-insert before z x ys)

pub contains-sort_by :
    (before : Text → Text → Bool) (z : Text) (xs : List Text)
    → contains z (sort_by before xs) ≡ contains z xs
unfolding contains sort_by
contains-sort_by before z [] = refl
contains-sort_by before z (x ∷ xs) =
    ground (arith, contains-sort_by before z xs, contains-insert before z x (sort_by before xs))

pub contains-layer_nodes :
    (n : Text) (l : ℕ) (es : List (Text × ℕ)) → at n l es ≡ contains n (layer_nodes l es)
unfolding at contains layer_nodes
contains-layer_nodes n l [] = refl
contains-layer_nodes n l ((m, k) ∷ es) = ground (arith, contains-layer_nodes n l es)

pub at_of_contains :
    (n : Text) (es : List (Text × ℕ)) → contains n (names es) ≡ true → (l : ℕ) × (at n l es ≡ true)
unfolding at contains
at_of_contains n [] c = absurd (cc c)
at_of_contains n ((m, k) ∷ es) c = elim (Bool-cases (text_eq n m)) [
  | inl t ↦ (k, ground (arith, t))
  | inr f ↦ (let (l, h) = at_of_contains n es (ground (arith, c, f)) in (l, ground (arith, h)))
]

pub at_of_below :
    (d : Text) (l : ℕ) (es : List (Text × ℕ))
    → below d l es ≡ true
    → (k : ℕ) × (at d k es ≡ true) × (k < l)
unfolding at below
at_of_below d l [] c = absurd (cc c)
at_of_below d l ((m, k) ∷ es) c = elim (Bool-cases (text_eq d m && ltb k l)) [
  | inl t ↦ (k, ground (arith, t), ground (arith, t))
  | inr f ↦
      (let (j, h, lt) = at_of_below d l es (ground (arith, c, f)) in (j, ground (arith, h), lt))
]

pub at-le : (n : Text) (l : ℕ) (es : List (Text × ℕ)) → at n l es ≡ true → l ≤ max_layer es
unfolding at max_layer
at-le n l [] c = absurd (cc c)
at-le n l ((m, k) ∷ es) c = ground (arith, c, at-le n l es)

filled : (n : Text) (xs : List Text) → contains n xs ≡ true → is_empty xs ≡ false
unfolding contains
filled n [] c = cc c
filled n (x ∷ xs) c = refl

-- `d` is in an earlier layer than `n`.
abbrev pub Precedes : Text → Text → List (List Text) → Type 0
Precedes d n [] = ⊥
Precedes d n (layer ∷ rest) =
    ((contains d layer ≡ true) × (contains n (concat rest) ≡ true)) ⊎ Precedes d n rest

module _ (ps : Programs) (placed : List (Text × ℕ)) where
  abbrev layer : ℕ → List Text
  layer lo = sort_by (starts_before ps) (layer_nodes lo placed)

  contains-layer : (n : Text) (lo : ℕ) → contains n (layer lo) ≡ at n lo placed
  contains-layer n lo =
      contains-sort_by (starts_before ps) n (layer_nodes lo placed)
      ∙ sym (contains-layer_nodes n lo placed)

  filled_layer :
      (n : Text) (lo : ℕ) → at n lo placed ≡ true → is_empty (layer_nodes lo placed) ≡ false
  filled_layer n lo h =
      filled n (layer_nodes lo placed) (sym (contains-layer_nodes n lo placed) ∙ h)

  -- A placed program is in the layers that are collected.
  pub collected :
      (n : Text) (l lo cnt : ℕ)
      → at n l placed ≡ true
      → lo ≤ l
      → l < lo + cnt
      → contains n (concat (collect_layers ps placed lo cnt)) ≡ true
  unfolding collect_layers
  collected n l lo zero h le lt = absurd (omega arith)
  collected n l lo (suc cnt) h le lt = elim (Bool-cases (l == lo)) [
    | inl t ↦
        let now : at n lo placed ≡ true = (rw (==_eq l lo t) at h) in
        rw (filled_layer n lo now) (
          ground (
            arith,
            contains-layer n lo,
            now,
            contains-append n (layer lo) (concat (collect_layers ps placed (lo + 1) cnt)),
          ))
    | inr f ↦ ground (
      arith,
      collected n l (lo + 1) cnt h (ground (arith, f, le)) (ground (arith, lt)),
      contains-append n (layer lo) (concat (collect_layers ps placed (lo + 1) cnt)),
    )
  ]

  pub precedes :
      (d n : Text) (k l lo cnt : ℕ)
      → at d k placed ≡ true
      → at n l placed ≡ true
      → lo ≤ k
      → k < l
      → l < lo + cnt
      → Precedes d n (collect_layers ps placed lo cnt)
  unfolding collect_layers
  precedes d n k l lo zero hd hn le lt fits = absurd (omega arith)
  precedes d n k l lo (suc cnt) hd hn le lt fits = elim (Bool-cases (k == lo)) [
    | inl t ↦
        let now : at d lo placed ≡ true = (rw (==_eq k lo t) at hd) in
        rw (filled_layer d lo now) (
          inl (
            contains-layer d lo ∙ now,
            collected n l (lo + 1) cnt hn (ground (arith, t, lt)) (ground (arith, fits)),
          ))
    | inr f ↦
        let later : Precedes d n (collect_layers ps placed (lo + 1) cnt) =
          precedes d n k l (lo + 1) cnt hd hn (ground (arith, f, le)) lt (ground (arith, fits)) in
        elim (Bool-cases (is_empty (layer_nodes lo placed))) [
          | inl e ↦ rw e later
          | inr e ↦ rw e (inr later)
        ]
  ]
