-- ===== src/Dag/Complete.antt =====
-- When `DependencyGraph::build` succeeds.
use rsupervisord.Prelude.{
  ℕ, zero, suc, ◌<◌, ◌≡◌, refl, ap, ◌∙◌, arith, Bool, true, false, none, List, [], ◌∷◌, ◌++◌,
  append-nil, Text, text_eq, length, Bool-cases, inl, inr,
}
use rsupervisord.Prelude.TextLaws.{eq_of_text_eq, text_eq_refl}
use rsupervisord.Dag.{
  Programs, contains, names, depends_of, kahn, BuildResult, unknown_in, find_unknown, graph_of,
  build,
}
use rsupervisord.Dag.Counts.{Distinct, missing, length-le}
use rsupervisord.Dag.Loop.{Final, length-names}
use rsupervisord.Dag.Roots.{kahn-Final}

-- Every program has a rank above those of its dependencies.
abbrev pub Ranked : Programs → (Text → ℕ) → Type 0
Ranked ps rank = (n d : Text) → contains d (depends_of n ps) ≡ true → rank d < rank n

missing_none :
    (seen ds : List Text)
    → ((d : Text) → contains d ds ≡ true → contains d seen ≡ true)
    → missing seen ds ≡ 0
unfolding missing contains
missing_none seen [] all = refl
missing_none seen (d ∷ ds) all = ground (
  arith,
  all d (ground (arith, text_eq_refl d)),
  missing_none seen ds (λ x c. all x (ground (arith, c))),
)

unknown_in-none :
    (known ds : List Text) (d : Text)
    → unknown_in known ds ≡ none
    → contains d ds ≡ true
    → contains d known ≡ true
unfolding unknown_in contains
unknown_in-none known [] d h c = absurd (cc c)
unknown_in-none known (x ∷ ds) d h c = elim (Bool-cases (text_eq d x)) [
  | inl t ↦ ap (λ z. contains z known) (eq_of_text_eq d x t) ∙ ground (arith, h)
  | inr f ↦ unknown_in-none known ds d (ground (arith, h)) (ground (arith, c, f))
]

-- No unknown dependency: every dependency is a program.
find_unknown-none :
    (known : List Text) (ps : Programs) (n d : Text)
    → find_unknown known ps ≡ none
    → contains d (depends_of n ps) ≡ true
    → contains d known ≡ true
unfolding find_unknown depends_of
find_unknown-none known [] n d h c = unfold contains in absurd (cc c)
find_unknown-none known ((m, p) ∷ ps) n d h c = elim (Bool-cases (text_eq n m)) [
  | inl t ↦ unknown_in-none known p.depends_on d (ground (arith, h)) (ground (arith, c, t))
  | inr f ↦ find_unknown-none known ps n d (ground (arith, h)) (ground (arith, c, f))
]

module _ (ps : Programs) (rank : Text → ℕ) (ranked : Ranked ps rank) (d : Distinct (names ps))
    (all_known : find_unknown (names ps) ps ≡ none) where
  final : Final ps (kahn ps)
  final = kahn-Final ps d

  same : names (kahn ps ++ []) ≡ names (kahn ps)
  same = ap names (append-nil (kahn ps))

  placed_below :
      (r : ℕ) (n : Text)
      → rank n < r
      → contains n (names ps) ≡ true
      → contains n (names (kahn ps)) ≡ true
  placed_below zero n lt c = absurd (omega arith)
  placed_below (suc r) n lt c =
      let none_missing : missing (names (kahn ps)) (depends_of n ps) ≡ 0 =
        missing_none (names (kahn ps)) (depends_of n ps) (λ x dep.
          placed_below r x (omega (arith, ranked n x dep))
            (find_unknown-none (names ps) ps n x all_known dep)) in
      rw same at
        (final.invariant.complete n c (omega (arith, none_missing, final.invariant.degrees n)))

  length-kahn : length (kahn ps) ≡ length ps
  length-kahn =
      let some_way =
        length-le (names ps) (names (kahn ps)) d
          (λ n c. placed_below (suc (rank n)) n (omega arith) c) in
      let other_way =
        length-le (names (kahn ps)) (names ps) (rw same at final.invariant.distinct)
          (λ n c. final.invariant.known n (rw same c)) in
      omega (arith, some_way, other_way, length-names ps, length-names (kahn ps))

  -- Programs with distinct names and known dependencies, in which every program ranks above its
  -- dependencies and for which the cycle test says no, always build a graph: the loop over the
  -- queue places all of them within its fuel.
  pub build_ranked :
      (is_cyclic : Programs → Bool)
      → is_cyclic ps ≡ false
      → build is_cyclic ps ≡ BuildResult.ok (graph_of ps (kahn ps))
  unfolding build
  build_ranked is_cyclic acyclic = ground (arith, all_known, acyclic, length-kahn)
