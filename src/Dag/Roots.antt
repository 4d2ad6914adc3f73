-- ===== src/Dag/Roots.antt =====
-- The queue at the start of Kahn's algorithm, and the algorithm as a whole.
use rsupervisord.Prelude.{
  ℕ, ◌≡◌, arith, true, List, [], ◌∷◌, Text, ◌==◌, length, Bool-cases, inl, inr,
}
use rsupervisord.Prelude.TextLaws.{text_eq_refl}
use rsupervisord.Dag.{Programs, contains, names, depends_of, roots, kahn}
use rsupervisord.Dag.Counts.{Distinct, contains-text_eq, missing-nil}
use rsupervisord.Dag.Kahn.{Steps, Ready, DepsBelow}
use rsupervisord.Dag.Loop.{Final, visit-Final, length-names}

roots-known :
    (n : Text) (ps : Programs) → contains n (names (roots ps)) ≡ true → contains n (names ps) ≡ true
unfolding roots contains
roots-known n [] c = c
roots-known n ((m, p) ∷ ps) c = ground (arith, c, roots-known n ps)

roots-Distinct : (ps : Programs) → Distinct (names ps) → Distinct (names (roots ps))
unfolding roots contains
roots-Distinct [] d = tt
roots-Distinct ((m, p) ∷ ps) d = elim (Bool-cases (length p.depends_on == 0)) [
  | inl t ↦ rw t (ground (arith, d.0, roots-known m ps), roots-Distinct ps d.1)
  | inr f ↦ rw f (roots-Distinct ps d.1)
]

-- The roots are the programs without dependencies.
roots_settled :
    (n : Text) (ps : Programs)
    → Distinct (names ps)
    → contains n (names (roots ps)) ≡ true
    → length (depends_of n ps) ≡ 0
unfolding roots contains depends_of
roots_settled n [] d c = cc
roots_settled n ((m, p) ∷ ps) d c =
    ground
      (arith, c, d.0, roots_settled n ps d.1, roots-known n ps, contains-text_eq n m (names ps))

roots_complete :
    (n : Text) (ps : Programs)
    → contains n (names ps) ≡ true
    → length (depends_of n ps) ≡ 0
    → contains n (names (roots ps)) ≡ true
unfolding roots contains depends_of
roots_complete n [] c z = c
roots_complete n ((m, p) ∷ ps) c z = ground (arith, c, z, roots_complete n ps)

roots-Steps : (ps : Programs) → Steps 0 1 (roots ps)
unfolding roots
roots-Steps [] = omega arith
roots-Steps ((m, p) ∷ ps) = ground (arith, roots-Steps ps)

Ready-roots :
    (ps : Programs) (es : List (Text × ℕ))
    → ((n : Text) → contains n (names es) ≡ true → length (depends_of n ps) ≡ 0)
    → Ready ps [] es
unfolding contains
Ready-roots ps [] h = tt
Ready-roots ps ((n, l) ∷ es) h = (
  no_deps (depends_of n ps) (h n (ground (arith, text_eq_refl n))),
  Ready-roots ps es (λ m c. h m (ground (arith, c))),
)
  where
    no_deps : (ds : List Text) → length ds ≡ 0 → DepsBelow [] l ds
    no_deps [] z = tt
    no_deps (d ∷ ds) z = absurd (omega (arith, z))

pub kahn-Final : (ps : Programs) → Distinct (names ps) → Final ps (kahn ps)
unfolding kahn
kahn-Final ps d =
    visit-Final (length ps) ps _ (roots ps) [] 0 d (omega (arith, length-names ps)) (record {
      degrees = λ n. omega (arith, missing-nil (depends_of n ps));
      distinct = roots-Distinct ps d;
      settled = λ n c. roots_settled n ps d c;
      known = λ n c. roots-known n ps c;
      complete = λ n c z. roots_complete n ps c z;
      steps = roots-Steps ps;
      low = tt;
      ready = Ready-roots ps (roots ps) (λ n c. roots_settled n ps d c);
      within = tt;
    })
