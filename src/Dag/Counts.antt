-- ===== src/Dag/Counts.antt =====
-- Occurrences of names in lists, and how many dependencies are not placed yet.
use rsupervisord.Prelude.{
  ℕ, suc, ◌+◌, ◌≤◌, ◌≡◌, refl, sym, ap, arith, true, false, ◌||◌, List, [], ◌∷◌, ◌++◌, Text,
  text_eq, if◌then◌else◌, length, Bool-cases, inl, inr, All, All-append,
}
use rsupervisord.Prelude.TextLaws.{text_eq_comm, eq_of_text_eq, text_eq_refl}
use rsupervisord.Dag.{Programs, contains, names, depends_of, neighbors_of, adj}

-- The times that `x` stands in a list.
abbrev pub count : Text → List Text → ℕ
count x [] = 0
count x (y ∷ ys) = let rest = count x ys in if text_eq x y then suc rest else rest

-- How many of the names are not among `seen`.
unfoldable pub missing : (seen : List Text) → List Text → ℕ
unfolding contains
missing seen [] = 0
missing seen (d ∷ ds) = let rest = missing seen ds in if contains d seen then rest else suc rest

abbrev pub Distinct : List Text → Type 0
Distinct [] = Unit
Distinct (x ∷ xs) = (contains x xs ≡ false) × Distinct xs

pub names-append {ℓ} :
    {A : Type ℓ} (xs ys : List (Text × A)) → names (xs ++ ys) ≡ names xs ++ names ys
names-append [] ys = refl
names-append ((n, a) ∷ xs) ys = ap (λ l. n ∷ l) (names-append xs ys)

pub contains-append :
    (x : Text) (xs ys : List Text) → contains x (xs ++ ys) ≡ (contains x xs || contains x ys)
unfolding contains
contains-append x [] ys = refl
contains-append x (y ∷ xs) ys = ground (arith, contains-append x xs ys)

pub contains-text_eq :
    (x y : Text) (xs : List Text) → text_eq x y ≡ true → contains x xs ≡ contains y xs
contains-text_eq x y xs e = ap (λ z. contains z xs) (eq_of_text_eq x y e)

pub Distinct-snoc :
    (xs : List Text) (x : Text) → Distinct xs → contains x xs ≡ false → Distinct (xs ++ x ∷ [])
unfolding contains
Distinct-snoc [] x d new = (refl, tt)
Distinct-snoc (y ∷ xs) x d new = (
  ground (arith, new, d.0, contains-append y xs (x ∷ []), text_eq_comm x y),
  Distinct-snoc xs x d.1 (ground (arith, new)),
)

count-append : (x : Text) (xs ys : List Text) → count x (xs ++ ys) ≡ count x xs + count x ys
count-append x [] ys = omega arith
count-append x (y ∷ xs) ys = ground (arith, count-append x xs ys)

count-neighbors_of :
    (n u name : Text) (deps : List Text)
    → count n (neighbors_of u name deps) ≡ (if text_eq n name then count u deps else 0)
unfolding neighbors_of
count-neighbors_of n u name [] = ground arith
count-neighbors_of n u name (d ∷ deps) =
    ground (arith, count-neighbors_of n u name deps, text_eq_comm d u)

count-adj_absent :
    (n u : Text) (ps : Programs) → contains n (names ps) ≡ false → count n (adj u ps) ≡ 0
unfolding adj contains
count-adj_absent n u [] new = refl
count-adj_absent n u ((m, c) ∷ ps) new = ground (
  arith,
  new,
  count-append n (neighbors_of u m c.depends_on) (adj u ps),
  count-neighbors_of n u m c.depends_on,
  count-adj_absent n u ps,
)

-- The neighbors of `u` name each program as often as it depends on `u`.
pub count-adj :
    (n u : Text) (ps : Programs)
    → Distinct (names ps)
    → count n (adj u ps) ≡ count u (depends_of n ps)
unfolding adj depends_of
count-adj n u [] d = refl
count-adj n u ((m, c) ∷ ps) d = ground (
  arith,
  count-append n (neighbors_of u m c.depends_on) (adj u ps),
  count-neighbors_of n u m c.depends_on,
  count-adj n u ps d.1,
  count-adj_absent n u ps,
  contains-text_eq n m (names ps),
  d.0,
)

pub missing-nil : (ds : List Text) → missing [] ds ≡ length ds
unfolding missing
missing-nil [] = refl
missing-nil (d ∷ ds) = ap suc (missing-nil ds)

pub missing-snoc :
    (seen : List Text) (u : Text) (ds : List Text)
    → contains u seen ≡ false
    → missing seen ds ≡ missing (seen ++ u ∷ []) ds + count u ds
unfolding missing contains
missing-snoc seen u [] new = omega arith
missing-snoc seen u (d ∷ ds) new = ground (
  arith,
  new,
  missing-snoc seen u ds new,
  contains-append d seen (u ∷ []),
  text_eq_comm u d,
  contains-text_eq d u seen,
)

pub missing-zero :
    (seen ds : List Text) → missing seen ds ≡ 0 → All (λ d. contains d seen ≡ true) ds
unfolding missing
missing-zero seen [] z = tt
missing-zero seen (d ∷ ds) z = (ground (arith, z), missing-zero seen ds (ground (arith, z)))

pub Distinct-left :
    (xs : List Text) (y : Text) (ys : List Text) → Distinct (xs ++ y ∷ ys) → contains y xs ≡ false
unfolding contains
Distinct-left [] y ys d = refl
Distinct-left (x ∷ xs) y ys d =
    ground (arith, d.0, Distinct-left xs y ys d.1, contains-append x xs (y ∷ ys), text_eq_comm x y)

neighbors_of-All :
    (u name : Text) (deps : List Text) (known : List Text)
    → contains name known ≡ true
    → All (λ n. contains n known ≡ true) (neighbors_of u name deps)
unfolding neighbors_of
neighbors_of-All u name [] known c = tt
neighbors_of-All u name (d ∷ deps) known c = elim (Bool-cases (text_eq d u)) [
  | inl t ↦ rw t (c, neighbors_of-All u name deps known c)
  | inr f ↦ rw f (neighbors_of-All u name deps known c)
]

All-known :
    (m : Text) (known ns : List Text)
    → All (λ n. contains n known ≡ true) ns
    → All (λ n. contains n (m ∷ known) ≡ true) ns
unfolding contains
All-known m known [] a = tt
All-known m known (n ∷ ns) a = (ground (arith, a.0), All-known m known ns a.1)

pub adj-All : (u : Text) (ps : Programs) → All (λ n. contains n (names ps) ≡ true) (adj u ps)
unfolding adj
adj-All u [] = tt
adj-All u ((m, c) ∷ ps) =
    All-append (λ n. contains n (m ∷ names ps) ≡ true) (neighbors_of u m c.depends_on) (adj u ps)
      (neighbors_of-All u m c.depends_on (m ∷ names ps)
        (unfold contains in ground (arith, text_eq_refl m)))
      (All-known m (names ps) (adj u ps) (adj-All u ps))

remove : Text → List Text → List Text
remove x [] = []
remove x (y ∷ ys) = let rest = remove x ys in if text_eq x y then ys else y ∷ rest

length-remove :
    (x : Text) (ys : List Text) → contains x ys ≡ true → length ys ≡ suc (length (remove x ys))
unfolding remove contains
length-remove x [] c = cc
length-remove x (y ∷ ys) c = ground (arith, c, length-remove x ys)

contains-remove :
    (n x : Text) (ys : List Text)
    → text_eq n x ≡ false
    → contains n ys ≡ true
    → contains n (remove x ys) ≡ true
unfolding remove contains
contains-remove n x [] ne c = cc
contains-remove n x (y ∷ ys) ne c = ground (arith, ne, c, contains-remove n x ys ne, same)
  where
    same : text_eq x y ≡ true → text_eq n y ≡ text_eq n x
    same e = ap (text_eq n) (sym (eq_of_text_eq x y e))

-- A list of distinct names that are all in `ys` is no longer than `ys`.
pub length-le :
    (xs ys : List Text)
    → Distinct xs
    → ((n : Text) → contains n xs ≡ true → contains n ys ≡ true)
    → length xs ≤ length ys
length-le [] ys d sub = omega arith
length-le (x ∷ xs) ys d sub =
    let here : contains x ys ≡ true = sub x (unfold contains in ground (arith, text_eq_refl x)) in
    omega (arith, length-remove x ys here, length-le xs (remove x ys) d.1 rest)
  where
    rest : (n : Text) → contains n xs ≡ true → contains n (remove x ys) ≡ true
    rest n c = contains-remove n x ys (apart n c) (sub n (unfold contains in ground (arith, c)))
      where
        apart : (n : Text) → contains n xs ≡ true → text_eq n x ≡ false
        apart n c = elim (Bool-cases (text_eq n x)) [
          | inl t ↦ absurd (ground (arith, c, d.0, contains-text_eq n x xs t))
          | inr f ↦ f
        ]

-- If it is as long, every name of `ys` is in it.
pub contains_all :
    (xs ys : List Text)
    → Distinct xs
    → ((n : Text) → contains n xs ≡ true → contains n ys ≡ true)
    → length ys ≤ length xs
    → (y : Text) → contains y ys ≡ true
    → contains y xs ≡ true
contains_all xs ys d sub long y c = elim (Bool-cases (contains y xs)) [
  | inl t ↦ t
  | inr f ↦ absurd (omega (arith, long, length-le (y ∷ xs) ys (f, d) more))
]
  where
    more : (n : Text) → contains n (y ∷ xs) ≡ true → contains n ys ≡ true
    more n h =
        unfold contains in
        elim (Bool-cases (text_eq n y)) [
          | inl t ↦ ground (arith, c, contains-text_eq n y ys t)
          | inr f ↦ sub n (ground (arith, h, f))
        ]
