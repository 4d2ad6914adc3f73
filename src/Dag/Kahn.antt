-- ===== src/Dag/Kahn.antt =====
-- The invariant of Kahn's algorithm: what is placed and what waits in the queue.
use rsupervisord.Prelude.{
  ℕ, ◌+◌, ◌≤◌, ◌≡◌, arith, Bool, true, false, ◌&&◌, ◌||◌, List, [], ◌∷◌, ◌++◌, Text, text_eq, ltb,
  All,
}
use rsupervisord.Dag.{Programs, contains, names, depends_of}
use rsupervisord.Dag.Counts.{count, missing, Distinct, missing-zero}

-- `d` is placed in a layer before `l`.
unfoldable pub below : Text → ℕ → List (Text × ℕ) → Bool
below d l [] = false
below d l ((n, k) ∷ es) = (text_eq d n && ltb k l) || below d l es

-- The layers of the queue rise, between `lo` and `hi`.
abbrev pub Steps : (lo hi : ℕ) → List (Text × ℕ) → Type 0
Steps lo hi [] = lo ≤ hi
Steps lo hi ((n, l) ∷ es) = (lo ≤ l) × Steps l hi es

pub Steps-snoc :
    (lo hi : ℕ) (es : List (Text × ℕ)) (n : Text)
    → Steps lo hi es
    → Steps lo hi (es ++ (n, hi) ∷ [])
Steps-snoc lo hi [] n s = (s, omega arith)
Steps-snoc lo hi ((m, l) ∷ es) n s = (s.0, Steps-snoc l hi es n s.1)

pub Steps-le : (lo hi : ℕ) (es : List (Text × ℕ)) → Steps lo hi es → lo ≤ hi
Steps-le lo hi [] s = s
Steps-le lo hi ((m, l) ∷ es) s = omega (arith, s.0, Steps-le l hi es s.1)

pub Steps-up : (lo hi hi' : ℕ) (es : List (Text × ℕ)) → hi ≤ hi' → Steps lo hi es → Steps lo hi' es
Steps-up lo hi hi' [] le s = omega (arith, s)
Steps-up lo hi hi' ((m, l) ∷ es) le s = (s.0, Steps-up l hi hi' es le s.1)

below-append :
    (d : Text) (l : ℕ) (xs ys : List (Text × ℕ)) → below d l xs ≡ true → below d l (xs ++ ys) ≡ true
unfolding below
below-append d l [] ys b = cc
below-append d l ((n, k) ∷ xs) ys b = ground (arith, b, below-append d l xs ys)

below-contains :
    (d : Text) (l : ℕ) (es : List (Text × ℕ))
    → All (λ e. e.1 ≤ l) es
    → contains d (names es) ≡ true
    → below d (l + 1) es ≡ true
unfolding below contains
below-contains d l [] low c = cc
below-contains d l ((n, k) ∷ es) low c = ground (arith, c, low.0, below-contains d l es low.1)

pub All-up :
    (l l' : ℕ) (es : List (Text × ℕ)) → l ≤ l' → All (λ e. e.1 ≤ l) es → All (λ e. e.1 ≤ l') es
All-up l l' [] le a = tt
All-up l l' (e ∷ es) le a = (omega (arith, a.0), All-up l l' es le a.1)

-- All dependencies are placed before layer `l`.
abbrev pub DepsBelow : (placed : List (Text × ℕ)) (l : ℕ) → List Text → Type 0
DepsBelow placed l [] = Unit
DepsBelow placed l (d ∷ ds) = (below d l placed ≡ true) × DepsBelow placed l ds

DepsBelow-append :
    (xs ys : List (Text × ℕ)) (l : ℕ) (ds : List Text)
    → DepsBelow xs l ds
    → DepsBelow (xs ++ ys) l ds
DepsBelow-append xs ys l [] b = tt
DepsBelow-append xs ys l (d ∷ ds) b = (below-append d l xs ys b.0, DepsBelow-append xs ys l ds b.1)

abbrev pub Ready : Programs → (placed : List (Text × ℕ)) → List (Text × ℕ) → Type 0
Ready ps placed [] = Unit
Ready ps placed ((n, l) ∷ es) = DepsBelow placed l (depends_of n ps) × Ready ps placed es

pub Ready-append :
    (ps : Programs) (xs ys es : List (Text × ℕ)) → Ready ps xs es → Ready ps (xs ++ ys) es
Ready-append ps xs ys [] r = tt
Ready-append ps xs ys ((n, l) ∷ es) r =
    (DepsBelow-append xs ys l (depends_of n ps) r.0, Ready-append ps xs ys es r.1)

pub Ready-snoc :
    (ps : Programs) (placed es : List (Text × ℕ)) (n : Text) (l : ℕ)
    → Ready ps placed es
    → DepsBelow placed l (depends_of n ps)
    → Ready ps placed (es ++ (n, l) ∷ [])
Ready-snoc ps placed [] n l r b = (b, tt)
Ready-snoc ps placed ((m, k) ∷ es) n l r b = (r.0, Ready-snoc ps placed es n l r.1 b)

pub deps_ready :
    (placed : List (Text × ℕ)) (l : ℕ) (ds : List Text)
    → All (λ e. e.1 ≤ l) placed
    → missing (names placed) ds ≡ 0
    → DepsBelow placed (l + 1) ds
deps_ready placed l ds low z = go ds (missing-zero (names placed) ds z)
  where
    go :
        (ds : List Text)
        → All (λ d. contains d (names placed) ≡ true) ds
        → DepsBelow placed (l + 1) ds
    go [] a = tt
    go (d ∷ ds) a = (below-contains d l placed low a.0, go ds a.1)

-- `rest` are the neighbors of the last placed program that have still to be visited.
pub record Invariant (ps : Programs) (in_degrees : Text → ℕ) (placed queue : List (Text × ℕ))
    (l : ℕ) (rest : List Text) : Type 0 where
  pub degrees : (n : Text) → in_degrees n ≡ missing (names placed) (depends_of n ps) + count n rest
  pub distinct : Distinct (names (placed ++ queue))
  pub settled : (n : Text) → contains n (names (placed ++ queue)) ≡ true → in_degrees n ≡ 0
  pub known :
      (n : Text) → contains n (names (placed ++ queue)) ≡ true → contains n (names ps) ≡ true
  pub complete :
      (n : Text)
      → contains n (names ps) ≡ true
      → in_degrees n ≡ 0
      → contains n (names (placed ++ queue)) ≡ true
  pub steps : Steps l (l + 1) queue
  pub low : All (λ e. e.1 ≤ l) placed
  pub ready : Ready ps placed (placed ++ queue)
  pub within : All (λ n. contains n (names ps) ≡ true) rest
