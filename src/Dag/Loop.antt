-- ===== src/Dag/Loop.antt =====
-- The loops of Kahn's algorithm: one neighbor, one turn of the queue, and the whole queue.
use rsupervisord.Prelude.{
  ℕ, zero, suc, ◌+◌, ◌≤◌, ◌<◌, ◌≡◌, refl, sym, ap, ◌∙◌, arith, true, false, List, [], ◌∷◌, ◌++◌,
  append_assoc, Text, text_eq, ◌==◌, if◌then◌else◌, length, length-append, Bool-cases, inl, inr,
  ◌⊎◌, All-append,
}
use rsupervisord.Prelude.TextLaws.{eq_of_text_eq, text_eq_refl}
use rsupervisord.Dag.{Programs, contains, names, depends_of, adj, decrement, relax, visit}
use rsupervisord.Dag.Counts.{
  count, missing, Distinct, names-append, contains-append, Distinct-snoc, Distinct-left, adj-All,
  length-le, count-adj, missing-snoc,
}
use rsupervisord.Dag.Kahn.{
  Invariant, Steps-snoc, Steps-up, Ready-append, Ready-snoc, deps_ready, All-up,
}

pub length-names {ℓ} : {A : Type ℓ} (es : List (Text × A)) → length (names es) ≡ length es
length-names [] = refl
length-names ((n, a) ∷ es) = ap suc (length-names es)

names-push :
    (xs ys : List (Text × ℕ)) (n : Text) (l : ℕ)
    → names (xs ++ (ys ++ (n, l) ∷ [])) ≡ names (xs ++ ys) ++ n ∷ []
names-push xs ys n l =
    ap names (sym (append_assoc xs ys ((n, l) ∷ []))) ∙ names-append (xs ++ ys) ((n, l) ∷ [])

contains-snoc :
    (n m : Text) (xs : List Text)
    → contains n (xs ++ m ∷ []) ≡ true
    → (contains n xs ≡ true) ⊎ (n ≡ m)
unfolding contains
contains-snoc n m xs c = elim (Bool-cases (contains n xs)) [
  | inl t ↦ inl t
  | inr f ↦ inr (eq_of_text_eq n m (ground (arith, f, c, contains-append n xs (m ∷ []))))
]

contains_last :
    (n m : Text) (xs : List Text) → text_eq n m ≡ true → contains n (xs ++ m ∷ []) ≡ true
unfolding contains
contains_last n m xs e = ground (arith, e, contains-append n xs (m ∷ []))

contains_first :
    (n m : Text) (xs : List Text) → contains n xs ≡ true → contains n (xs ++ m ∷ []) ≡ true
contains_first n m xs c = ground (arith, c, contains-append n xs (m ∷ []))

module _ {ps : Programs} {deg : Text → ℕ} {placed queue : List (Text × ℕ)} {l : ℕ} (m : Text)
    {ms : List Text} (i : Invariant ps deg placed queue l (m ∷ ms)) where
  abbrev all_names : List Text
  all_names = names (placed ++ queue)

  positive : 0 < deg m
  positive = ground (arith, i.degrees m, text_eq_refl m)

  unseen : contains m all_names ≡ false
  unseen = ground (arith, i.settled m, positive)

  degrees_one :
      (n : Text) → decrement deg m n ≡ missing (names placed) (depends_of n ps) + count n ms
  unfolding decrement
  degrees_one n = ground (arith, i.degrees n)

  settled_one : (n : Text) → contains n all_names ≡ true → decrement deg m n ≡ 0
  unfolding decrement
  settled_one n c = ground (arith, i.settled n c)

  complete_one :
      (n : Text)
      → text_eq n m ≡ false
      → contains n (names ps) ≡ true
      → decrement deg m n ≡ 0
      → contains n all_names ≡ true
  unfolding decrement
  complete_one n ne c z = i.complete n c (ground (arith, ne, z))

  at_m : (n : Text) → text_eq n m ≡ true → decrement deg m n ≡ decrement deg m m
  at_m n e = ap (decrement deg m) (eq_of_text_eq n m e)

  stay : (decrement deg m m == 0) ≡ false → Invariant ps (decrement deg m) placed queue l ms
  stay left = record {
    complete = λ n c z. elim (Bool-cases (text_eq n m)) [
      | inl t ↦ absurd (ground (arith, left, z, at_m n t))
      | inr f ↦ complete_one n f c z
    ];
    degrees = degrees_one;
    distinct = i.distinct;
    settled = settled_one;
    known = i.known;
    steps = i.steps;
    low = i.low;
    ready = i.ready;
    within = i.within.1;
  }

  push :
      decrement deg m m ≡ 0 → Invariant ps (decrement deg m) placed (queue ++ (m, l + 1) ∷ []) l ms
  push z =
      let named = names-push placed queue m (l + 1) in
      record {
        complete = λ n c zero_n. rw named (elim (Bool-cases (text_eq n m)) [
          | inl t ↦ contains_last n m all_names t
          | inr f ↦ contains_first n m all_names (complete_one n f c zero_n)
        ]);
        degrees = degrees_one;
        distinct = rw named (Distinct-snoc all_names m i.distinct unseen);
        settled = λ n c. elim (contains-snoc n m all_names (rw named at c)) [
          | inl old ↦ settled_one n old
          | inr e ↦ rw e z
        ];
        known = λ n c. elim (contains-snoc n m all_names (rw named at c)) [
          | inl old ↦ i.known n old
          | inr e ↦ rw e i.within.0
        ];
        steps = Steps-snoc l (l + 1) queue m i.steps;
        low = i.low;
        ready = rw (← append_assoc placed queue ((m, l + 1) ∷ [])) (
            Ready-snoc ps placed (placed ++ queue) m (l + 1) i.ready
              (deps_ready placed l (depends_of m ps) i.low (omega (arith, z, degrees_one m))));
        within = i.within.1;
      }

relax-Invariant :
    {ps : Programs} {placed : List (Text × ℕ)} (l : ℕ) (ms : List Text) (deg : Text → ℕ)
    (queue : List (Text × ℕ))
    → Invariant ps deg placed queue l ms
    → Invariant ps (relax ms l deg queue).0 placed (relax ms l deg queue).1 l []
unfolding relax
relax-Invariant l [] deg queue i = i
relax-Invariant {ps} {placed} l (m ∷ ms) deg queue i = relax-Invariant l ms (decrement deg m) _ one
  where
    one :
        Invariant ps
          (decrement deg m)
          placed
          (if decrement deg m m == 0 then queue ++ (m, l + 1) ∷ [] else queue)
          l
          ms
    one = elim (Bool-cases (decrement deg m m == 0)) [
      | inl t ↦ rw t (push m i (ground (arith, t)))
      | inr f ↦ rw f (stay m i f)
    ]

pop-Invariant :
    (ps : Programs) (deg : Text → ℕ) (placed queue : List (Text × ℕ)) (node : Text) (k l : ℕ)
    → Distinct (names ps)
    → Invariant ps deg placed ((node, k) ∷ queue) l []
    → Invariant ps deg (placed ++ (node, k) ∷ []) queue k (adj node ps)
pop-Invariant ps deg placed queue node k l distinct_ps i =
    let again = append_assoc placed ((node, k) ∷ []) queue in
    let named = names-append placed ((node, k) ∷ []) in
    let all_named = names-append placed ((node, k) ∷ queue) in
    let new : contains node (names placed) ≡ false =
      Distinct-left (names placed) node (names queue) (rw all_named at i.distinct) in
    record {
      degrees = λ n. rw named (
          omega (
            arith,
            i.degrees n,
            missing-snoc (names placed) node (depends_of n ps) new,
            count-adj n node ps distinct_ps,
          ));
      distinct = rw again i.distinct;
      settled = λ n c. i.settled n (rw again at c);
      complete = λ n c z. rw again (i.complete n c z);
      known = λ n c. i.known n (rw again at c);
      steps = Steps-up k (l + 1) (k + 1) queue (omega (arith, i.steps.0)) i.steps.1;
      low =
          All-append (λ e. e.1 ≤ k) placed ((node, k) ∷ []) (All-up l k placed i.steps.0 i.low)
            (omega arith, tt);
      ready =
          rw again (Ready-append ps placed ((node, k) ∷ []) (placed ++ (node, k) ∷ queue) i.ready);
      within = adj-All node ps;
    }

-- Nothing waits any more.
pub record Final (ps : Programs) (placed : List (Text × ℕ)) : Type 0 where
  pub in_degrees : Text → ℕ
  pub last : ℕ
  pub invariant : Invariant ps in_degrees placed [] last []

pub visit-Final :
    (fuel : ℕ) (ps : Programs) (deg : Text → ℕ) (queue placed : List (Text × ℕ)) (l : ℕ)
    → Distinct (names ps)
    → length (names ps) ≡ length placed + fuel
    → Invariant ps deg placed queue l []
    → Final ps (visit fuel ps deg queue placed)
unfolding visit
visit-Final zero ps deg [] placed l d enough i = record {
  in_degrees = deg;
  last = l;
  invariant = i;
}
visit-Final zero ps deg ((node, k) ∷ queue) placed l d enough i = absurd (
    omega (
      arith,
      enough,
      length-le (names (placed ++ (node, k) ∷ queue)) (names ps) i.distinct i.known,
      length-names (placed ++ (node, k) ∷ queue),
      length-append placed ((node, k) ∷ queue),
    ))
visit-Final (suc fuel) ps deg [] placed l d enough i = record {
  in_degrees = deg;
  last = l;
  invariant = i;
}
visit-Final (suc fuel) ps deg ((node, k) ∷ queue) placed l d enough i =
    visit-Final fuel ps _ _ (placed ++ (node, k) ∷ []) k d
      (omega (arith, enough, length-append placed ((node, k) ∷ [])))
      (relax-Invariant k (adj node ps) deg queue (pop-Invariant ps deg placed queue node k l d i))
