-- ===== src/Dag/Dependents.antt =====
-- src/manager/dag.rs: `DependencyGraph::get_dependents`.
use rsupervisord.Prelude.{
  ℕ, zero, suc, ◌+◌, ◌≡◌, ◌⊎◌, inl, inr, refl, sym, arith, true, not, ◌&&◌, List, [], ◌∷◌, ◌++◌,
  append-nil, Text, text_eq, length, length-append, Bool-cases,
}
use rsupervisord.Prelude.TextLaws.{eq_of_text_eq, text_eq_refl}
use rsupervisord.Dag.{Programs, contains, names, add_dependents, spread, get_dependents}
use rsupervisord.Dag.Counts.{Distinct, contains-append, length-le}
use rsupervisord.Dag.Loop.{length-names}

-- Every program that depends on `x` is among `ns`.
abbrev pub Covers : Programs → Text → List Text → Type 0
Covers [] x ns = Unit
Covers ((name, c) ∷ ps) x ns =
    (contains x c.depends_on ≡ true → contains name ns ≡ true) × Covers ps x ns

Covers-mono :
    (ps : Programs) (x : Text) (ns ms : List Text)
    → ((n : Text) → contains n ns ≡ true → contains n ms ≡ true)
    → Covers ps x ns
    → Covers ps x ms
Covers-mono [] x ns ms sub c = tt
Covers-mono ((name, p) ∷ ps) x ns ms sub c = (λ h. sub name (c.0 h), Covers-mono ps x ns ms sub c.1)

-- Program `n` depends on `x`.
abbrev pub Depends : Programs → Text → Text → Type 0
Depends [] n x = ⊥
Depends ((name, c) ∷ ps) n x = ((n ≡ name) × (contains x c.depends_on ≡ true)) ⊎ Depends ps n x

-- Program `n` depends on `target`, directly or through others.
pub data Reaches (ps : Programs) (target : Text) : Text → Type 0 where
  direct : {n : Text} → Depends ps n target → Reaches ps target n
  through : {n : Text} → (m : Text) → Depends ps n m → Reaches ps target m → Reaches ps target n

-- What the loop over (a part of) the programs does.
record Added (ps : Programs) (current : Text) (deps queue deps' queue' : List Text) : Type 0 where
  grows : (n : Text) → contains n deps ≡ true → contains n deps' ≡ true
  covers : Covers ps current deps'
  kept : (n : Text) → contains n queue ≡ true → contains n queue' ≡ true
  queued :
      (n : Text) → contains n deps' ≡ true → (contains n deps ≡ true) ⊎ (contains n queue' ≡ true)
  same_length : length deps' + length queue ≡ length deps + length queue'
  distinct : Distinct deps → Distinct deps'
  fresh : (n : Text) → contains n deps' ≡ true → (contains n deps ≡ true) ⊎ Depends ps n current
  pushed : (n : Text) → contains n queue' ≡ true → (contains n queue ≡ true) ⊎ Depends ps n current
  known :
      (n : Text)
      → contains n deps' ≡ true
      → (contains n deps ≡ true) ⊎ (contains n (names ps) ≡ true)

add_dependents-Added :
    (ps : Programs) (current : Text) (deps queue : List Text)
    → Added ps current deps queue
        (add_dependents ps current deps queue).0
        (add_dependents ps current deps queue).1
unfolding add_dependents contains
add_dependents-Added [] current deps queue = record {
  grows = λ n h. h;
  covers = tt;
  kept = λ n h. h;
  queued = λ n h. inl h;
  same_length = refl;
  distinct = λ d. d;
  fresh = λ n h. inl h;
  pushed = λ n h. inl h;
  known = λ n h. inl h;
}
add_dependents-Added ((name, c) ∷ ps) current deps queue =
    elim (Bool-cases (contains current c.depends_on && not (contains name deps))) [
      | inl t ↦
          let i = add_dependents-Added ps current (name ∷ deps) (queue ++ name ∷ []) in
          rw t (record {
            grows = λ n h. i.grows n (ground (arith, h));
            covers = (λ h. i.grows name (ground (arith, text_eq_refl name)), i.covers);
            kept = λ n h. i.kept n (ground (arith, h, contains-append n queue (name ∷ [])));
            queued =
                λ n h. ground (arith, i.queued n h, i.kept n, contains-append n queue (name ∷ []));
            same_length = omega (arith, i.same_length, length-append queue (name ∷ []));
            distinct = λ d. i.distinct (ground (arith, t), d);
            fresh = λ n h. with_name n deps (ground (arith, t)) (split n deps (i.fresh n h));
            pushed =
                λ n h. with_name n queue (ground (arith, t)) (split_back n queue (i.pushed n h));
            known = λ n h. ground (arith, i.known n h);
          })
      | inr f ↦
          let i = add_dependents-Added ps current deps queue in
          rw f (record {
            grows = i.grows;
            covers = (λ h. i.grows name (ground (arith, f, h)), i.covers);
            kept = i.kept;
            queued = i.queued;
            same_length = i.same_length;
            distinct = i.distinct;
            fresh = λ n h. elim (i.fresh n h) [ inl o ↦ inl o | inr d ↦ inr (inr d) ];
            pushed = λ n h. elim (i.pushed n h) [ inl o ↦ inl o | inr d ↦ inr (inr d) ];
            known = λ n h. ground (arith, i.known n h);
          })
    ]
  where
    Old : Text → List Text → Type 0
    Old n xs = ((contains n xs ≡ true) ⊎ (n ≡ name)) ⊎ Depends ps n current

    split :
        (n : Text) (xs : List Text)
        → (contains n (name ∷ xs) ≡ true) ⊎ Depends ps n current
        → Old n xs
    split n xs (inr d) = inr d
    split n xs (inl h) = elim (Bool-cases (text_eq n name)) [
      | inl e ↦ inl (inr (eq_of_text_eq n name e))
      | inr f ↦ inl (inl (ground (arith, h, f)))
    ]

    split_back :
        (n : Text) (xs : List Text)
        → (contains n (xs ++ name ∷ []) ≡ true) ⊎ Depends ps n current
        → Old n xs
    split_back n xs (inr d) = inr d
    split_back n xs (inl h) = elim (Bool-cases (text_eq n name)) [
      | inl e ↦ inl (inr (eq_of_text_eq n name e))
      | inr f ↦ inl (inl (ground (arith, h, f, contains-append n xs (name ∷ []))))
    ]

    with_name :
        (n : Text) (xs : List Text)
        → contains current c.depends_on ≡ true
        → Old n xs
        → (contains n xs ≡ true) ⊎ Depends ((name, c) ∷ ps) n current
    with_name n xs dep (inl (inl o)) = inl o
    with_name n xs dep (inl (inr e)) = inr (inl (e, dep))
    with_name n xs dep (inr d) = inr (inr d)

-- `done` are the names whose dependents have been added.
record Open (ps : Programs) (target : Text) (done deps queue : List Text) : Type 0 where
  seen : contains target (done ++ queue) ≡ true
  closed : (x : Text) → contains x done ≡ true → Covers ps x deps
  reached : (n : Text) → contains n deps ≡ true → contains n (done ++ queue) ≡ true
  distinct : Distinct deps
  known : (n : Text) → contains n deps ≡ true → contains n (names ps) ≡ true
  counted : length done + length queue ≡ suc (length deps)
  sound : (n : Text) → contains n deps ≡ true → Reaches ps target n
  origin : (n : Text) → contains n queue ≡ true → (n ≡ target) ⊎ Reaches ps target n

-- `ns` are exactly the programs that depend on the target, directly or through others.
pub record AllDependents (ps : Programs) (target : Text) (ns : List Text) : Type 0 where
  pub of_target : Covers ps target ns
  pub of_dependents : (n : Text) → contains n ns ≡ true → Covers ps n ns
  pub sound : (n : Text) → contains n ns ≡ true → Reaches ps target n

turn-Open :
    (ps : Programs) (target x : Text) (done deps queue : List Text)
    → Open ps target done deps (x ∷ queue)
    → Open ps target
        (done ++ x ∷ [])
        (add_dependents ps x deps queue).0
        (add_dependents ps x deps queue).1
unfolding contains
turn-Open ps target x done deps queue o =
    let a = add_dependents-Added ps x deps queue in
    let deps' = (add_dependents ps x deps queue).0 in
    let queue' = (add_dependents ps x deps queue).1 in
    record {
      seen = move target o.seen;
      closed = λ y h. elim (Bool-cases (contains y done)) [
        | inl t ↦ Covers-mono ps y deps deps' a.grows (o.closed y t)
        | inr f ↦
            (let e : y ≡ x =
                eq_of_text_eq y x (ground (arith, h, f, contains-append y done (x ∷ []))) in
              rw e a.covers)
      ];
      reached = λ n h. elim (a.queued n h) [
        | inl old ↦ move n (o.reached n old)
        | inr q ↦ ground (arith, q, contains-append n (done ++ x ∷ []) queue')
      ];
      distinct = a.distinct o.distinct;
      known = λ n h. elim (a.known n h) [ inl old ↦ o.known n old | inr k ↦ k ];
      counted = omega (arith, a.same_length, o.counted, length-append done (x ∷ []));
      sound = λ n h. elim (a.fresh n h) [ inl old ↦ o.sound n old | inr d ↦ reach n d ];
      origin = λ n h. elim (a.pushed n h) [
        | inl old ↦ o.origin n (ground (arith, old))
        | inr d ↦ inr (reach n d)
      ];
    }
  where
    reach : (n : Text) → Depends ps n x → Reaches ps target n
    reach n d = elim (o.origin x (ground (arith, text_eq_refl x))) [
      | inl e ↦ Reaches.direct (rw (sym e) d)
      | inr r ↦ Reaches.through x d r
    ]

    move :
        (n : Text)
        → contains n (done ++ x ∷ queue) ≡ true
        → contains n ((done ++ x ∷ []) ++ (add_dependents ps x deps queue).1) ≡ true
    move n h =
        let a = add_dependents-Added ps x deps queue in
        ground (
          arith,
          h,
          contains-append n done (x ∷ queue),
          contains-append n (done ++ x ∷ []) (add_dependents ps x deps queue).1,
          contains-append n done (x ∷ []),
          a.kept n,
        )

close :
    (ps : Programs) (target : Text) (done deps : List Text)
    → Open ps target done deps []
    → AllDependents ps target deps
close ps target done deps o =
    let same = append-nil done in
    record {
      of_target = o.closed target (rw same at o.seen);
      of_dependents = λ n h. o.closed n (rw same at o.reached n h);
      sound = o.sound;
    }

spread-AllDependents :
    (fuel : ℕ) (ps : Programs) (target : Text) (done deps queue : List Text)
    → length done + fuel ≡ suc (length ps)
    → Open ps target done deps queue
    → AllDependents ps target (spread fuel ps deps queue)
unfolding spread
spread-AllDependents zero ps target done deps [] enough o = close ps target done deps o
spread-AllDependents zero ps target done deps (x ∷ queue) enough o = absurd (
    omega (arith, enough, o.counted, length-le deps (names ps) o.distinct o.known, length-names ps))
spread-AllDependents (suc fuel) ps target done deps [] enough o = close ps target done deps o
spread-AllDependents (suc fuel) ps target done deps (x ∷ queue) enough o =
    spread-AllDependents fuel ps target (done ++ x ∷ []) _ _
      (omega (arith, enough, length-append done (x ∷ []))) (turn-Open ps target x done deps queue o)

-- The dependents of a program are exactly the programs that depend on it, directly or through
-- others: all who depend on it or on one of them are among them, and no others.
pub get_dependents-AllDependents :
    (ps : Programs) (target : Text) → AllDependents ps target (get_dependents ps target)
unfolding get_dependents contains
get_dependents-AllDependents ps target =
    spread-AllDependents (suc (length ps)) ps target [] [] (target ∷ []) (omega arith) (record {
      seen = ground (arith, text_eq_refl target);
      closed = λ x h. absurd (cc h);
      reached = λ n h. absurd (cc h);
      distinct = tt;
      known = λ n h. absurd (cc h);
      counted = refl;
      sound = λ n h. absurd (cc h);
      origin = λ n h. inl (eq_of_text_eq n target (ground (arith, h)));
    })
