-- ===== src/Config/Diff/Classified.antt =====
-- What the four lists of a diff say of the programs.
use rsupervisord.Prelude.{
  ◌≡◌, ◌≢◌, refl, sym, ap, ◌∙◌, arith, Bool, true, false, not, ◌&&◌, none, some, List, [], ◌∷◌, ◌⊎◌,
  ◌↔◌, Text, text_eq, Bool-cases, Option-cases, inl, inr,
}
use rsupervisord.Dag.Counts.{Distinct}
use rsupervisord.Dag.Layers.{contains-sort_by}
use rsupervisord.Prelude.TextLaws.{eq_of_text_eq}
use rsupervisord.Dag.{contains, names, text_le}
use rsupervisord.Config.Diff.{
  lookup, ConfigDiff, insert_config, sort_configs, compare_new, removed_names, compute,
}

abbrev pub In : {A : Type 0} → A → List A → Type 0
In x [] = ⊥
In x (y ∷ ys) = (x ≡ y) ⊎ In x ys

none-ne-some : {A : Type 0} {a : A} → none ≢ some a
none-ne-some e = cc

module _ {A : Type 0} (config_name : A → Text) (config_eq : A → A → Bool) where
  In-insert_config :
      (c x : A) (ys : List A)
      → (In c (insert_config config_name config_eq x ys) → In c (x ∷ ys))
        × (In c (x ∷ ys) → In c (insert_config config_name config_eq x ys))
  unfolding insert_config
  In-insert_config c x [] = (λ h. h, λ h. h)
  In-insert_config c x (y ∷ ys) = elim (Bool-cases (text_le (config_name x) (config_name y))) [
    | inl t ↦ rw t (λ h. h, λ h. h)
    | inr f ↦
        let (there, back) = In-insert_config c x ys in
        rw f (
          λ h. elim h [
            | inl e ↦ inr (inl e)
            | inr r ↦ elim (there r) [ inl e ↦ inl e | inr q ↦ inr (inr q) ]
          ],
          λ h. elim h [
            | inl e ↦ inr (back (inl e))
            | inr (inl e) ↦ inl e
            | inr (inr q) ↦ inr (back (inr q))
          ],
        )
  ]

  In-sort_configs : (c : A) (xs : List A) → In c (sort_configs config_name config_eq xs) ↔ In c xs
  unfolding sort_configs
  In-sort_configs c [] = (λ h. h, λ h. h)
  In-sort_configs c (x ∷ xs) =
      let (there, back) = In-insert_config c x (sort_configs config_name config_eq xs) in
      let (out, back_in) = In-sort_configs c xs in
      (
        λ h. elim (there h) [ inl e ↦ inl e | inr r ↦ inr (out r) ],
        λ h. back (elim h [ inl e ↦ inl e | inr r ↦ inr (back_in r) ]),
      )

  module _ (old : List (Text × A)) where
    -- A new program under a name that was not there.
    abbrev pub IsAdded : List (Text × A) → A → Type 0
    IsAdded new c = (n : Text) × In (n, c) new × (lookup n old ≡ none)

    -- A new program under a name that had another configuration.
    abbrev pub IsModified : List (Text × A) → A → Type 0
    IsModified new c =
        (n : Text) × (o : A) × In (n, c) new × (lookup n old ≡ some o) × (config_eq o c ≡ false)

    added_iff :
        (c : A) (new : List (Text × A))
        → In c (compare_new config_name config_eq old new).added ↔ IsAdded new c
    unfolding compare_new
    added_iff c [] = (λ h. absurd h, λ (n, h, l). absurd h)
    added_iff c ((m, x) ∷ new) =
        let (out, back) = added_iff c new in
        elim (Option-cases (lookup m old)) [
          | inl e ↦
              simp (compare_new, e)
                (
                  λ h. elim h [
                    | inl p ↦ (m, inl (ap (λ z. (m, z)) p), e)
                    | inr r ↦ (let (n, i, l) = out r in (n, inr i, l))
                  ],
                  λ (n, i, l). elim i [
                    | inl p ↦ inl (ap (λ z. z.1) p)
                    | inr q ↦ inr (back (n, q, l))
                  ],
                )
          | inr (o, e) ↦
              let same : (compare_new config_name config_eq old ((m, x) ∷ new)).added
                  ≡ (compare_new config_name config_eq old new).added =
                ground (arith, e) in
              rw same (
                λ h. (let (n, i, l) = out h in (n, inr i, l)),
                λ (n, i, l). elim i [
                  | inl p ↦ absurd (none-ne-some (sym l ∙ ap (λ z. lookup z.0 old) p ∙ e))
                  | inr q ↦ back (n, q, l)
                ],
              )
        ]

    modified_iff :
        (c : A) (new : List (Text × A))
        → In c (compare_new config_name config_eq old new).modified ↔ IsModified new c
    unfolding compare_new
    modified_iff c [] = (λ h. absurd h, λ (n, o, h, l, d). absurd h)
    modified_iff c ((m, x) ∷ new) =
        let (out, back) = modified_iff c new in
        elim (Option-cases (lookup m old)) [
          | inl e ↦
              simp (compare_new, e)
                (
                  λ h. (let (n, o, i, l, d) = out h in (n, o, inr i, l, d)),
                  λ (n, o, i, l, d). elim i [
                    | inl p ↦ absurd (none-ne-some (sym e ∙ sym (ap (λ z. lookup z.0 old) p) ∙ l))
                    | inr q ↦ back (n, o, q, l, d)
                  ],
                )
          | inr (o, e) ↦ elim (Bool-cases (config_eq o x)) [
            | inl t ↦
                simp (compare_new, e, t)
                  (
                    λ h. (let (n, o', i, l, d) = out h in (n, o', inr i, l, d)),
                    λ (n, o', i, l, d). elim i [
                      | inl p ↦
                          let s : some o ≡ some o' = sym e ∙ sym (ap (λ z. lookup z.0 old) p) ∙ l in
                          absurd (differ o o' x c (some-inj s) (ap (λ z. z.1) p) t d)
                      | inr q ↦ back (n, o', q, l, d)
                    ],
                  )
            | inr f ↦
                simp (compare_new, e, f)
                  (
                    λ h. elim h [
                      | inl p ↦ (m, o, inl (ap (λ z. (m, z)) p), e, ap (config_eq o) p ∙ f)
                      | inr r ↦ (let (n, o', i, l, d) = out r in (n, o', inr i, l, d))
                    ],
                    λ (n, o', i, l, d). elim i [
                      | inl p ↦ inl (ap (λ z. z.1) p)
                      | inr q ↦ inr (back (n, o', q, l, d))
                    ],
                  )
          ]
        ]
      where
        some-inj : {o o' : A} → some o ≡ some o' → o ≡ o'
        some-inj e = cc e

        differ : (o o' x c : A) → o ≡ o' → c ≡ x → config_eq o x ≡ true → config_eq o' c ≡ false → ⊥
        differ o o' x c e e' t f = cc (e, e', t, f)

    -- Both have the name, with equal configurations.
    abbrev pub is_same : List (Text × A) → Text → Bool
    is_same new n = elim (lookup n new) [
      | none ↦ false
      | some c ↦ elim (lookup n old) [ none ↦ false | some o ↦ config_eq o c ]
    ]

    unchanged-names :
        (n : Text) (new : List (Text × A))
        → contains n (compare_new config_name config_eq old new).unchanged ≡ true
        → contains n (names new) ≡ true
    unfolding compare_new contains
    unchanged-names n [] h = h
    unchanged-names n ((m, x) ∷ new) h = ground (arith, h, unchanged-names n new)

    unchanged-eq :
        (n : Text) (new : List (Text × A))
        → Distinct (names new)
        → contains n (compare_new config_name config_eq old new).unchanged ≡ is_same new n
    unfolding compare_new contains
    unchanged-eq n [] d = refl
    unchanged-eq n ((m, x) ∷ new) d = elim (Bool-cases (text_eq n m)) [
      | inl t ↦
          let e : n ≡ m = eq_of_text_eq n m t in
          ground (
            arith,
            t,
            ap (λ z. lookup z old) e,
            ap (λ z. contains z (compare_new config_name config_eq old new).unchanged) e,
            unchanged-names m new,
            d.0,
          )
      | inr f ↦ ground (arith, f, unchanged-eq n new d.1)
    ]

  removed-eq :
      (n : Text) (old_keys new_keys : List Text)
      → contains n (removed_names config_name config_eq old_keys new_keys)
        ≡ (contains n old_keys && not (contains n new_keys))
  unfolding removed_names contains
  removed-eq n [] new_keys = refl
  removed-eq n (m ∷ ms) new_keys = ground (arith, removed-eq n ms new_keys, same)
    where
      same : text_eq n m ≡ true → contains m new_keys ≡ contains n new_keys
      same t = ap (λ z. contains z new_keys) (sym (eq_of_text_eq n m t))

  -- What the four lists of a diff say.
  pub record Classified (old new : List (Text × A)) (d : ConfigDiff A) : Type 0 where
    pub added : (c : A) → In c d.added ↔ IsAdded old new c
    pub modified : (c : A) → In c d.modified ↔ IsModified old new c
    pub unchanged : (n : Text) → contains n d.unchanged ≡ is_same old new n
    pub removed :
        (n : Text) → contains n d.removed ≡ (contains n (names old) && not (contains n (names new)))

  -- A diff of the old programs and of new ones with distinct names is right about each: it lists as
  -- added the new configurations under a name that was not there, as modified those under a name
  -- that had another configuration, as unchanged the names that have an equal one on both sides, and
  -- as removed the old names that are no longer there.
  pub compute-Classified :
      (old new : List (Text × A))
      → Distinct (names new)
      → Classified old new (compute config_name config_eq old new)
  unfolding compute
  compute-Classified old new d =
      let raw = compare_new config_name config_eq old new in
      record {
        added = λ c.
            let (a, b) = In-sort_configs c raw.added in
            let (a', b') = added_iff old c new in (λ h. a' (a h), λ h. b (b' h));
        modified = λ c.
            let (a, b) = In-sort_configs c raw.modified in
            let (a', b') = modified_iff old c new in (λ h. a' (a h), λ h. b (b' h));
        unchanged = λ n. contains-sort_by text_le n raw.unchanged ∙ unchanged-eq old n new d;
        removed = λ n.
            contains-sort_by text_le n (removed_names config_name config_eq (names old) (names new))
            ∙ removed-eq n (names old) (names new);
      }
