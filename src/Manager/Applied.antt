-- ===== src/Manager/Applied.antt =====
-- The configurations that the loops of a reload leave are the new ones.
use rsupervisord.Prelude.{
  ◌≡◌, refl, sym, ap, ◌∙◌, arith, true, false, not, ◌&&◌, none, some, List, [], ◌∷◌, Text, text_eq,
  if◌then◌else◌, is_some, Option-cases, Bool-cases, inl, inr, subst,
}
use rsupervisord.Prelude.Maps
use rsupervisord.Prelude.Maps.{Map}
use rsupervisord.Prelude.TextLaws.{eq_of_text_eq, text_eq_refl}
use rsupervisord.Dag.{contains, names}
use rsupervisord.Dag.Counts.{Distinct}
use rsupervisord.Config.Diff.{ConfigDiff, compute, lookup}
use rsupervisord.Config.Diff.Classified.{In, Classified, compute-Classified}
use rsupervisord.Manager.{ProgramConfig}
use rsupervisord.Manager.Generations.{config_eq}
use rsupervisord.Manager.Reloads.{is_named, put, get-put_other, get-put}
use rsupervisord.Manager.Entries.{
  Keyed, lookup-eq-get, contains-names, In-Keyed, In-of_get, get-of_In, config_eq_sound,
  config_eq_refl,
}

named-In :
    (n : Text) (cs : List ProgramConfig)
    → is_named n cs ≡ true
    → (c : ProgramConfig) × In c cs × (text_eq n c.name ≡ true)
named-In n [] h = cc
named-In n (c ∷ cs) h = elim (Bool-cases (text_eq n c.name)) [
  | inl t ↦ (c, inl refl, t)
  | inr f ↦ let (d, i, e) = named-In n cs (ground (arith, f, h)) in (d, inr i, e)
]

is_named-In :
    (n : Text) (c : ProgramConfig) (cs : List ProgramConfig)
    → In c cs
    → text_eq n c.name ≡ true
    → is_named n cs ≡ true
is_named-In n c [] i h = absurd i
is_named-In n c (x ∷ cs) (inl e) h = ground (arith, ap (λ (y : ProgramConfig). y.name) e, h)
is_named-In n c (x ∷ cs) (inr i) h = ground (arith, is_named-In n c cs i h)

module _ (old new : Map ProgramConfig) (distinct : Distinct (names new)) (keyed : Keyed new) where
  abbrev diff : ConfigDiff ProgramConfig
  diff = compute (λ c. c.name) config_eq old new

  abbrev right : Classified (λ c. c.name) config_eq old new diff
  right = compute-Classified (λ c. c.name) config_eq old new distinct

  -- A name in the new map, of a configuration that stands in it.
  named_new :
      (n k : Text) (c : ProgramConfig)
      → In (k, c) new
      → text_eq n c.name ≡ true
      → (Maps.get n new ≡ some c) × (k ≡ n)
  named_new n k c i e =
      let same : k ≡ n = In-Keyed k c new keyed i ∙ sym (eq_of_text_eq n c.name e) in
      (get-of_In n c new distinct (subst (λ j. In (j, c) new) same i), same)

  added-new :
      (n : Text) (c : ProgramConfig)
      → In c diff.added
      → text_eq n c.name ≡ true
      → (Maps.get n new ≡ some c) × (Maps.get n old ≡ none)
  added-new n c i e =
      let (k, at, absent) = (right.added c).0 i in
      let (found, same) = named_new n k c at e in
      (found, sym (lookup-eq-get n old) ∙ ap (λ j. lookup j old) (sym same) ∙ absent)

  modified-new :
      (n : Text) (c : ProgramConfig)
      → In c diff.modified
      → text_eq n c.name ≡ true
      → (Maps.get n new ≡ some c)
        × ((o : ProgramConfig) × (Maps.get n old ≡ some o) × (config_eq o c ≡ false))
  modified-new n c i e =
      let (k, o, at, was, differs) = (right.modified c).0 i in
      let (found, same) = named_new n k c at e in
      (found, (o, sym (lookup-eq-get n old) ∙ ap (λ j. lookup j old) (sym same) ∙ was, differs))

  removed-eq :
      (n : Text)
      → contains n diff.removed ≡ (is_some (Maps.get n old) && not (is_some (Maps.get n new)))
  removed-eq n = right.removed n ∙ ground (arith, contains-names n old, contains-names n new)

  some_inj : {a b : ProgramConfig} → some a ≡ some b → a ≡ b
  some_inj h = cc h

  -- The configurations behind the three loops of a reload.
  abbrev applied : Map ProgramConfig → Map ProgramConfig
  applied m = put diff.added (put diff.modified m)

  not_named :
      (n : Text)
      → Maps.get n new ≡ none
      → (is_named n diff.added ≡ false) × (is_named n diff.modified ≡ false)
  not_named n h = (
    elim (Bool-cases (is_named n diff.added)) [
      | inl t ↦ (let (c, i, e) = named-In n diff.added t in absurd (cc (h, (added-new n c i e).0)))
      | inr f ↦ f
    ],
    elim (Bool-cases (is_named n diff.modified)) [
      | inl t ↦
          (let (c, i, e) = named-In n diff.modified t in absurd (cc (h, (modified-new n c i e).0)))
      | inr f ↦ f
    ],
  )

  -- A name with the same configuration before is in neither list.
  pub same_not_named :
      (n : Text) (c : ProgramConfig)
      → Maps.get n old ≡ some c
      → Maps.get n new ≡ some c
      → (is_named n diff.added ≡ false)
        × (is_named n diff.modified ≡ false)
        × (contains n diff.removed ≡ false)
  same_not_named n c was is = (
    elim (Bool-cases (is_named n diff.added)) [
      | inl t ↦
          (let (d, i, e) = named-In n diff.added t in absurd (cc (was, (added-new n d i e).1)))
      | inr f ↦ f
    ],
    elim (Bool-cases (is_named n diff.modified)) [
      | inl t ↦
          let (d, i, e) = named-In n diff.modified t in
          let (found, (o, before, differs)) = modified-new n d i e in
          let same_new : c ≡ d = some_inj (sym is ∙ found) in
          let same_old : c ≡ o = some_inj (sym was ∙ before) in
          absurd (
            cc (
              sym (config_eq_refl c)
              ∙ ap (λ x. config_eq c x) same_new
              ∙ ap (λ x. config_eq x d) same_old
              ∙ differs))
      | inr f ↦ f
    ],
    removed-eq n ∙ ground (arith, was, is),
  )

  applied-absent :
      (n : Text) (m : Map ProgramConfig)
      → Maps.get n new ≡ none
      → Maps.get n m ≡ (if contains n diff.removed then none else Maps.get n old)
      → Maps.get n (applied m) ≡ none
  applied-absent n m h left =
      let (a, b) = not_named n h in
      get-put_other n diff.added (put diff.modified m) a
      ∙ get-put_other n diff.modified m b
      ∙ left
      ∙ ground (arith, h, removed-eq n)

  named_added :
      (n : Text) (c : ProgramConfig)
      → Maps.get n new ≡ some c
      → Maps.get n old ≡ none
      → is_named n diff.added ≡ true
  named_added n c h absent =
      let at = In-of_get n c new h in
      is_named-In n c diff.added ((right.added c).1 (n, at, lookup-eq-get n old ∙ absent))
        (ap (text_eq n) (sym (In-Keyed n c new keyed at)) ∙ text_eq_refl n)

  named_modified :
      (n : Text) (c o : ProgramConfig)
      → Maps.get n new ≡ some c
      → Maps.get n old ≡ some o
      → config_eq o c ≡ false
      → is_named n diff.modified ≡ true
  named_modified n c o h was differs =
      let at = In-of_get n c new h in
      is_named-In n c diff.modified
        ((right.modified c).1 (n, o, at, lookup-eq-get n old ∙ was, differs))
        (ap (text_eq n) (sym (In-Keyed n c new keyed at)) ∙ text_eq_refl n)

  applied-present :
      (n : Text) (c : ProgramConfig) (m : Map ProgramConfig)
      → Maps.get n new ≡ some c
      → Maps.get n m ≡ (if contains n diff.removed then none else Maps.get n old)
      → Maps.get n (applied m) ≡ some c
  applied-present n c m h left =
      let outer =
        get-put n c diff.added (put diff.modified m)
          (λ d i e. some_inj (sym (added-new n d i e).0 ∙ h)) in
      let inner =
        get-put n c diff.modified m (λ d i e. some_inj (sym (modified-new n d i e).0 ∙ h)) in
      elim (Option-cases (Maps.get n old)) [
        | inl absent ↦ ground (arith, outer, named_added n c h absent)
        | inr (o, was) ↦ elim (Bool-cases (config_eq o c)) [
          | inl same ↦
              let was' : Maps.get n old ≡ some c = was ∙ ap some (config_eq_sound o c same) in
              let (a, b, r) = same_not_named n c was' h in
              ground (arith, outer, inner, a, b, r, left, was')
          | inr differs ↦ ground (arith, outer, inner, named_modified n c o h was differs)
        ]
      ]

  pub applied-eq :
      (n : Text) (m : Map ProgramConfig)
      → Maps.get n m ≡ (if contains n diff.removed then none else Maps.get n old)
      → Maps.get n (applied m) ≡ Maps.get n new
  applied-eq n m left = elim (Option-cases (Maps.get n new)) [
    | inl e ↦ applied-absent n m e left ∙ sym e
    | inr (c, e) ↦ applied-present n c m e left ∙ sym e
  ]
