-- ===== src/Manager/Targets.antt =====
-- src/manager/supervisor.rs: the handle finds the targets that the manager finds.
use rsupervisord.Prelude.{
  ◌≡◌, refl, sym, ap, ◌∙◌, arith, Bool, true, false, ◌&&◌, some, List, [], ◌∷◌, map, Text, text_eq,
  if◌then◌else◌, is_empty, is_some, trim, split_once, Option-cases, Bool-cases, inl, inr, subst,
}
use rsupervisord.Prelude.Maps
use rsupervisord.Prelude.TextLaws.{eq_of_text_eq}
use rsupervisord.Dag
use rsupervisord.Dag.{sort_by, text_le, names}
use rsupervisord.Manager.{
  ProgramConfig, Manager, find_match, names_where, group_names, part_matches,
}
use rsupervisord.Manager.Registered.{Registered}
use rsupervisord.Config.Diff.Classified.{In}
use rsupervisord.Manager.Entries.{Keyed, In-Keyed, get-of_In}
use rsupervisord.Dag.Counts.{Distinct}
use rsupervisord.Manager.Timeouts.{
  Configs, configs_where, insert_by_name, sort_by_name, group_configs_sorted,
  find_targets_for_program,
}

abbrev pub names_of : List ProgramConfig → List Text
names_of = map (λ c. c.name)

names_of-configs_where :
    (test : Text → ProgramConfig → Bool) (configs : Configs)
    → Keyed configs
    → names_of (configs_where test configs) ≡ names_where test configs
unfolding configs_where names_where
names_of-configs_where test [] h = refl
names_of-configs_where test ((k, c) ∷ configs) h =
    let rest = names_of-configs_where test configs h.1 in
    elim (Bool-cases (test k c)) [ inl t ↦ rw t (ground (arith, rest, h.0)) | inr f ↦ rw f rest ]

names_of-insert_by_name :
    (c : ProgramConfig) (ds : List ProgramConfig)
    → names_of (insert_by_name c ds) ≡ Dag.insert text_le c.name (names_of ds)
unfolding insert_by_name Dag.insert
names_of-insert_by_name c [] = refl
names_of-insert_by_name c (d ∷ ds) = elim (Bool-cases (text_le c.name d.name)) [
  | inl t ↦ rw t refl
  | inr f ↦ rw f (ap (λ ns. d.name ∷ ns) (names_of-insert_by_name c ds))
]

names_of-sort_by_name :
    (cs : List ProgramConfig) → names_of (sort_by_name cs) ≡ sort_by text_le (names_of cs)
unfolding sort_by_name sort_by
names_of-sort_by_name [] = refl
names_of-sort_by_name (c ∷ cs) =
    names_of-insert_by_name c (sort_by_name cs)
    ∙ ap (Dag.insert text_le c.name) (names_of-sort_by_name cs)

names_of-group_configs_sorted :
    (group : Text) (configs : Configs)
    → Keyed configs
    → names_of (group_configs_sorted group configs) ≡ group_names group configs
unfolding group_configs_sorted group_names
names_of-group_configs_sorted group configs h =
    names_of-sort_by_name (configs_where (λ name c. text_eq c.group group) configs)
    ∙ ap (sort_by text_le) (names_of-configs_where (λ name c. text_eq c.group group) configs h)

name-get :
    (n : Text) (c : ProgramConfig) (configs : Configs)
    → Keyed configs
    → Maps.get n configs ≡ some c
    → c.name ≡ n
unfolding Maps.get
name-get n c [] h k = ground (arith, k)
name-get n c ((j, d) ∷ configs) h k = elim (Bool-cases (text_eq n j)) [
  | inl t ↦ ground (arith, k, t, h.0, eq_of_text_eq n j t)
  | inr f ↦ name-get n c configs h.1 (ground (arith, k, f))
]

names_of-if :
    (cs gs : List ProgramConfig)
    → names_of (if is_empty cs then gs else cs)
      ≡ (if is_empty (names_of cs) then names_of gs else names_of cs)
names_of-if [] gs = refl
names_of-if (c ∷ cs) gs = refl

pub targets-eq-find_match :
    {H W E : Type 0} (name : Text) (m : Manager H W E)
    → Registered m
    → Keyed m.configs
    → names_of (find_targets_for_program name m.configs) ≡ find_match name m
unfolding find_targets_for_program find_match Maps.contains_key
targets-eq-find_match name m r k =
    let trimmed = trim name in
    let group = names_of-group_configs_sorted trimmed m.configs k in
    elim (Option-cases (Maps.get trimmed m.configs)) [
      | inr (c, s) ↦
          let there : is_some (Maps.get trimmed m.programs) ≡ true = ground (arith, r trimmed, s) in
          rw (s, find_targets_for_program)
            (rw (there, find_match) (ap (λ n. n ∷ []) (name-get trimmed c m.configs k s)))
      | inl n ↦
          let gone : is_some (Maps.get trimmed m.programs) ≡ false = ground (arith, r trimmed, n) in
          rw (n, find_targets_for_program)
            (rw (gone, find_match)
              (elim (Option-cases (split_once b':' trimmed)) [
                | inl q ↦ rw q group
                | inr (parts, q) ↦
                    let test : Text → ProgramConfig → Bool =
                      λ p_name c. text_eq c.group parts.0 && part_matches parts.0 parts.1 p_name in
                    let found = names_of-configs_where test m.configs k in
                    rw q (
                      names_of-if (configs_where test m.configs)
                        (group_configs_sorted trimmed m.configs)
                      ∙ ap
                          (λ ns.
                            if is_empty ns
                            then names_of (group_configs_sorted trimmed m.configs)
                            else ns)
                          found
                      ∙ ap
                          (λ gs.
                            if is_empty (names_where test m.configs)
                            then gs
                            else names_where test m.configs)
                          group)
              ]))
    ]

-- Each is what the configurations have under its name.
abbrev pub Owned : Configs → List ProgramConfig → Type 0
Owned m [] = Unit {0}
Owned m (c ∷ cs) = (Maps.get c.name m ≡ some c) × Owned m cs

Owned-configs_where :
    (m : Configs) (test : Text → ProgramConfig → Bool) (configs : Configs)
    → ((k : Text) (c : ProgramConfig) → In (k, c) configs → Maps.get c.name m ≡ some c)
    → Owned m (configs_where test configs)
unfolding configs_where
Owned-configs_where m test [] h = tt
Owned-configs_where m test ((k, c) ∷ configs) h =
    let rest = Owned-configs_where m test configs (λ j d i. h j d (inr i)) in
    elim (Bool-cases (test k c)) [ inl t ↦ rw t (h k c (inl refl), rest) | inr f ↦ rw f rest ]

Owned-insert_by_name :
    (m : Configs) (c : ProgramConfig) (ds : List ProgramConfig)
    → Maps.get c.name m ≡ some c
    → Owned m ds
    → Owned m (insert_by_name c ds)
unfolding insert_by_name
Owned-insert_by_name m c [] e o = (e, tt)
Owned-insert_by_name m c (d ∷ ds) e o = elim (Bool-cases (text_le c.name d.name)) [
  | inl t ↦ rw t (e, o)
  | inr f ↦ rw f (o.0, Owned-insert_by_name m c ds e o.1)
]

Owned-sort_by_name :
    (m : Configs) (cs : List ProgramConfig) → Owned m cs → Owned m (sort_by_name cs)
unfolding sort_by_name
Owned-sort_by_name m [] o = tt
Owned-sort_by_name m (c ∷ cs) o =
    Owned-insert_by_name m c (sort_by_name cs) o.0 (Owned-sort_by_name m cs o.1)

Owned-if :
    (m : Configs) (cs gs : List ProgramConfig)
    → Owned m cs
    → Owned m gs
    → Owned m (if is_empty cs then gs else cs)
Owned-if m [] gs o g = g
Owned-if m (c ∷ cs) gs o g = o

pub Owned-find_targets_for_program :
    (name : Text) (m : Configs)
    → Distinct (names m)
    → Keyed m
    → Owned m (find_targets_for_program name m)
unfolding find_targets_for_program group_configs_sorted
Owned-find_targets_for_program name m d k =
    let owns : (j : Text) (c : ProgramConfig) → In (j, c) m → Maps.get c.name m ≡ some c =
      λ j c i. get-of_In c.name c m d (subst (λ n. In (n, c) m) (In-Keyed j c m k i) i) in
    let trimmed = trim name in
    let in_group : Text → ProgramConfig → Bool = λ name c. text_eq c.group trimmed in
    let group =
      Owned-sort_by_name m (configs_where in_group m) (Owned-configs_where m in_group m owns) in
    elim (Option-cases (Maps.get trimmed m)) [
      | inr (c, s) ↦
          rw (s, find_targets_for_program)
            (subst (λ n. Maps.get n m ≡ some c) (sym (name-get trimmed c m k s)) s, tt)
      | inl n ↦
          rw (n, find_targets_for_program)
            (elim (Option-cases (split_once b':' trimmed)) [
              | inl q ↦ rw q group
              | inr (parts, q) ↦
                  let test : Text → ProgramConfig → Bool =
                    λ p_name c. text_eq c.group parts.0 && part_matches parts.0 parts.1 p_name in
                  rw q (
                    Owned-if m (configs_where test m) (group_configs_sorted trimmed m)
                      (Owned-configs_where m test m owns) group)
            ])
    ]
