-- ===== src/Manager/Entries.antt =====
-- src/config/diff.rs and manager/supervisor.rs: the entries of a map of configurations, and their
-- equality.
use rsupervisord.Prelude.{
  ◌≡◌, refl, sym, ap, ◌∙◌, arith, Bool, true, false, some, List, [], ◌∷◌, Text, text_eq, is_some,
  Bool-cases, inl, inr,
}
use rsupervisord.Prelude.Maps
use rsupervisord.Prelude.Maps.{Map}
use rsupervisord.Prelude.TextLaws.{eq_of_text_eq, text_eq_refl}
use rsupervisord.Dag.{contains, names}
use rsupervisord.Dag.Counts.{Distinct}
use rsupervisord.Config.Diff.{lookup}
use rsupervisord.Config.Diff.Classified.{In}
use rsupervisord.Manager.{ProgramConfig}
use rsupervisord.Manager.Generations.{texts_eq, bool_eq, config_eq}

texts_eq_sound : (s t : List Text) → texts_eq s t ≡ true → s ≡ t
unfolding texts_eq
texts_eq_sound [] [] h = refl
texts_eq_sound [] (t ∷ ts) h = cc
texts_eq_sound (s ∷ ss) [] h = cc
texts_eq_sound (s ∷ ss) (t ∷ ts) h = ground (arith, eq_of_text_eq s t, texts_eq_sound ss ts)

bool_eq_sound : (a b : Bool) → bool_eq a b ≡ true → a ≡ b
bool_eq_sound true b h = sym h
bool_eq_sound false false h = refl
bool_eq_sound false true h = cc

pub config_eq_sound : (a b : ProgramConfig) → config_eq a b ≡ true → a ≡ b
unfolding config_eq
config_eq_sound a b h = ground (
  arith,
  h,
  eq_of_text_eq a.name b.name,
  eq_of_text_eq a.group b.group,
  texts_eq_sound a.depends_on b.depends_on,
  bool_eq_sound a.autostart b.autostart,
  eq_of_text_eq a.settings b.settings,
)

texts_eq_refl : (s : List Text) → texts_eq s s ≡ true
unfolding texts_eq
texts_eq_refl [] = refl
texts_eq_refl (s ∷ ss) = ground (arith, text_eq_refl s, texts_eq_refl ss)

bool_eq_refl : (a : Bool) → bool_eq a a ≡ true
bool_eq_refl true = refl
bool_eq_refl false = refl

pub config_eq_refl : (a : ProgramConfig) → config_eq a a ≡ true
unfolding config_eq
config_eq_refl a = ground (
  arith,
  text_eq_refl a.name,
  text_eq_refl a.group,
  texts_eq_refl a.depends_on,
  bool_eq_refl a.autostart,
  text_eq_refl a.settings,
)

-- Each configuration stands under its name.
abbrev pub Keyed : Map ProgramConfig → Type 0
Keyed [] = Unit {0}
Keyed ((k, c) ∷ m) = (k ≡ c.name) × Keyed m

pub lookup-eq-get : (n : Text) (m : Map ProgramConfig) → lookup n m ≡ Maps.get n m
unfolding lookup Maps.get
lookup-eq-get n [] = refl
lookup-eq-get n ((k, c) ∷ m) = ground (arith, lookup-eq-get n m)

pub contains-names :
    (n : Text) (m : Map ProgramConfig) → contains n (names m) ≡ is_some (Maps.get n m)
unfolding contains Maps.get
contains-names n [] = refl
contains-names n ((k, c) ∷ m) = ground (arith, contains-names n m)

pub In-Keyed :
    (k : Text) (c : ProgramConfig) (m : Map ProgramConfig) → Keyed m → In (k, c) m → k ≡ c.name
In-Keyed k c [] h i = absurd i
In-Keyed k c ((j, d) ∷ m) h (inl e) = ap (λ p. p.0) e ∙ h.0 ∙ sym (ap (λ p. p.1.name) e)
In-Keyed k c ((j, d) ∷ m) h (inr i) = In-Keyed k c m h.1 i

pub In-of_get :
    (n : Text) (c : ProgramConfig) (m : Map ProgramConfig) → Maps.get n m ≡ some c → In (n, c) m
unfolding Maps.get
In-of_get n c [] h = cc
In-of_get n c ((k, d) ∷ m) h = elim (Bool-cases (text_eq n k)) [
  | inl t ↦ inl (ground (arith, t, h, eq_of_text_eq n k))
  | inr f ↦ inr (In-of_get n c m (ground (arith, f, h)))
]

pub get-of_In :
    (n : Text) (c : ProgramConfig) (m : Map ProgramConfig)
    → Distinct (names m)
    → In (n, c) m
    → Maps.get n m ≡ some c
unfolding Maps.get
get-of_In n c [] d i = absurd i
get-of_In n c ((k, x) ∷ m) d (inl e) = ground (arith, e, text_eq_refl k)
get-of_In n c ((k, x) ∷ m) d (inr i) =
    let later = get-of_In n c m d.1 i in
    ground (arith, later, d.0, contains-names n m, eq_of_text_eq n k)
