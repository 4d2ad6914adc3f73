-- ===== src/Config/Diff.antt =====
-- src/config/diff.rs: the programs that a reload adds, removes, modifies and leaves alone.
-- The configurations are of any type with a name; `config_eq` is their derived `==`. A `HashMap` is
-- the list of its entries, with distinct keys.
pub mod Classified
use rsupervisord.Prelude.{
  ℕ, zero, suc, ◌+◌, ◌≡◌, ◌≢◌, refl, sym, ap, ◌∙◌, arith, Bool, true, false, not, ◌&&◌, ◌||◌,
  Option, none, some, List, [], ◌∷◌, ◌++◌, ◌⊎◌, ◌↔◌, Text, text_eq, if◌then◌else◌, length,
  Bool-cases, Option-cases, inl, inr, is_empty,
}
use rsupervisord.Dag.Counts.{Distinct}
use rsupervisord.Dag.Layers.{contains-sort_by}
use rsupervisord.Prelude.TextLaws.{eq_of_text_eq, text_eq_refl}
use rsupervisord.Dag.{contains, names, insert, sort_by, text_le}

unfoldable pub lookup {ℓ} : {A : Type ℓ} → Text → List (Text × A) → Option A
lookup n [] = none
lookup n ((m, a) ∷ es) = if text_eq n m then some a else lookup n es

pub record ConfigDiff (A : Type 0) : Type 0 where
  pub added : List A
  pub removed : List Text
  pub modified : List A
  pub unchanged : List Text

module _ {A : Type 0} (config_name : A → Text) (config_eq : A → A → Bool) where
  -- `sort_by(|a, b| a.name.cmp(&b.name))`
  insert_config : A → List A → List A
  insert_config x [] = x ∷ []
  insert_config x (y ∷ ys) =
      let rest = insert_config x ys in
      if text_le (config_name x) (config_name y) then x ∷ y ∷ ys else y ∷ rest

  sort_configs : List A → List A
  unfolding insert_config
  sort_configs [] = []
  sort_configs (x ∷ xs) = insert_config x (sort_configs xs)

  -- The loop over the new programs, before the lists are sorted.
  compare_new : (old new : List (Text × A)) → ConfigDiff A
  unfolding lookup
  compare_new old [] = record { added = []; removed = []; modified = []; unchanged = [] }
  compare_new old ((name, new_cfg) ∷ rest) =
      let d = compare_new old rest in
      elim (lookup name old) [
        | none ↦ record d { added = new_cfg ∷ d.added }
        | some old_cfg ↦
            if config_eq old_cfg new_cfg
            then record d { unchanged = name ∷ d.unchanged }
            else record d { modified = new_cfg ∷ d.modified }
      ]

  -- The loop over the old keys.
  removed_names : List Text → (new_keys : List Text) → List Text
  unfolding contains
  removed_names [] new_keys = []
  removed_names (name ∷ rest) new_keys =
      let later = removed_names rest new_keys in
      if not (contains name new_keys) then name ∷ later else later

  pub compute : (old new : List (Text × A)) → ConfigDiff A
  unfolding sort_by text_le
  compute old new =
      let d = compare_new old new in
      record {
        added = sort_configs d.added;
        removed = sort_by text_le (removed_names (names old) (names new));
        modified = sort_configs d.modified;
        unchanged = sort_by text_le d.unchanged;
      }

abbrev pub has_no_changes : {A : Type 0} → ConfigDiff A → Bool
has_no_changes d = is_empty d.added && is_empty d.removed && is_empty d.modified
