-- ===== src/Prelude/Maps.antt =====
-- Maps from texts, such as a `HashMap<String, V>`, as association lists: the first entry of a
-- key counts. Two maps are compared by `get`, since the order of a hash map is not specified.
use rsupervisord.Prelude.Tests.{if◌then◌else◌, is_some, Bool-cases}
use rsupervisord.Prelude.Strings.{Text, text_eq}
use rsupervisord.Prelude.TextLaws.{eq_of_text_eq, text_eq_refl, text_eq_comm}
use mathlib.Core.Path.{◌≡◌, refl}
use mathlib.Core.Logic.{inl, inr}
use mathlib.Core.Bool.{Bool, true, false, not, ◌&&◌, ◌||◌}
use mathlib.Core.List.{List, [], ◌∷◌}
use mathlib.Core.Option.{Option, none, some}
use native.Mathlib.Omega.{arith}

abbrev pub Map : Type 0 → Type 0
Map V = List (Text × V)

module _ {V : Type 0} where
  unfoldable pub get : Text → Map V → Option V
  get k [] = none
  get k ((j, v) ∷ m) = let rest = get k m in if text_eq k j then some v else rest

  unfoldable pub contains_key : Text → Map V → Bool
  unfolding get
  contains_key k m = is_some (get k m)

  -- Replaces the entry of the key, or adds one.
  unfoldable pub insert : Text → V → Map V → Map V
  insert k v [] = (k, v) ∷ []
  insert k v ((j, w) ∷ m) =
      let rest = insert k v m in if text_eq k j then (j, v) ∷ m else (j, w) ∷ rest

  unfoldable pub remove : Text → Map V → Map V
  remove k [] = []
  remove k ((j, v) ∷ m) = let rest = remove k m in if text_eq k j then rest else (j, v) ∷ rest

  -- `extend`: the entries of the first map are inserted into the second.
  unfoldable pub extend : Map V → Map V → Map V
  unfolding insert
  extend [] m = m
  extend ((k, v) ∷ es) m = insert k v (extend es m)

  -- The first of two values that is there.
  abbrev pub or_else : Option V → Option V → Option V
  or_else none o = o
  or_else (some v) o = some v

  pub get-insert :
      (j k : Text) (v : V) (m : Map V)
      → get j (insert k v m) ≡ (if text_eq j k then some v else get j m)
  unfolding get insert
  get-insert j k v [] = refl
  get-insert j k v ((i, w) ∷ m) = elim (Bool-cases (text_eq k i)) [
    | inl t ↦ rw (eq_of_text_eq k i t) (rw (text_eq_refl i) (same (text_eq j i)))
    | inr f ↦ rw f (elim (Bool-cases (text_eq j i)) [
      | inl s ↦ rw s (rw (eq_of_text_eq j i s) (other f))
      | inr g ↦ rw g (get-insert j k v m)
    ])
  ]
    where
      same :
          (b : Bool)
          → (if b then some v else get j m) ≡ (if b then some v else if b then some w else get j m)
      same true = refl
      same false = refl

      other : text_eq k i ≡ false → some w ≡ (if text_eq i k then some v else some w)
      other f = rw (text_eq_comm i k) (rw f)

  pub get-remove :
      (j k : Text) (m : Map V) → get j (remove k m) ≡ (if text_eq j k then none else get j m)
  unfolding get remove
  get-remove j k [] = ground arith
  get-remove j k ((i, w) ∷ m) = ground (
    arith,
    get-remove j k m,
    eq_of_text_eq k i,
    eq_of_text_eq j i,
    eq_of_text_eq j k,
    text_eq_refl i,
  )

  pub contains_key-insert :
      (j k : Text) (v : V) (m : Map V)
      → contains_key j (insert k v m) ≡ (text_eq j k || contains_key j m)
  unfolding contains_key
  contains_key-insert j k v m = ground (arith, get-insert j k v m)

  pub contains_key-remove :
      (j k : Text) (m : Map V)
      → contains_key j (remove k m) ≡ (not (text_eq j k) && contains_key j m)
  unfolding contains_key
  contains_key-remove j k m = ground (arith, get-remove j k m)

  pub get-extend : (k : Text) (es m : Map V) → get k (extend es m) ≡ or_else (get k es) (get k m)
  unfolding get extend
  get-extend k [] m = refl
  get-extend k ((j, v) ∷ es) m = ground (arith, get-insert k j v (extend es m), get-extend k es m)
