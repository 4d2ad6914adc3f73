-- ===== src/Dag/Priority.antt =====
-- The order within a layer.
use rsupervisord.Prelude.{◌≡◌, Bool, true, false, List, [], ◌∷◌, Text}

-- `x` comes before the first name of a list.
abbrev pub Leads : (Text → Text → Bool) → Text → List Text → Type 0
Leads before x [] = Unit
Leads before x (y ∷ ys) = before x y ≡ true

abbrev pub Sorted : (Text → Text → Bool) → List Text → Type 0
Sorted before [] = Unit
Sorted before (x ∷ xs) = Leads before x xs × Sorted before xs

abbrev Total : (Text → Text → Bool) → Type 0
Total before = (a b : Text) → before a b ≡ false → before b a ≡ true
