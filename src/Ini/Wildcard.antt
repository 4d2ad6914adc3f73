-- ===== src/Ini/Wildcard.antt =====
-- src/compat/ini/parser.rs, `wildcard_match`: the loop with one remembered star. The indices are
-- modelled by what is left of the pattern and of the text; `star_idx` and `match_idx` by what is
-- left of the pattern behind the star, and of the text where the star took its first character.
pub mod Loop
pub mod Reference
use rsupervisord.Prelude.{
  ℕ, zero, suc, ◌+◌, ◌*◌, Bool, true, false, ◌||◌, Option, none, some, List, [], ◌∷◌, Text, ◌==◌,
  if◌then◌else◌, length, drop,
}

-- The second loop, and the test at the end.
unfoldable pub only_stars : Text → Bool
only_stars [] = true
only_stars (p ∷ ps) = let rest = only_stars ps in if p == b'*' then rest else false

-- The first loop; `none` means that the fuel ran out.
unfoldable pub match_loop : ℕ → Text → Text → Option (Text × Text) → Option Bool
unfolding only_stars
match_loop zero p t star = none
match_loop (suc fuel) p [] star = some (only_stars p)
match_loop (suc fuel) [] (c ∷ cs) none = some false
match_loop (suc fuel) [] (c ∷ cs) (some (behind, taken)) =
    match_loop fuel behind (drop 1 taken) (some (behind, drop 1 taken))
match_loop (suc fuel) (p ∷ ps) (c ∷ cs) star =
    let step = match_loop fuel ps cs star in
    let open_star = match_loop fuel ps (c ∷ cs) (some (ps, c ∷ cs)) in
    let back : Option Bool = elim star [
      | none ↦ some false
      | some (behind, taken) ↦ match_loop fuel behind (drop 1 taken) (some (behind, drop 1 taken))
    ] in
    if (p == b'?') || (p == c) then step else if p == b'*' then open_star else back

unfoldable pub wildcard_fuel : Text → Text → ℕ
wildcard_fuel pattern text =
    let width = length text + 1 in
    suc ((suc (length pattern) * width + length text) * width + length text)

unfoldable pub wildcard_match : Text → Text → Option Bool
unfolding match_loop wildcard_fuel
wildcard_match pattern text = match_loop (wildcard_fuel pattern text) pattern text none
