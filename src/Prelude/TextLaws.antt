-- ===== src/Prelude/TextLaws.antt =====
-- Laws of the text operations.
use mathlib.Core.Path.{◌≡◌, refl, sym, ◌∙◌}
use mathlib.Core.Logic.{◌↔◌, ◌≢◌, inl, inr}
use mathlib.Core.Bool.{true, false}
use mathlib.Core.List.{[], ◌∷◌, ◌++◌}
use mathlib.Core.Option.{none, some}
use native.Mathlib.Omega.{arith}
use rsupervisord.Prelude.Strings.{Text, text_eq, strip_prefix, starts_with}
use rsupervisord.Prelude.Tests.{Option-cases}

pub eq_of_text_eq : (s t : Text) → text_eq s t ≡ true → s ≡ t
unfolding text_eq
eq_of_text_eq [] [] h = refl
eq_of_text_eq [] (d ∷ ds) h = cc
eq_of_text_eq (c ∷ cs) [] h = cc
eq_of_text_eq (c ∷ cs) (d ∷ ds) h = ground (arith, eq_of_text_eq cs ds)

pub text_eq_refl : (s : Text) → text_eq s s ≡ true
unfolding text_eq
text_eq_refl [] = refl
text_eq_refl (c ∷ cs) = ground (arith, text_eq_refl cs)

pub text_eq_comm : (s t : Text) → text_eq s t ≡ text_eq t s
unfolding text_eq
text_eq_comm [] [] = refl
text_eq_comm [] (d ∷ t) = refl
text_eq_comm (c ∷ s) [] = refl
text_eq_comm (c ∷ s) (d ∷ t) = ground (arith, text_eq_comm s t)

pub text_eq_iff : (s t : Text) → (text_eq s t ≡ true) ↔ (s ≡ t)
text_eq_iff s t = (eq_of_text_eq s t, λ e. rw e (text_eq_refl t))

pub strip_prefix-append : (p s : Text) → strip_prefix p (p ++ s) ≡ some s
unfolding strip_prefix
strip_prefix-append [] s = refl
strip_prefix-append (c ∷ p) s = ground (arith, strip_prefix-append p s)

pub append_of_strip_prefix : (p s r : Text) → strip_prefix p s ≡ some r → s ≡ p ++ r
unfolding strip_prefix
append_of_strip_prefix [] s r h = ground arith
append_of_strip_prefix (c ∷ p) [] r h = cc
append_of_strip_prefix (c ∷ p) (d ∷ s) r h = ground (arith, append_of_strip_prefix p s r)

false-ne-true : false ≢ true
false-ne-true e = cc

none-ne-some : {A : Type 0} {a : A} → none ≢ some a
none-ne-some e = cc

pub starts_with_iff : (p s : Text) → (starts_with p s ≡ true) ↔ ((rest : Text) × (s ≡ p ++ rest))
unfolding starts_with
starts_with_iff p s = elim (Option-cases (strip_prefix p s)) [
  | inl e ↦
      rw (starts_with, e)
        (
          λ h. absurd (false-ne-true h),
          λ (rest, eq).
              absurd (none-ne-some {a = rest} (sym e ∙ (rw eq (strip_prefix-append p rest)))),
        )
  | inr (rest, e) ↦ rw (starts_with, e) (λ h. (rest, append_of_strip_prefix p s rest e), λ h. refl)
]
