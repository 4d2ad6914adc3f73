-- ===== src/Prelude/Outcome.antt =====
-- Rust's `Result` over any error type, with `?` as the bind of a `do` block.
use mathlib.Core.Path.{◌≡◌, refl}

pub data Outcome (E A : Type 0) : Type 0 where
  ok : A → Outcome E A
  err : E → Outcome E A

infixl 5 ◌>>=◌
abbrev pub ◌>>=◌ : {E A B : Type 0} → Outcome E A → (A → Outcome E B) → Outcome E B
m >>= f = elim m [ err e ↦ err e | ok a ↦ f a ]

-- Where a chain succeeds, so did its first step.
pub ok_of_bind :
    {E A B : Type 0} (m : Outcome E A) (f : A → Outcome E B) {b : B}
    → (m >>= f) ≡ ok b
    → (a : A) × (m ≡ ok a) × (f a ≡ ok b)
ok_of_bind (err e) f eq = cc
ok_of_bind (ok a) f eq = (a, refl, eq)
