-- ===== src/Prelude/Int.antt =====
-- Signed integers over the native numbers, and the `i64` values that the program computes with.
use Prim.Native.Nat.{ℕ, suc, ◌+◌, ◌-◌, ◌%◌, ◌^◌, ◌<◌, ◌≤◌}
use mathlib.Core.Path.{◌≡◌, ◌∙◌, ap}
use mathlib.Core.Bool.{Bool, true, false}
use mathlib.Core.Logic.{inl, inr}
use native.Mathlib.Omega.{arith}
use rsupervisord.Prelude.Tests.{ltb, leb, if◌then◌else◌, Bool-cases}
use rsupervisord.Prelude.Words.{u64_mod}

-- `negsuc n` is -(n + 1).
pub data ℤ : Type 0 where
  pos : ℕ → ℤ
  negsuc : ℕ → ℤ

abbrev pub pos_part : ℤ → ℕ
pos_part (pos n) = n
pos_part (negsuc n) = 0

abbrev pub neg_part : ℤ → ℕ
neg_part (pos n) = 0
neg_part (negsuc n) = suc n

-- a - b, as an integer.
abbrev pub sub_ℕ : ℕ → ℕ → ℤ
sub_ℕ a b = if leb b a then pos (a - b) else negsuc (b - a - 1)

infixl 65 ◌+ℤ◌ ◌-ℤ◌
unfoldable pub ◌+ℤ◌ : ℤ → ℤ → ℤ
a +ℤ b = sub_ℕ (pos_part a + pos_part b) (neg_part a + neg_part b)

unfoldable pub ◌-ℤ◌ : ℤ → ℤ → ℤ
a -ℤ b = sub_ℕ (pos_part a + neg_part b) (neg_part a + pos_part b)

unfoldable pub ltb_ℤ : ℤ → ℤ → Bool
ltb_ℤ a b = ltb (pos_part a + neg_part b) (pos_part b + neg_part a)

unfoldable pub max_ℤ : ℤ → ℤ → ℤ
unfolding ltb_ℤ
max_ℤ a b = if ltb_ℤ a b then b else a

abbrev pub i64_half : ℕ
i64_half = 2 ^ 63

-- `as i64` of an unsigned value.
unfoldable pub as_i64 : ℕ → ℤ
as_i64 n = let m = n % u64_mod in if ltb m i64_half then pos m else negsuc (u64_mod - m - 1)

-- `as u64` and `as usize` of a signed value.
unfoldable pub as_u64 : ℤ → ℕ
as_u64 (pos n) = n % u64_mod
as_u64 (negsuc n) = u64_mod - 1 - n % u64_mod

-- The `i64` that an operation with the exact result `z` leaves.
unfoldable pub i64 : ℤ → ℤ
unfolding as_i64 as_u64
i64 z = as_i64 (as_u64 z)

-- `i64::saturating_sub`.
unfoldable pub saturating_sub_i64 : ℤ → ℤ → ℤ
unfolding ◌-ℤ◌ ltb_ℤ
saturating_sub_i64 a b =
    let d = a -ℤ b in
    if ltb_ℤ d (negsuc (i64_half - 1))
    then negsuc (i64_half - 1)
    else if ltb_ℤ d (pos i64_half)
    then d
    else pos (i64_half - 1)

pub as_i64_lem : (n : ℕ) → n < i64_half → as_i64 n ≡ pos n
unfolding as_i64
as_i64_lem n h = ground arith

pub as_u64_lem : (n : ℕ) → n < u64_mod → as_u64 (pos n) ≡ n
unfolding as_u64
as_u64_lem n h = omega arith

pub i64_lem : (z : ℤ) → pos_part z < i64_half → neg_part z ≤ i64_half → i64 z ≡ z
unfolding i64
i64_lem (pos n) p q = ground arith
i64_lem (negsuc n) p q = ground arith

unfoldable pub is_zero : ℤ → Bool
is_zero z = leb (pos_part z + neg_part z) 0

-- Sums and differences of values in range are exact.
pub i64_add : (a n : ℕ) → a + n < i64_half → i64 (pos a +ℤ as_i64 n) ≡ pos (a + n)
unfolding ◌+ℤ◌
i64_add a n h =
    rw (as_i64_lem n (omega arith)) (ap i64 (go a n) ∙ i64_lem (pos (a + n)) h (omega arith))
  where
    go : (a n : ℕ) → pos a +ℤ pos n ≡ pos (a + n)
    go a n = ground arith

pub i64_sub : (a b : ℕ) → b ≤ a → a < i64_half → i64 (pos a -ℤ pos b) ≡ pos (a - b)
unfolding ◌-ℤ◌
i64_sub a b le h = ap i64 (go a b le) ∙ i64_lem (pos (a - b)) (omega arith) (omega arith)
  where
    go : (a b : ℕ) → b ≤ a → pos a -ℤ pos b ≡ pos (a - b)
    go a b le = ground arith

pub ltb_ℤ_pos : (a b : ℕ) → ltb_ℤ (pos a) (pos b) ≡ ltb a b
unfolding ltb_ℤ
ltb_ℤ_pos a b = ground arith

pub ltb_ℤ_negsuc : (a b : ℕ) → ltb_ℤ (negsuc a) (pos b) ≡ true
unfolding ltb_ℤ
ltb_ℤ_negsuc a b = ground arith

pub ltb_zero : (a : ℕ) → ltb a 0 ≡ false
ltb_zero a = ground arith

-- An offset that counts back from `n`, and its comparison with a lower bound `o`.
pub i64_back :
    (n k o : ℕ) → n < i64_half → k + 1 + o ≤ n → i64 (pos n +ℤ negsuc k) ≡ pos (n - (k + 1))
unfolding ◌+ℤ◌
i64_back n k o small le =
    ap i64 (go n k o le) ∙ i64_lem (pos (n - (k + 1))) (omega arith) (omega arith)
  where
    go : (n k o : ℕ) → k + 1 + o ≤ n → pos n +ℤ negsuc k ≡ pos (n - (k + 1))
    go n k o le = ground arith

pub i64_back_lt :
    (n k o : ℕ)
    → n < i64_half
    → k < i64_half
    → n < k + 1 + o
    → ltb_ℤ (i64 (pos n +ℤ negsuc k)) (pos o) ≡ true
unfolding ◌+ℤ◌ ltb_ℤ
i64_back_lt n k o small near lt = elim (Bool-cases (leb (0 + suc k) (n + 0))) [
  | inl t ↦
      rw t (rw (i64_lem (pos (n + 0 - (0 + suc k))) (omega arith) (omega arith)) (ground arith))
  | inr f ↦
      rw f (
        rw (i64_lem (negsuc (0 + suc k - (n + 0) - 1)) (omega arith) (ground arith)) (ground arith))
]

pub saturating_sub_i64_pos :
    (n m : ℕ) → m ≤ n → n < i64_half → saturating_sub_i64 (pos n) (pos m) ≡ pos (n - m)
unfolding saturating_sub_i64
saturating_sub_i64_pos n m le small = ground arith

pub max_ℤ_pos : (n m : ℕ) → m ≤ n → max_ℤ (pos n) (pos m) ≡ pos n
unfolding max_ℤ
max_ℤ_pos n m le = ground arith

pub is_zero_pos : (n : ℕ) → is_zero (pos n) ≡ leb n 0
unfolding is_zero
is_zero_pos n = ground arith
