-- ===== src/Prelude/Words.antt =====
-- Machine words: arithmetic that wraps, as a release build has it.
use Prim.Native.Nat.{ℕ, ◌*◌, ◌%◌, ◌^◌, ◌<◌}
use mathlib.Core.Path.{◌≡◌}
use native.Mathlib.Nat.{mod-eq_of_lt}

-- A duration in nanoseconds.
abbrev pub from_secs : ℕ → ℕ
from_secs n = n * 1_000_000_000

abbrev pub u64_mod : ℕ
u64_mod = 2 ^ 64

-- The value of a `u64` (and of a `usize`, on the 64-bit targets) that an operation leaves.
unfoldable pub u64 : ℕ → ℕ
u64 n = n % u64_mod

pub u64_lem : (n : ℕ) → n < u64_mod → u64 n ≡ n
unfolding u64
u64_lem n h = mod-eq_of_lt h

abbrev pub u32_mod : ℕ
u32_mod = 2 ^ 32

unfoldable pub u32 : ℕ → ℕ
u32 n = n % u32_mod

pub u32_lem : (n : ℕ) → n < u32_mod → u32 n ≡ n
unfolding u32
u32_lem n h = mod-eq_of_lt h
