-- ===== src/Ring/Inv.antt =====
-- The invariant of the ring against the stream of bytes written, and range reads.
use native.Mathlib.Decide.{dec_lt}
use native.Mathlib.Nat.{mod-lt, add-mod_right}
use rsupervisord.Prelude.{
  ℕ, ◌+◌, ◌-◌, ◌%◌, ◌≤◌, ◌<◌, min, max, ◌≡◌, refl, List, [], ◌∷◌, ◌++◌, append-nil, arith, leb,
  length, get_elem?, take, drop, get_elem?-take, get_elem?-drop, get_elem?-ge, get_elem?-append,
  length-append, length-take, length-drop, length-replicate, list_ext, Bool-cases, inl, inr, leb→le,
  leb→lt, u64_mod, u64_lem, u64,
}
use rsupervisord.Ring.{
  ContinuousRingBuffer, new, write_chunk, write_bytes, slice, copy_window, copy_range,
}
use rsupervisord.Ring.Bytes.{Holds, write_storage-Holds, length-write_storage, mod-add_cases}

-- `h` is everything written so far.
pub record Inv (r : ContinuousRingBuffer) (h : List ℕ) : Type 0 where
  pub pos : 0 < r.capacity
  pub sized : length r.buffer ≡ r.capacity
  pub total : r.cumulative_bytes ≡ length h
  pub oldest : r.log_start_offset ≡ length h - r.capacity
  pub holds : Holds r.buffer r.capacity (length h - r.capacity) h

pub new-Inv : (capacity : ℕ) → Inv (new capacity) []
unfolding new
new-Inv capacity = record {
  pos = omega arith;
  sized = length-replicate (max capacity 1) 0;
  total = refl;
  oldest = omega arith;
  holds = λ i lo hi. absurd (omega arith);
}

-- What a write needs of the ring: if it is short, the bytes that it keeps have to be there.
pub record Ready (r : ContinuousRingBuffer) (h : List ℕ) (n : ℕ) : Type 0 where
  pub pos : 0 < r.capacity
  pub sized : length r.buffer ≡ r.capacity
  pub total : r.cumulative_bytes ≡ length h
  pub holds : n < r.capacity → Holds r.buffer r.capacity (length h - r.capacity) h

module _ {r : ContinuousRingBuffer} {h : List ℕ} (bytes : List ℕ) (ready : Ready r h (length bytes))
    (bound : length h + length bytes < u64_mod) where
  pub write_chunk-Inv : Inv (write_chunk r bytes) (h ++ bytes)
  unfolding write_chunk
  write_chunk-Inv =
      let len = length-append h bytes in
      let sum : u64 (length h + length bytes) ≡ length h + length bytes = u64_lem _ bound in
      record {
        pos = ready.pos;
        sized =
            rw ready.total
              (length-write_storage r.buffer r.capacity h bytes ready.pos ready.sized bound);
        total = rw (ready.total, sum, len) refl;
        oldest = rw (ready.total, sum, len) (ground arith);
        holds = rw ready.total (λ i lo hi.
            write_storage-Holds r.buffer r.capacity h bytes ready.pos ready.sized ready.holds bound
              i (omega (arith, len)) hi);
      }

Inv-Ready : {r : ContinuousRingBuffer} {h : List ℕ} (n : ℕ) → Inv r h → Ready r h n
Inv-Ready n inv = record {
  pos = inv.pos;
  sized = inv.sized;
  total = inv.total;
  holds = λ _. inv.holds;
}

-- Every write extends the stream by its bytes.
pub write_bytes-Inv :
    {r : ContinuousRingBuffer} {h : List ℕ} (bytes : List ℕ)
    → Inv r h
    → length h + length bytes < u64_mod
    → Inv (write_bytes r bytes) (h ++ bytes)
unfolding write_bytes
write_bytes-Inv [] inv bound = rw append-nil inv
write_bytes-Inv (b ∷ bs) inv bound = write_chunk-Inv (b ∷ bs) (Inv-Ready _ inv) bound

module _ (buf h : List ℕ) (c a b : ℕ) (pos : 0 < c) (sized : length buf ≡ c)
    (held : Holds buf c (length h - c) h) (later : a < b) (new_enough : length h - c ≤ a)
    (old_enough : b ≤ length h) where
  abbrev tail : List ℕ
  tail = drop (a % c) buf

  -- Two steps less than a turn apart.
  window_at :
      (j : ℕ) → j < b - a → get_elem? (copy_window buf c a b) j ≡ get_elem? buf ((a + j) % c)
  unfolding copy_window
  window_at j near = ground (
    arith,
    mod-lt a pos,
    mod-lt b pos,
    mod-add_cases c a j pos,
    mod-add_cases c a (b - a) pos,
    add-mod_right a c,
    get_elem?-take (b % c - a % c) tail j,
    get_elem?-drop (a % c) buf j,
    get_elem?-append tail (take (a % c) buf) j,
    get_elem?-append tail (take (b % c) buf) j,
    length-drop (a % c) buf,
    get_elem?-take (a % c) buf (j - length tail),
    get_elem?-take (b % c) buf (j - length tail),
  )

  length-window : length (copy_window buf c a b) ≡ b - a
  unfolding copy_window
  length-window = ground (
    arith,
    mod-lt a pos,
    mod-lt b pos,
    mod-add_cases c a (b - a) pos,
    add-mod_right a c,
    length-take (b % c - a % c) tail,
    length-drop (a % c) buf,
    length-append tail (take (a % c) buf),
    length-append tail (take (b % c) buf),
    length-take (a % c) buf,
    length-take (b % c) buf,
  )

  copy_window-eq-slice : copy_window buf c a b ≡ slice a b h
  copy_window-eq-slice = list_ext _ _ λ j. elim (dec_lt j (b - a)) [
    | yes near ↦ ground (
      arith,
      window_at j,
      held (a + j),
      get_elem?-take (b - a) (drop a h) j,
      get_elem?-drop a h j,
    )
    | no far ↦ ground (
      arith,
      length-window,
      get_elem?-ge (copy_window buf c a b) j,
      get_elem?-take (b - a) (drop a h) j,
    )
  ]

-- A range read returns the bytes of the stream in that range that are still retained, in order.
pub copy_range-eq-slice :
    {r : ContinuousRingBuffer} {h : List ℕ} (start end : ℕ)
    → Inv r h
    → copy_range r start end ≡ slice (max start (length h - r.capacity)) (min end (length h)) h
unfolding copy_range
copy_range-eq-slice {r} {h} start end inv =
    let a = max start (length h - r.capacity) in
    let b = min end (length h) in
    rw (inv.total, inv.oldest)
      (elim (Bool-cases (leb b a)) [
        | inl t ↦ rw t (rw (empty_slice a b (leb→le _ _ t)))
        | inr f ↦ rw f (
            copy_window-eq-slice r.buffer h r.capacity a b inv.pos inv.sized inv.holds
              (leb→lt _ _ f) (omega arith) (omega arith))
      ])
  where
    empty_slice : (a b : ℕ) → b ≤ a → slice a b h ≡ []
    empty_slice a b le = rw (sub_zero a b le)
      where
        sub_zero : (a b : ℕ) → b ≤ a → b - a ≡ 0
        sub_zero a b le = omega arith
