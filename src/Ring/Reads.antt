-- ===== src/Ring/Reads.antt =====
-- src/logging/continuous_ring.rs: the log reads by offset and length of the XML-RPC interface.
-- `lossy` stands for `String::from_utf8_lossy`.
use rsupervisord.Prelude.{
  ℕ, ◌+◌, ◌-◌, min, max, Bool, true, false, ◌≡◌, ◌<◌, ◌≤◌, List, [], ltb, ◌==◌, if◌then◌else◌, inl,
  inr, Bool-cases, ltb→lt, ltb→le, arith, length, Text, ap, ap₂, ◌∙◌,
}
use rsupervisord.Prelude.Int.{
  ℤ, pos, negsuc, ◌+ℤ◌, ◌-ℤ◌, is_zero, ltb_ℤ, max_ℤ, as_i64, as_u64, i64, saturating_sub_i64,
  i64_half, as_i64_lem, as_u64_lem, i64_add, i64_sub, ltb_ℤ_pos, ltb_ℤ_negsuc, ltb_zero,
  saturating_sub_i64_pos, max_ℤ_pos, is_zero_pos, i64_back, i64_back_lt,
}
use rsupervisord.Ring.{ContinuousRingBuffer, copy_range, slice}
use rsupervisord.Ring.Inv.{Inv, copy_range-eq-slice}

-- How many of the `rest` bytes a read of length `len` takes: 0 stands for all.
abbrev pub limit_len : (len rest : ℕ) → ℕ
limit_len len rest = if len == 0 then rest else min len rest

unfoldable pub clamp_len : ℤ → ℕ
unfolding max_ℤ as_u64
clamp_len l = as_u64 (max_ℤ l (pos 0))

module _ (lossy : List ℕ → Text) (r : ContinuousRingBuffer) where
  -- The end of `read_bytes`: the bytes from `start_off` on, `to_read` of them.
  read_from : ℤ → ℕ → List ℕ
  read_from start_off to_read =
      copy_range r (as_u64 start_off) (as_u64 (i64 (start_off +ℤ as_i64 to_read)))

  pub read_bytes : (offset length : ℤ) → Text × ℤ × Bool
  read_bytes offset length =
      let total_sz = as_i64 r.cumulative_bytes in
      let retained_sz = r.cumulative_bytes - r.log_start_offset in
      let oldest = as_i64 r.log_start_offset in
      let len = clamp_len length in
      let target = i64 (total_sz +ℤ offset) in
      let overflow = ltb_ℤ target oldest in
      let actual_start = if overflow then oldest else target in
      if ltb_ℤ offset (pos 0)
      then (let rem = as_u64 (i64 (total_sz -ℤ actual_start)) in
          (lossy (read_from actual_start (limit_len len rem)), total_sz, overflow))
      else if ltb_ℤ offset oldest
      then (lossy (read_from oldest (min len retained_sz)), total_sz, true)
      else if ltb_ℤ offset total_sz
      then (let rem = as_u64 (i64 (total_sz -ℤ offset)) in
          (lossy (read_from offset (limit_len len rem)), total_sz, false))
      else ([], total_sz, false)

  pub tail_bytes : (offset length : ℤ) → Text × ℤ × Bool
  tail_bytes offset length =
      let total_sz = as_i64 r.cumulative_bytes in
      let retained_sz = r.cumulative_bytes - r.log_start_offset in
      let oldest = as_i64 r.log_start_offset in
      let len = clamp_len length in
      let actual_len = limit_len len retained_sz in
      let start = max_ℤ (saturating_sub_i64 total_sz (as_i64 actual_len)) oldest in
      let overflow = ltb_ℤ offset oldest in
      let off = if overflow then oldest else offset in
      let to_read = limit_len len (as_u64 (i64 (total_sz -ℤ off))) in
      if is_zero offset
      then (
        lossy (copy_range r (as_u64 start) (as_u64 total_sz)),
        total_sz,
        ltb_ℤ (as_i64 actual_len) total_sz,
      )
      else if ltb_ℤ off total_sz
      then (lossy (read_from off to_read), i64 (off +ℤ as_i64 to_read), overflow)
      else ([], total_sz, false)

pub clamp_len_pos : (l : ℕ) → l < i64_half → clamp_len (pos l) ≡ l
unfolding clamp_len
clamp_len_pos l small = ground arith

module _ (lossy : List ℕ → Text) {r : ContinuousRingBuffer} {h : List ℕ} (inv : Inv r h)
    (bound : length h < i64_half) where
  abbrev pub oldest : ℕ
  oldest = length h - r.capacity

  copy_range_exact : (a b : ℕ) → oldest ≤ a → b ≤ length h → copy_range r a b ≡ slice a b h
  copy_range_exact a b lo hi =
      copy_range-eq-slice a b inv
      ∙ ap₂ (λ x y. slice x y h) (max-eq a oldest lo) (min-eq b (length h) hi)
    where
      min-eq : (x y : ℕ) → x ≤ y → min x y ≡ x
      min-eq x y p = omega arith

      max-eq : (x y : ℕ) → y ≤ x → max x y ≡ x
      max-eq x y p = omega arith

  read_from-eq :
      (a n : ℕ) → oldest ≤ a → a + n ≤ length h → read_from lossy r (pos a) n ≡ slice a (a + n) h
  unfolding read_from
  read_from-eq a n lo hi =
      rw (i64_add a n (omega arith), as_u64_lem a (omega arith), as_u64_lem (a + n) (omega arith))
        (copy_range_exact a (a + n) lo hi)

  rest-eq : (k : ℕ) → k ≤ length h → as_u64 (i64 (pos (length h) -ℤ pos k)) ≡ length h - k
  rest-eq k le = ap as_u64 (i64_sub (length h) k le bound) ∙ as_u64_lem _ (omega arith)

  -- A read with an offset and a length that are not negative, of a log of fewer than 2 ^ 63 bytes:
  -- from an offset that is no longer held, the oldest held bytes and the overflow mark; from a held
  -- offset the bytes after it, where length 0 asks for all; beyond the end nothing. The second
  -- part of the result is always the number of bytes logged.
  pub read_bytes_forward :
      (k l : ℕ)
      → l < i64_half
      → read_bytes lossy r (pos k) (pos l) ≡ (
          if ltb k oldest
          then (lossy (slice oldest (oldest + min l (length h - oldest)) h), pos (length h), true)
          else if ltb k (length h)
          then (lossy (slice k (k + limit_len l (length h - k)) h), pos (length h), false)
          else ([], pos (length h), false))
  unfolding read_bytes
  read_bytes_forward k l small =
      let len : clamp_len (pos l) ≡ l = clamp_len_pos l small in
      simp
        (
          inv.total,
          inv.oldest,
          as_i64_lem (length h) bound,
          as_i64_lem oldest (omega arith),
          len,
          ltb_ℤ_pos,
          ltb_zero,
        )
        (ground (
          arith,
          rest-eq k,
          read_from-eq oldest (min l (length h - oldest)),
          read_from-eq k (limit_len l (length h - k)),
        ))

  -- A read with a negative offset, of a log of fewer than 2 ^ 63 bytes: the bytes from that far
  -- before the end, or from the oldest held byte with the overflow mark if that is later; length 0
  -- asks for all of them.
  pub read_bytes_backward :
      (k l : ℕ)
      → l < i64_half
      → k < i64_half
      → read_bytes lossy r (negsuc k) (pos l) ≡ (
          let start = if ltb (length h) (k + 1 + oldest) then oldest else length h - (k + 1) in
          (
            lossy (slice start (start + limit_len l (length h - start)) h),
            pos (length h),
            ltb (length h) (k + 1 + oldest),
          ))
  unfolding read_bytes
  read_bytes_backward k l small near =
      let len : clamp_len (pos l) ≡ l = clamp_len_pos l small in
      simp
        (
          inv.total,
          inv.oldest,
          as_i64_lem (length h) bound,
          as_i64_lem oldest (omega arith),
          len,
          ltb_ℤ_negsuc,
        )
        (elim (Bool-cases (ltb (length h) (k + 1 + oldest))) [
          | inl t ↦
              rw (t, i64_back_lt (length h) k oldest bound near (ltb→lt _ _ t))
                (ground
                  (arith, rest-eq oldest, read_from-eq oldest (limit_len l (length h - oldest))))
          | inr f ↦
              rw (f, i64_back (length h) k oldest bound (ltb→le _ _ f), ltb_ℤ_pos)
                (ground (
                  arith,
                  ltb→le _ _ f,
                  rest-eq (length h - (k + 1)),
                  read_from-eq (length h - (k + 1)) (limit_len l (length h - (length h - (k + 1)))),
                ))
        ])

  abbrev pub kept : ℕ → ℕ
  kept l = limit_len l (length h - oldest)

  -- A tail with offset 0, of a log of fewer than 2 ^ 63 bytes: the newest `length` bytes that are
  -- held, all of these for length 0, and whether older ones were left out.
  pub tail_bytes_zero :
      (l : ℕ)
      → l < i64_half
      → tail_bytes lossy r (pos 0) (pos l)
        ≡ (lossy (slice (length h - kept l) (length h) h), pos (length h), ltb (kept l) (length h))
  unfolding tail_bytes
  tail_bytes_zero l small =
      let len : clamp_len (pos l) ≡ l = clamp_len_pos l small in
      let fits : kept l ≤ length h - oldest = ground arith in
      simp
        (
          inv.total,
          inv.oldest,
          as_i64_lem (length h) bound,
          as_i64_lem oldest (omega arith),
          len,
          as_i64_lem (kept l) (omega arith),
          ltb_ℤ_pos,
          is_zero_pos,
          as_u64_lem (length h) (omega arith),
          saturating_sub_i64_pos (length h) (kept l) (omega arith) bound,
          max_ℤ_pos (length h - kept l) oldest (omega arith),
          as_u64_lem (length h - kept l) (omega arith),
        )
        (ap (λ s. (lossy s, pos (length h), ltb (kept l) (length h)))
          (copy_range_exact (length h - kept l) (length h) (omega arith) (omega arith)))
