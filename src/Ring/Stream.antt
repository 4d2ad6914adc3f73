-- ===== src/Ring/Stream.antt =====
-- What the ring shows of a run of writes, and of a seed followed by writes.
use native.Mathlib.Nat.{mod-eq_of_lt}
use rsupervisord.Prelude.{
  ℕ, ◌+◌, ◌-◌, ◌≤◌, ◌<◌, min, max, ◌≡◌, refl, ◌∙◌, ap, ◌⊎◌, List, [], ◌∷◌, ◌++◌, append-nil,
  append_assoc, arith, true, drop-append, ltb, lt→ltb, ap₂, length, take, drop, get_elem?-take,
  length-append, length-take, length-drop, length-replicate, take_of_length-le, replicate, concat,
  u64_mod,
}
use rsupervisord.Ring.{
  ContinuousRingBuffer, new, write_chunk, write_bytes, copy_range, snapshot_bytes, seed, clear,
}
use rsupervisord.Ring.Bytes.{Holds}
use rsupervisord.Ring.Inv.{Inv, new-Inv, write_chunk-Inv, write_bytes-Inv, copy_range-eq-slice}

-- Successive calls of `write_bytes`.
unfoldable pub write_all : ContinuousRingBuffer → List (List ℕ) → ContinuousRingBuffer
write_all r [] = r
write_all r (bytes ∷ rest) = write_all (write_bytes r bytes) rest

pub write_all-Inv :
    (chunks : List (List ℕ)) {r : ContinuousRingBuffer} {h : List ℕ}
    → Inv r h
    → length h + length (concat chunks) < u64_mod
    → Inv (write_all r chunks) (h ++ concat chunks)
unfolding write_all
write_all-Inv [] inv bound = rw append-nil inv
write_all-Inv (b ∷ rest) {r} {h} inv bound =
    let len = length-append b (concat rest) in
    let len' = length-append h b in
    rw (← append_assoc h b (concat rest))
      (write_all-Inv rest (write_bytes-Inv b inv (omega (arith, len))) (omega (arith, len, len')))

pub snapshot-eq-drop :
    (r : ContinuousRingBuffer) (h : List ℕ)
    → Inv r h
    → snapshot_bytes r ≡ drop (length h - r.capacity) h
unfolding snapshot_bytes
snapshot-eq-drop r h inv =
    ap₂ (copy_range r) inv.oldest inv.total
    ∙ copy_range-eq-slice (length h - r.capacity) (length h) inv
    ∙ whole (length h - r.capacity)
  where
    whole : (n : ℕ) → take (min (length h) (length h) - max n n) (drop (max n n) h) ≡ drop n h
    whole n =
        let e : max n n ≡ n = omega arith in
        rw e (take_of_length-le _ (drop n h) (omega (arith, length-drop n h)))

pub capacity-write_all :
    (r : ContinuousRingBuffer) (chunks : List (List ℕ)) → (write_all r chunks).capacity ≡ r.capacity
unfolding write_all write_bytes write_chunk
capacity-write_all r [] = refl
capacity-write_all r ([] ∷ rest) = capacity-write_all r rest
capacity-write_all r ((b ∷ bs) ∷ rest) = capacity-write_all (write_chunk r (b ∷ bs)) rest

-- After any writes of fewer than 2 ^ 64 bytes in all to a new ring of capacity `capacity`, the
-- snapshot is exactly the last `max capacity 1` bytes of what was written, in order.
pub snapshot-write_all :
    (capacity : ℕ) (chunks : List (List ℕ))
    → length (concat chunks) < u64_mod
    → snapshot_bytes (write_all (new capacity) chunks)
      ≡ drop (length (concat chunks) - max capacity 1) (concat chunks)
unfolding new
snapshot-write_all capacity chunks bound =
    snapshot-eq-drop _ _ (write_all-Inv chunks (new-Inv capacity) (omega arith))
    ∙ ap (λ c. drop (length (concat chunks) - c) (concat chunks))
        (capacity-write_all (new capacity) chunks)

module _ {r : ContinuousRingBuffer} {h : List ℕ} (inv : Inv r h) (b : ℕ) (bs : List ℕ) (total : ℕ)
    (fits : length (b ∷ bs) ≤ total) (bound : total < u64_mod) where
  abbrev bytes : List ℕ
  bytes = b ∷ bs

  seed_from :
      (pad : List ℕ)
      → length pad + length bytes ≡ total
      → (length bytes < r.capacity → Holds r.buffer r.capacity (length pad - r.capacity) pad)
      → Inv (seed r bytes total) (pad ++ bytes)
  unfolding seed write_bytes clear
  seed_from pad sum held =
      let written : Inv
          (write_chunk
            (record (clear r) {
              cumulative_bytes = total - length bytes;
              current_line_start = total - length bytes;
            })
            bytes)
          (pad ++ bytes) =
        write_chunk-Inv {h = pad} bytes
          (record { pos = inv.pos; sized = inv.sized; total = omega arith; holds = held })
          (omega arith) in
      let positive : ltb 0 total ≡ true = lt→ltb 0 total (omega arith) in
      rw positive (record {
        pos = written.pos;
        sized = written.sized;
        total = omega (arith, length-append pad bytes);
        oldest = written.oldest;
        holds = written.holds;
      })

  capacity-seed : (seed r bytes total).capacity ≡ r.capacity
  unfolding seed write_bytes write_chunk clear
  capacity-seed = rw (lt→ltb 0 total (omega arith))

  snapshot-seed_from :
      (pad : List ℕ)
      → length pad + length bytes ≡ total
      → (length bytes < r.capacity → Holds r.buffer r.capacity (length pad - r.capacity) pad)
      → snapshot_bytes (seed r bytes total) ≡ drop (total - r.capacity) (pad ++ bytes)
  snapshot-seed_from pad sum held =
      snapshot-eq-drop _ _ (seed_from pad sum held)
      ∙ ap₂ (λ n c. drop (n - c) (pad ++ bytes)) (length-append pad bytes ∙ sum) capacity-seed

  -- Seeding with the whole file, or with at least as many bytes as the ring holds, leaves exactly
  -- the last `capacity` of these bytes in the ring.
  pub snapshot-seed :
      (length bytes ≡ total) ⊎ (r.capacity ≤ length bytes)
      → snapshot_bytes (seed r bytes total) ≡ drop (length bytes - r.capacity) bytes
  snapshot-seed enough =
      let n = length-replicate {A = ℕ} (total - length bytes) 0 in
      snapshot-seed_from (replicate (total - length bytes) 0) (omega (arith, n))
        (λ short i lo hi. absurd (omega (arith, n)))
      ∙ drop-append (replicate (total - length bytes) 0) bytes (length bytes - r.capacity)
          (total - r.capacity) (omega (arith, n, inv.pos))

  -- Seeding a ring with fewer bytes than the file has, where the file would fit into the ring,
  -- shows the former content of the storage in front of the seeded bytes.
  pub snapshot-seed_short :
      total ≤ r.capacity
      → snapshot_bytes (seed r bytes total) ≡ take (total - length bytes) r.buffer ++ bytes
  snapshot-seed_short short =
      snapshot-seed_from pad (omega (arith, n)) held
      ∙ ap (λ m. drop m (pad ++ bytes)) (sub-eq-zero total r.capacity short)
    where
      pad : List ℕ
      pad = take (total - length bytes) r.buffer

      n : length pad ≡ total - length bytes
      n = omega (arith, length-take (total - length bytes) r.buffer, inv.sized)

      sub-eq-zero : (a c : ℕ) → a ≤ c → a - c ≡ 0
      sub-eq-zero a c le = omega arith

      held : length bytes < r.capacity → Holds r.buffer r.capacity (length pad - r.capacity) pad
      held less i lo hi =
          let small : i < r.capacity = omega (arith, n) in
          rw (mod-eq_of_lt small)
            (ground (arith, n, get_elem?-take (total - length bytes) r.buffer i))
