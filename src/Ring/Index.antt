-- ===== src/Ring/Index.antt =====
-- The index of complete lines under eviction: what a write leaves of it.
use mathlib.Core.Path.{subst₂}
use rsupervisord.Prelude.{
  ℕ, ◌+◌, ◌-◌, ◌≤◌, ◌<◌, ◌≡◌, refl, ◌∙◌, ap, max, concat, if◌then◌else◌, Option, some, List, [],
  ◌∷◌, ◌++◌, append-nil, append_assoc, arith, ltb, Bool-cases, inl, inr, length, length-append, All,
  u64_mod, u64_lem, ltb→lt, ltb→le,
}
use rsupervisord.Ring.{
  ContinuousRingBuffer, new, with_max_lines, drop_expired, retain, write_chunk, write_bytes,
}
use rsupervisord.Ring.Inv.{Inv, new-Inv, write_bytes-Inv}
use rsupervisord.Ring.Stream.{write_all, write_all-Inv, capacity-write_all}
use rsupervisord.Ring.Lines.{Indexed, scan-Indexed}
use rsupervisord.Ring.Evict.{
  Kept, AtMost, drop_expired-Kept, drop_expired-eq-nil, retain-Kept, retain-nil,
}

-- What holds of an index, the oldest offset `lo` and the start of the open line.
pub record Settled (h : List ℕ) (lo : ℕ) (limit : Option ℕ) (idx : List (ℕ × ℕ)) (cls : ℕ)
    : Type 0 where
  pub indexed : Indexed h idx cls
  pub retained : All (λ l. lo ≤ l.0) idx
  pub opened : lo ≤ cls
  pub limited : AtMost limit idx

abbrev pub LinesInv : ContinuousRingBuffer → List ℕ → Type 0
LinesInv r h = Settled h r.log_start_offset r.max_line_index r.line_indices r.current_line_start

module _ (h : List ℕ) (lo : ℕ) (limit : Option ℕ) (idx : List (ℕ × ℕ)) (cls : ℕ)
    (i : Indexed h idx cls) (written : lo ≤ length h) where
  abbrev kept : List (ℕ × ℕ)
  kept = retain limit (drop_expired lo idx)

  kept_facts : Kept h lo kept cls × AtMost limit kept
  kept_facts = retain-Kept lo limit _ cls (drop_expired-Kept lo idx cls i.lines i.linked)

  -- The open line has lost its start: it is cut at the oldest byte, and the index is empty.
  settle_cut : cls < lo → Settled h lo limit kept lo
  settle_cut lt =
      let e : kept ≡ [] =
        ap (retain limit) (drop_expired-eq-nil h lo idx cls i.lines i.linked lt)
        ∙ retain-nil limit in
      record {
        indexed = record {
          lines = kept_facts.0.lines;
          linked = rw e tt;
          started = written;
          open_line = λ k a b. i.open_line k (omega arith) b;
        };
        retained = kept_facts.0.retained;
        opened = omega arith;
        limited = kept_facts.1;
      }

  settle_whole : lo ≤ cls → Settled h lo limit kept cls
  settle_whole le = record {
    indexed = record {
      lines = kept_facts.0.lines;
      linked = kept_facts.0.linked;
      started = i.started;
      open_line = i.open_line;
    };
    retained = kept_facts.0.retained;
    opened = le;
    limited = kept_facts.1;
  }

  settle : Settled h lo limit kept (if ltb cls lo then lo else cls)
  settle = elim (Bool-cases (ltb cls lo)) [
    | inl t ↦ rw t (settle_cut (ltb→lt _ _ t))
    | inr f ↦ rw f (settle_whole (ltb→le _ _ f))
  ]

new-LinesInv : (capacity : ℕ) → LinesInv (new capacity) []
unfolding new
new-LinesInv capacity = record {
  indexed = record {
    lines = tt;
    linked = tt;
    started = omega arith;
    open_line = λ k lo hi. absurd (omega arith);
  };
  retained = tt;
  opened = omega arith;
  limited = tt;
}

write_chunk-LinesInv :
    {r : ContinuousRingBuffer} {h : List ℕ} (bytes : List ℕ)
    → Inv r h
    → LinesInv r h
    → length h + length bytes < u64_mod
    → LinesInv (write_chunk r bytes) (h ++ bytes)
unfolding write_chunk
write_chunk-LinesInv {r} {h} bytes inv li bound =
    let scanned =
      scan-Indexed bytes h r.cumulative_bytes 0 (omega (arith, inv.total)) bound li.indexed in
    settle (h ++ bytes) _ r.max_line_index _ _ scanned (
      rw (inv.total, u64_lem (length h + length bytes) bound)
        (ground (arith, length-append h bytes)))

write_bytes-LinesInv :
    {r : ContinuousRingBuffer} {h : List ℕ} (bytes : List ℕ)
    → Inv r h
    → LinesInv r h
    → length h + length bytes < u64_mod
    → LinesInv (write_bytes r bytes) (h ++ bytes)
unfolding write_bytes
write_bytes-LinesInv [] inv li bound = rw append-nil li
write_bytes-LinesInv (b ∷ bs) inv li bound = write_chunk-LinesInv (b ∷ bs) inv li bound

write_all-LinesInv :
    (chunks : List (List ℕ)) {r : ContinuousRingBuffer} {h : List ℕ}
    → Inv r h
    → LinesInv r h
    → length h + length (concat chunks) < u64_mod
    → LinesInv (write_all r chunks) (h ++ concat chunks)
unfolding write_all
write_all-LinesInv [] inv li bound = rw append-nil li
write_all-LinesInv (b ∷ rest) {r} {h} inv li bound =
    let len = length-append b (concat rest) in
    let len' = length-append h b in
    let now : length h + length b < u64_mod = omega (arith, len) in
    rw (← append_assoc h b (concat rest)) (
      write_all-LinesInv rest (write_bytes-Inv b inv now) (write_bytes-LinesInv b inv li now)
        (omega (arith, len, len')))

with_max_lines-Inv : (capacity max_lines : ℕ) → Inv (with_max_lines capacity max_lines) []
unfolding with_max_lines new
with_max_lines-Inv capacity max_lines =
    let inv = new-Inv capacity in
    record {
      pos = inv.pos;
      sized = inv.sized;
      total = inv.total;
      oldest = inv.oldest;
      holds = inv.holds;
    }

limit-write_all :
    (r : ContinuousRingBuffer) (chunks : List (List ℕ))
    → (write_all r chunks).max_line_index ≡ r.max_line_index
unfolding write_all write_bytes write_chunk
limit-write_all r [] = refl
limit-write_all r ([] ∷ rest) = limit-write_all r rest
limit-write_all r ((b ∷ bs) ∷ rest) = limit-write_all (write_chunk r (b ∷ bs)) rest

module _ (capacity max_lines : ℕ) (chunks : List (List ℕ)) where
  abbrev start : ContinuousRingBuffer
  start = with_max_lines capacity max_lines

  abbrev pub final : ContinuousRingBuffer
  final = write_all start chunks

  start-LinesInv : LinesInv start []
  unfolding with_max_lines new
  start-LinesInv = record {
    indexed = (new-LinesInv capacity).indexed;
    retained = tt;
    opened = omega arith;
    limited = omega arith;
  }

  oldest-final :
      length (concat chunks) < u64_mod
      → final.log_start_offset ≡ length (concat chunks) - max capacity 1
  unfolding with_max_lines new
  oldest-final bound =
      (write_all-Inv chunks (with_max_lines-Inv capacity max_lines) (omega arith)).oldest
      ∙ ap (λ c. length (concat chunks) - c) (capacity-write_all start chunks)

  -- After any writes of fewer than 2 ^ 64 bytes in all to a new ring with a line limit: every
  -- entry of the index is a line of the stream that starts among its last `max capacity 1` bytes
  -- and ends in its only newline; each line begins where the one before it ends, and the open line
  -- where the last ends; no newline stands in the open line; and there are at most
  -- `max max_lines 1` entries.
  pub write_all-Settled :
      length (concat chunks) < u64_mod
      → Settled
          (concat chunks)
          (length (concat chunks) - max capacity 1)
          (some (max max_lines 1))
          final.line_indices
          final.current_line_start
  unfolding with_max_lines new
  write_all-Settled bound =
      let li =
        write_all-LinesInv chunks (with_max_lines-Inv capacity max_lines) start-LinesInv
          (omega arith) in
      subst₂
        (λ lo limit. Settled (concat chunks) lo limit final.line_indices final.current_line_start)
        (oldest-final bound) (limit-write_all start chunks) li
