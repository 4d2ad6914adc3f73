-- ===== src/Ring.antt =====
-- src/logging/continuous_ring.rs: the byte ring with its index of complete lines.
-- Bytes are numbers; offsets are `u64` values that wrap. The proofs are in the modules below.
pub mod Bytes
pub mod Inv
pub mod Stream
pub mod Lines
pub mod Evict
pub mod Index
pub mod Reads
mod Samples
use rsupervisord.Prelude.{
  ℕ, ◌+◌, ◌-◌, ◌%◌, min, max, Bool, true, false, not, ◌&&◌, Option, none, some, List, [], ◌∷◌, ◌++◌,
  ltb, leb, ◌==◌, if◌then◌else◌, length, take, drop, replicate, is_empty, u64,
}

pub record ContinuousRingBuffer : Type 0 where
  pub buffer : List ℕ
  pub capacity : ℕ
  pub cumulative_bytes : ℕ  -- u64
  pub log_start_offset : ℕ  -- u64
  pub line_indices : List (ℕ × ℕ)  -- (u64, u64)
  pub current_line_start : ℕ  -- u64
  pub max_line_index : Option ℕ

unfoldable pub new : ℕ → ContinuousRingBuffer
new capacity =
    let cap = max capacity 1 in
    record {
      buffer = replicate cap 0;
      capacity = cap;
      cumulative_bytes = 0;
      log_start_offset = 0;
      line_indices = [];
      current_line_start = 0;
      max_line_index = none;
    }

unfoldable pub with_max_lines : ℕ → ℕ → ContinuousRingBuffer
unfolding new
with_max_lines capacity max_lines = record (new capacity) {
  max_line_index = some (max max_lines 1);
}

unfoldable pub byte_size : ContinuousRingBuffer → ℕ
byte_size r = r.cumulative_bytes - r.log_start_offset

unfoldable pub line_count : ContinuousRingBuffer → ℕ
line_count r =
    length r.line_indices + (if ltb r.current_line_start r.cumulative_bytes then 1 else 0)

unfoldable pub is_drained : ContinuousRingBuffer → Bool
is_drained r = r.cumulative_bytes == r.log_start_offset

-- Step 1: each newline closes a line. The result is the index and the start of the open line.
unfoldable pub scan :
    (start_w i : ℕ)
    → List ℕ
    → (current_line_start : ℕ) → (line_indices : List (ℕ × ℕ)) → List (ℕ × ℕ) × ℕ
scan start_w i [] cls idx = (idx, cls)
scan start_w i (b ∷ bs) cls idx =
    let line_end = u64 (start_w + i + 1) in
    if b == b'\n'
    then scan start_w (i + 1) bs line_end (idx ++ (cls, line_end) ∷ [])
    else scan start_w (i + 1) bs cls idx

-- `buffer[pos..pos + src.len()].copy_from_slice(src)`
unfoldable pub write_at : List ℕ → ℕ → List ℕ → List ℕ
write_at buffer pos src = take pos buffer ++ (src ++ drop (pos + length src) buffer)

-- `xs[start..end]`
abbrev pub slice : ℕ → ℕ → List ℕ → List ℕ
slice start end xs = take (end - start) (drop start xs)

-- The two copies on both sides of the end of the storage: `first` bytes, then the others.
unfoldable pub write_split : List ℕ → (pos first : ℕ) → List ℕ → List ℕ
unfolding write_at
write_split buffer pos first src =
    write_at (write_at buffer pos (take first src)) 0 (drop first src)

-- Step 2: the storage after the write.
unfoldable pub write_storage : (buffer : List ℕ) (capacity start_w : ℕ) → List ℕ → List ℕ
write_storage buffer capacity start_w bytes =
    let data_len = length bytes in
    if leb capacity data_len
    then (let start_pos = u64 (start_w + (data_len - capacity)) % capacity in
        write_split buffer start_pos (capacity - start_pos) (drop (data_len - capacity) bytes))
    else (let phys_start = start_w % capacity in
        if leb (phys_start + data_len) capacity
        then write_at buffer phys_start bytes
        else write_split buffer phys_start (capacity - phys_start) bytes)

-- Step 4: lines whose start is overwritten leave the index.
unfoldable pub drop_expired : ℕ → List (ℕ × ℕ) → List (ℕ × ℕ)
drop_expired log_start [] = []
drop_expired log_start ((s, e) ∷ rest) =
    if ltb s log_start then drop_expired log_start rest else (s, e) ∷ rest

-- Step 5: at most `max_l` lines stay.
unfoldable pub cap_lines : ℕ → List (ℕ × ℕ) → List (ℕ × ℕ)
cap_lines max_l [] = []
cap_lines max_l (x ∷ rest) =
    if ltb max_l (length (x ∷ rest)) then cap_lines max_l rest else x ∷ rest

unfoldable pub retain : Option ℕ → List (ℕ × ℕ) → List (ℕ × ℕ)
unfolding cap_lines
retain none idx = idx
retain (some max_l) idx = cap_lines max_l idx

-- `write_bytes` on a slice that is not empty.
unfoldable pub write_chunk : ContinuousRingBuffer → List ℕ → ContinuousRingBuffer
write_chunk r bytes =
    let (idx, cls) = scan r.cumulative_bytes 0 bytes r.current_line_start r.line_indices in
    let cumulative = u64 (r.cumulative_bytes + length bytes) in
    let log_start = if ltb r.capacity cumulative then cumulative - r.capacity else 0 in
    record r {
      buffer = write_storage r.buffer r.capacity r.cumulative_bytes bytes;
      cumulative_bytes = cumulative;
      log_start_offset = log_start;
      line_indices = retain r.max_line_index (drop_expired log_start idx);
      current_line_start = if ltb cls log_start then log_start else cls;
    }

unfoldable pub write_bytes : ContinuousRingBuffer → List ℕ → ContinuousRingBuffer
write_bytes r bytes = if is_empty bytes then r else write_chunk r bytes

unfoldable pub ends_with_newline : List ℕ → Bool
ends_with_newline [] = false
ends_with_newline (b ∷ []) = b == b'\n'
ends_with_newline (b ∷ c ∷ cs) = ends_with_newline (c ∷ cs)

unfoldable pub write_line : ContinuousRingBuffer → List ℕ → ContinuousRingBuffer
write_line r bytes =
    if ends_with_newline bytes
    then write_bytes r bytes
    else write_bytes (write_bytes r bytes) (b'\n' ∷ [])

-- The copy of a range that is not empty, in one piece or in two.
unfoldable pub copy_window : (buffer : List ℕ) (capacity eff_start eff_end : ℕ) → List ℕ
copy_window buffer capacity eff_start eff_end =
    let phys_start = eff_start % capacity in
    let phys_end = eff_end % capacity in
    if ltb phys_start phys_end
    then slice phys_start phys_end buffer
    else if (phys_start == phys_end) && (eff_end - eff_start == capacity)
    then drop phys_start buffer ++ take phys_start buffer
    else drop phys_start buffer ++ take phys_end buffer

-- The bytes that `copy_range` appends to `out`.
unfoldable pub copy_range : ContinuousRingBuffer → ℕ → ℕ → List ℕ
copy_range r start end =
    let eff_start = max start r.log_start_offset in
    let eff_end = min end r.cumulative_bytes in
    if leb eff_end eff_start then [] else copy_window r.buffer r.capacity eff_start eff_end

unfoldable pub clear : ContinuousRingBuffer → ContinuousRingBuffer
clear r = record r {
  cumulative_bytes = 0;
  log_start_offset = 0;
  current_line_start = 0;
  line_indices = [];
}

unfoldable pub seed : ContinuousRingBuffer → List ℕ → ℕ → ContinuousRingBuffer
seed r bytes total_file_size =
    let c = clear r in
    let seed_start = total_file_size - length bytes in
    if ltb 0 total_file_size && not (is_empty bytes)
    then record (write_bytes
        (record c { cumulative_bytes = seed_start; current_line_start = seed_start }) bytes) {
          cumulative_bytes = total_file_size;
        }
    else record c {
      cumulative_bytes = total_file_size;
      log_start_offset = total_file_size;
      current_line_start = total_file_size;
    }

unfoldable pub snapshot_bytes : ContinuousRingBuffer → List ℕ
snapshot_bytes r = copy_range r r.log_start_offset r.cumulative_bytes
