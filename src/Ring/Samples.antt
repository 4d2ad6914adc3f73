-- ===== src/Ring/Samples.antt =====
-- Small inputs for the byte ring.
use rsupervisord.Prelude.{ℕ, ◌≡◌, arith, inr, List, [], ◌∷◌, Text, u64, some, true, false}
use rsupervisord.Prelude.Int.{pos, negsuc}
use rsupervisord.Ring.{
  ContinuousRingBuffer, new, write_chunk, write_bytes, write_storage, write_split, with_max_lines,
  snapshot_bytes, seed,
}
use rsupervisord.Ring.Inv.{Inv, new-Inv}
use rsupervisord.Ring.Stream.{
  write_all, write_all-Inv, snapshot-write_all, snapshot-seed, snapshot-seed_short,
}
use rsupervisord.Ring.Index.{Settled, write_all-Settled}
use rsupervisord.Ring.Reads.{
  read_bytes, tail_bytes, read_bytes_forward, read_bytes_backward, tail_bytes_zero,
}

abbrev chunks : List (List ℕ)
chunks = (b'a' ∷ b'b' ∷ b'\n' ∷ []) ∷ (b'c' ∷ b'd' ∷ []) ∷ []

abbrev stream : List ℕ
stream = b'a' ∷ b'b' ∷ b'\n' ∷ b'c' ∷ b'd' ∷ []

abbrev ring : ContinuousRingBuffer
ring = write_all (new 4) chunks

program : Unit {0}
unfolding write_all write_bytes write_chunk new with_max_lines write_storage write_split u64
program = tt

ring-Inv : Inv ring stream
ring-Inv = write_all-Inv chunks (new-Inv 4) (ground arith)

abbrev text : List ℕ → Text
text bytes = bytes

snapshot-write_all_example : snapshot_bytes ring ≡ b'b' ∷ b'\n' ∷ b'c' ∷ b'd' ∷ []
unfolding program
snapshot-write_all_example = snapshot-write_all 4 chunks (ground arith)

write_all-Settled_example :
    Settled stream 1
      (some 2)
      (write_all (with_max_lines 4 2) chunks).line_indices
      (write_all (with_max_lines 4 2) chunks).current_line_start
unfolding program
write_all-Settled_example = write_all-Settled 4 2 chunks (ground arith)

snapshot-seed_example : snapshot_bytes (seed ring stream 9) ≡ b'b' ∷ b'\n' ∷ b'c' ∷ b'd' ∷ []
unfolding program
snapshot-seed_example =
    snapshot-seed ring-Inv b'a' (b'b' ∷ b'\n' ∷ b'c' ∷ b'd' ∷ []) 9 (ground arith) (ground arith)
      (inr (ground arith))

-- The ring held "d", "b", newline, "c" in storage order; one byte of a file of three is seeded.
snapshot-seed_short_example : snapshot_bytes (seed ring (b'z' ∷ []) 3) ≡ b'd' ∷ b'b' ∷ b'z' ∷ []
unfolding program
snapshot-seed_short_example =
    snapshot-seed_short ring-Inv b'z' [] 3 (ground arith) (ground arith) (ground arith)

read_bytes_forward_example :
    read_bytes text ring (pos 2) (pos 2) ≡ (b'\n' ∷ b'c' ∷ [], pos 5, false)
unfolding program
read_bytes_forward_example = read_bytes_forward text ring-Inv (ground arith) 2 2 (ground arith)

read_bytes_backward_example :
    read_bytes text ring (negsuc 1) (pos 0) ≡ (b'c' ∷ b'd' ∷ [], pos 5, false)
unfolding program
read_bytes_backward_example =
    read_bytes_backward text ring-Inv (ground arith) 1 0 (ground arith) (ground arith)

tail_bytes_zero_example :
    tail_bytes text ring (pos 0) (pos 3) ≡ (b'\n' ∷ b'c' ∷ b'd' ∷ [], pos 5, true)
unfolding program
tail_bytes_zero_example = tail_bytes_zero text ring-Inv (ground arith) 3 (ground arith)
