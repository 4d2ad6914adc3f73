-- ===== src/Ring/Bytes.antt =====
-- The storage of the ring, position by position.
use native.Mathlib.Decide.{dec_lt}
use native.Mathlib.Nat.{mod-lt, mod-eq_of_lt, mod-add-mod, mod-eq-sub-mod}
use rsupervisord.Prelude.{
  ℕ, ◌+◌, ◌-◌, ◌%◌, ◌≤◌, ◌<◌, ◌≡◌, ◌⊎◌, inl, inr, sym, ◌∙◌, List, ◌++◌, arith, ltb, leb,
  if◌then◌else◌, leb→le, leb→lt, Bool-cases, length, get_elem?, take, drop, get_elem?-append,
  get_elem?-take, get_elem?-drop, length-append, length-take, length-drop, u64, u64_mod, u64_lem,
}
use rsupervisord.Ring.{write_at, write_split, write_storage}

pub length-write_at :
    (buf : List ℕ) (pos : ℕ) (src : List ℕ)
    → pos + length src ≤ length buf
    → length (write_at buf pos src) ≡ length buf
unfolding write_at
length-write_at buf pos src h = omega (
  arith,
  length-append (take pos buf) (src ++ drop (pos + length src) buf),
  length-append src (drop (pos + length src) buf),
  length-take pos buf,
  length-drop (pos + length src) buf,
)

pub get_elem?-write_at :
    (buf : List ℕ) (pos : ℕ) (src : List ℕ) (k : ℕ)
    → pos + length src ≤ length buf
    → get_elem? (write_at buf pos src) k ≡ (
        if ltb k pos
        then get_elem? buf k
        else if ltb k (pos + length src)
        then get_elem? src (k - pos)
        else get_elem? buf k)
unfolding write_at
get_elem?-write_at buf pos src k h = ground (
  arith,
  get_elem?-append (take pos buf) (src ++ drop (pos + length src) buf) k,
  get_elem?-append src (drop (pos + length src) buf) (k - length (take pos buf)),
  get_elem?-take pos buf k,
  get_elem?-drop (pos + length src) buf (k - length (take pos buf) - length src),
  length-take pos buf,
)

-- The two chunks of a write that passes the end of the storage.
module _ (buf : List ℕ) (pos first : ℕ) (src : List ℕ) where
  pub length-write_split :
      pos + first ≡ length buf
      → first ≤ length src
      → length src ≤ length buf
      → length (write_split buf pos first src) ≡ length buf
  unfolding write_split
  length-write_split ends passes fits = omega (
    arith,
    length-take first src,
    length-drop first src,
    length-write_at buf pos (take first src),
    length-write_at (write_at buf pos (take first src)) 0 (drop first src),
  )

  pub get_elem?-write_split :
      (k : ℕ)
      → pos + first ≡ length buf
      → first ≤ length src
      → length src ≤ length buf
      → k < length buf
      → get_elem? (write_split buf pos first src) k ≡ (
          if ltb k (length src - first)
          then get_elem? src (first + k)
          else if leb pos k
          then get_elem? src (k - pos)
          else get_elem? buf k)
  unfolding write_split
  get_elem?-write_split k ends passes fits inside = ground (
    arith,
    length-take first src,
    length-drop first src,
    length-write_at buf pos (take first src),
    get_elem?-write_at (write_at buf pos (take first src)) 0 (drop first src) k,
    get_elem?-write_at buf pos (take first src) k,
    get_elem?-drop first src k,
    get_elem?-take first src (k - pos),
  )

-- The remainders of positions that are less than one turn apart.
module _ (c w d : ℕ) (pos : 0 < c) where
  pub mod-add_cases :
      d < c
      → ((w % c + d < c) × ((w + d) % c ≡ w % c + d))
        ⊎ ((c ≤ w % c + d) × ((w + d) % c ≡ w % c + d - c))
  mod-add_cases h = elim (dec_lt (w % c + d) c) [
    | yes p ↦ inl (p, sym (mod-add-mod w c d) ∙ mod-eq_of_lt p)
    | no p ↦ inr (
      omega arith,
      sym (mod-add-mod w c d)
          ∙ mod-eq-sub-mod {n = w % c + d} {m = c} (omega arith)
          ∙ mod-eq_of_lt (mod_turn (w % c) (mod-lt w pos) h),
    )
  ]
    where
      mod_turn : (r : ℕ) → r < c → d < c → r + d - c < c
      mod_turn r p q = omega arith

-- The storage holds the bytes of the stream from offset `lo` on.
abbrev pub Holds : List ℕ → ℕ → ℕ → List ℕ → Type 0
Holds buf c lo h = (i : ℕ) → lo ≤ i → i < length h → get_elem? buf (i % c) ≡ get_elem? h i

module _ (buf : List ℕ) (c : ℕ) (h bytes : List ℕ) (pos : 0 < c) (sized : length buf ≡ c) where
  at_write :
      (i : ℕ)
      → get_elem? (h ++ bytes) i
        ≡ (if ltb i (length h) then get_elem? h i else get_elem? bytes (i - length h))
  at_write i = get_elem?-append h bytes i

  -- A write at least as long as the storage replaces all of it.
  overwrite-Holds :
      c ≤ length bytes
      → Holds
          (write_split buf
            ((length h + (length bytes - c)) % c)
            (c - (length h + (length bytes - c)) % c)
            (drop (length bytes - c) bytes))
          c
          (length h + length bytes - c)
          (h ++ bytes)
  overwrite-Holds le i lo hi = ground (
    arith,
    at_write i,
    length-append h bytes,
    mod-lt (length h + (length bytes - c)) pos,
    mod-add_cases c (length h + (length bytes - c)) (i - (length h + (length bytes - c))) pos,
    length-drop (length bytes - c) bytes,
    get_elem?-drop (length bytes - c) bytes (i - (length h + (length bytes - c))),
    get_elem?-write_split buf ((length h + (length bytes - c)) % c)
        (c - (length h + (length bytes - c)) % c) (drop (length bytes - c) bytes) (i % c),
  )

  -- A shorter write goes behind the newest byte, in one piece or in two.
  abbrev p : ℕ
  p = length h % c

  module _ (old : Holds buf c (length h - c) h) (short : length bytes < c) where
    append-Holds :
        p + length bytes ≤ c
        → Holds (write_at buf p bytes) c (length h + length bytes - c) (h ++ bytes)
    append-Holds le i lo hi = ground (
      arith,
      old i,
      at_write i,
      length-append h bytes,
      mod-lt i pos,
      mod-add_cases c (length h) (i - length h) pos,
      mod-add_cases c i (length h - i) pos,
      get_elem?-write_at buf p bytes (i % c),
    )

    wrap-Holds :
        c < p + length bytes
        → Holds (write_split buf p (c - p) bytes) c (length h + length bytes - c) (h ++ bytes)
    wrap-Holds lt i lo hi = ground (
      arith,
      old i,
      at_write i,
      length-append h bytes,
      mod-lt i pos,
      mod-lt (length h) pos,
      mod-add_cases c (length h) (i - length h) pos,
      mod-add_cases c i (length h - i) pos,
      get_elem?-write_split buf p (c - p) bytes (i % c),
    )

  -- After a write the storage holds the last `c` bytes of the longer stream.
  pub write_storage-Holds :
      (length bytes < c → Holds buf c (length h - c) h)
      → length h + length bytes < u64_mod
      → Holds (write_storage buf c (length h) bytes) c (length h + length bytes - c) (h ++ bytes)
  unfolding write_storage
  write_storage-Holds old bound =
      let e : u64 (length h + (length bytes - c)) ≡ length h + (length bytes - c) =
        u64_lem _ (omega arith) in
      elim (Bool-cases (leb c (length bytes))) [
        | inl t ↦ rw (t, e) (overwrite-Holds (leb→le _ _ t))
        | inr f ↦ elim (Bool-cases (leb (p + length bytes) c)) [
          | inl g ↦ rw (f, g) (append-Holds (old (leb→lt _ _ f)) (leb→lt _ _ f) (leb→le _ _ g))
          | inr g ↦ rw (f, g) (wrap-Holds (old (leb→lt _ _ f)) (leb→lt _ _ f) (leb→lt _ _ g))
        ]
      ]

  pub length-write_storage :
      length h + length bytes < u64_mod → length (write_storage buf c (length h) bytes) ≡ c
  unfolding write_storage
  length-write_storage bound =
      let e : u64 (length h + (length bytes - c)) ≡ length h + (length bytes - c) =
        u64_lem _ (omega arith) in
      rw e (
        ground (
          arith,
          mod-lt (length h) pos,
          mod-lt (length h + (length bytes - c)) pos,
          length-drop (length bytes - c) bytes,
          length-write_at buf p bytes,
          length-write_split buf p (c - p) bytes,
          length-write_split buf ((length h + (length bytes - c)) % c)
              (c - (length h + (length bytes - c)) % c) (drop (length bytes - c) bytes),
        ))
