-- ===== src/Ini/Parse/Steps.antt =====
-- What one plain line does to the state of the loop, from any state.
use rsupervisord.Prelude.{
  ℕ, ◌-◌, ◌≡◌, ◌≢◌, refl, ap, ◌∙◌, arith, true, false, some, [], ◌∷◌, ◌++◌, Text, ◌==◌,
  if◌then◌else◌, is_empty, is_whitespace, trim_start, trim_end, trim, starts_with, strip_prefix,
  last?, byte_len, len_utf8, pop_back, All,
}
use rsupervisord.Ini.Parse.{Reading, flush_kv, split_entry, read_stripped, read_line}
use rsupervisord.Ini.Parse.Lines.{
  is_plain, Plain, Plain-append, strip_inline_comment-Plain, trim_end_matches-Plain, IsTrimmed,
  trim_start-Begins, trim-IsTrimmed, trim_end-append, trim_end-mark, split_once-append,
}
use rsupervisord.Ini.Parse.Render.{IsWord, Unbracketed}

starts_with-mark : (m c : ℕ) (s : Text) → starts_with (m ∷ []) (c ∷ s) ≡ (m == c)
unfolding starts_with strip_prefix
starts_with-mark m c s = ground arith

-- A plain line with something in it comes to `read_stripped` with its indentation.
read_line-Plain :
    (here_str l : Text) (c : ℕ) (s t : Text) (r : Reading)
    → Plain l
    → trim_start l ≡ c ∷ s
    → is_plain c ≡ true
    → trim l ≡ t
    → read_line here_str l r ≡ read_stripped here_str (byte_len l - byte_len (c ∷ s)) t r
unfolding read_line
read_line-Plain here_str l c s t r plain front p e = ground (
  arith,
  trim_end_matches-Plain l plain,
  strip_inline_comment-Plain l plain,
  starts_with-mark b';' c s,
  starts_with-mark b'#' c s,
  p,
)

last?-append : (s : Text) (c : ℕ) → last? (s ++ c ∷ []) ≡ some c
unfolding last?
last?-append [] c = refl
last?-append (d ∷ []) c = refl
last?-append (d ∷ e ∷ s) c = last?-append (e ∷ s) c

pop_back-append : (s : Text) (c : ℕ) → pop_back (s ++ c ∷ []) ≡ s
pop_back-append [] c = refl
pop_back-append (d ∷ []) c = refl
pop_back-append (d ∷ e ∷ s) c = ap (◌∷◌ d) (pop_back-append (e ∷ s) c)

bracket_front : is_whitespace b'[' ≡ false
unfolding is_whitespace
bracket_front = refl

bracket_back : trim_end (b']' ∷ []) ≡ b']' ∷ []
unfolding trim_end
bracket_back = refl

equals_front : is_whitespace b'=' ≡ false
unfolding is_whitespace
equals_front = refl

trim_start-space : (s : Text) → trim_start (b' ' ∷ s) ≡ trim_start s
unfolding trim_start is_whitespace
trim_start-space s = refl

pub cons-ne-nil : (c : ℕ) (s : Text) → c ∷ s ≢ []
cons-ne-nil c s e = cc

abbrev pub header : Text → Text
header name = b'[' ∷ (name ++ b']' ∷ [])

header-IsTrimmed : (name : Text) → IsTrimmed (header name)
header-IsTrimmed name = record {
  front = bracket_front;
  back = trim_end-append (b'[' ∷ name) (b']' ∷ []) (cons-ne-nil b']' []) bracket_back;
}

-- A section's line.
pub read_line-header :
    (here_str name : Text) (r : Reading)
    → IsWord name
    → read_line here_str (header name) r
      ≡ record (flush_kv here_str r) { current_section = name; current_key_indent = 0 }
unfolding read_stripped
read_line-header here_str name r w =
    let t = header-IsTrimmed name in
    read_line-Plain here_str (header name) b'[' (name ++ b']' ∷ []) (header name) r
      (refl, Plain-append name (b']' ∷ []) w.0 (refl, tt)) (trim_start-Begins (header name) t.front)
      refl (trim-IsTrimmed (header name) t)
    ∙ ground (
      arith,
      starts_with-mark b'[' b'[' (name ++ b']' ∷ []),
      last?-append (b'[' ∷ name) b']',
      pop_back-append name b']',
      trim-IsTrimmed name w.1,
    )

key_line-IsTrimmed :
    (key first : Text)
    → IsTrimmed key
    → key ≢ []
    → IsTrimmed first
    → IsTrimmed (key ++ b'=' ∷ first)
key_line-IsTrimmed [] first t ne f = absurd (ne refl)
key_line-IsTrimmed (c ∷ k) first t ne f = record {
  front = t.front;
  back =
      trim_end-append (c ∷ k) (b'=' ∷ first) (cons-ne-nil b'=' first)
        (trim_end-mark b'=' first equals_front f.back);
}

-- The line of a key, with the first line of its value.
pub read_line-key :
    (here_str key first : Text) (r : Reading)
    → IsWord key
    → Unbracketed key
    → All (λ c. (c == b'=') ≡ false) key
    → Plain first
    → IsTrimmed first
    → read_line here_str (key ++ b'=' ∷ first) r ≡ record (flush_kv here_str r) {
      current_key = key;
      current_val = first;
      current_key_indent = 0;
    }
unfolding read_stripped split_entry
read_line-key here_str [] first r w u eq plain f = absurd (w.2 refl)
read_line-key here_str (c ∷ k) first r w u eq plain f =
    let l = c ∷ (k ++ b'=' ∷ first) in
    let t = key_line-IsTrimmed (c ∷ k) first w.1 w.2 f in
    read_line-Plain here_str l c (k ++ b'=' ∷ first) l r
      (Plain-append (c ∷ k) (b'=' ∷ first) w.0 (refl, plain)) (trim_start-Begins l t.front)
      ((w.0).0) (trim-IsTrimmed l t)
    ∙ ground (
      arith,
      starts_with-mark b'[' c (k ++ b'=' ∷ first),
      u,
      split_once-append b'=' (c ∷ k) first eq,
      trim-IsTrimmed (c ∷ k) w.1,
      trim-IsTrimmed first f,
    )

unfoldable pub append_line : Text → Text → Text
append_line val l = (if is_empty val then [] else val ++ b'\n' ∷ []) ++ l

-- A further line of a value.
pub read_line-more :
    (here_str l : Text) (r : Reading)
    → IsWord l
    → Unbracketed l
    → is_empty r.current_key ≡ false
    → r.current_key_indent ≡ 0
    → read_line here_str (b' ' ∷ l) r ≡ record r { current_val = append_line r.current_val l }
unfolding read_stripped append_line byte_len len_utf8 trim
read_line-more here_str [] r w u k z = absurd (w.2 refl)
read_line-more here_str (c ∷ s) r w u k z =
    let start = trim_start-space (c ∷ s) ∙ trim_start-Begins (c ∷ s) (w.1).front in
    read_line-Plain here_str (b' ' ∷ c ∷ s) c s (c ∷ s) r (refl, w.0) start ((w.0).0)
      (ap trim_end start ∙ (w.1).back)
    ∙ ground (arith, starts_with-mark b'[' c s, u, k, z)
