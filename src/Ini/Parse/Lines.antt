-- ===== src/Ini/Parse/Lines.antt =====
-- How a line without quotes, marks and escapes passes the first steps of the loop.
use rsupervisord.Prelude.{
  ℕ, ◌≡◌, refl, ap, ◌∙◌, arith, Bool, true, false, not, ◌||◌, some, List, [], ◌∷◌, ◌++◌, ◌≢◌, Text,
  ◌==◌, is_whitespace, trim_start_matches, trim_end_matches, trim_start, trim_end, trim,
  starts_with, strip_prefix, split_once, All,
}
use rsupervisord.Ini.Parse.{
  outside, scan_quotes, begins_comment, strip_from, strip_inline_comment, lines,
}

-- No quote, no comment mark, no backslash, and no end of a line.
abbrev pub is_plain : ℕ → Bool
is_plain c = not (
    (c == b'\\')
    || (c == b'\'')
    || (c == b'"')
    || (c == b';')
    || (c == b'#')
    || (c == b'\n')
    || (c == b'\r'))

abbrev pub Plain : Text → Type 0
Plain [] = Unit {0}
Plain (c ∷ cs) = (is_plain c ≡ true) × Plain cs

pub Plain-append : (s t : Text) → Plain s → Plain t → Plain (s ++ t)
Plain-append [] t hs ht = ht
Plain-append (c ∷ s) t hs ht = (hs.0, Plain-append s t hs.1 ht)

strip_from-Plain : (line seen rest : Text) → Plain rest → strip_from line outside seen rest ≡ line
unfolding strip_from scan_quotes begins_comment
strip_from-Plain line seen [] h = refl
strip_from-Plain line seen (c ∷ rest) h =
    ground (arith, h, strip_from-Plain line (c ∷ seen) rest h.1)

pub strip_inline_comment-Plain : (line : Text) → Plain line → strip_inline_comment line ≡ line
unfolding strip_inline_comment
strip_inline_comment-Plain line h = strip_from-Plain line [] line h

abbrev pub at_line_end : ℕ → Bool
at_line_end c = (c == b'\r') || (c == b'\n')

pub trim_end_matches-Plain : (line : Text) → Plain line → trim_end_matches at_line_end line ≡ line
unfolding trim_end_matches
trim_end_matches-Plain [] h = refl
trim_end_matches-Plain (c ∷ []) h = ground (arith, h)
trim_end_matches-Plain (c ∷ d ∷ line) h = ground (arith, trim_end_matches-Plain (d ∷ line) h.1)

-- A line with its line feed in front of a text.
lines-Plain : (line rest : Text) → Plain line → lines (line ++ b'\n' ∷ rest) ≡ line ∷ lines rest
unfolding lines starts_with strip_prefix
lines-Plain [] rest h = refl
lines-Plain (c ∷ line) rest h = ground (arith, h, lines-Plain line rest h.1)

pub unlines : List Text → Text
unlines [] = []
unlines (l ∷ ls) = l ++ b'\n' ∷ unlines ls

pub lines-unlines : (ls : List Text) → All Plain ls → lines (unlines ls) ≡ ls
unfolding unlines
lines-unlines [] h = unfold lines in refl
lines-unlines (l ∷ ls) h = lines-Plain l (unlines ls) h.0 ∙ ap (◌∷◌ l) (lines-unlines ls h.1)

-- Nothing to trim in front.
abbrev pub Begins : Text → Type 0
Begins [] = Unit {0}
Begins (c ∷ s) = is_whitespace c ≡ false

-- Nothing to trim on either side.
pub record IsTrimmed (s : Text) : Type 0 where
  pub front : Begins s
  pub back : trim_end s ≡ s

pub trim_start-Begins : (s : Text) → Begins s → trim_start s ≡ s
unfolding trim_start trim_start_matches
trim_start-Begins [] h = refl
trim_start-Begins (c ∷ s) h = rw h refl

pub trim-IsTrimmed : (s : Text) → IsTrimmed s → trim s ≡ s
unfolding trim
trim-IsTrimmed s t = ap trim_end (trim_start-Begins s t.front) ∙ t.back

trim_end-cons : (c d : ℕ) (s t : Text) → trim_end s ≡ d ∷ t → trim_end (c ∷ s) ≡ c ∷ d ∷ t
unfolding trim_end trim_end_matches
trim_end-cons c d s t h = ground (arith, h)

pub trim_end-append : (s t : Text) → t ≢ [] → trim_end t ≡ t → trim_end (s ++ t) ≡ s ++ t
trim_end-append [] t ne h = h
trim_end-append (c ∷ []) [] ne h = absurd (ne refl)
trim_end-append (c ∷ []) (d ∷ t) ne h = trim_end-cons c d (d ∷ t) t h
trim_end-append (c ∷ b ∷ s) t ne h =
    trim_end-cons c b (b ∷ s ++ t) (s ++ t) (trim_end-append (b ∷ s) t ne h)

-- A character that is no white space, in front of a text with nothing to trim behind.
pub trim_end-mark :
    (c : ℕ) (s : Text) → is_whitespace c ≡ false → trim_end s ≡ s → trim_end (c ∷ s) ≡ c ∷ s
unfolding trim_end trim_end_matches
trim_end-mark c [] w h = rw w refl
trim_end-mark c (d ∷ s) w h = trim_end-cons c d (d ∷ s) s h

pub split_once-append :
    (d : ℕ) (k v : Text) → All (λ c. (c == d) ≡ false) k → split_once d (k ++ d ∷ v) ≡ some (k, v)
unfolding split_once
split_once-append d [] v h = ground arith
split_once-append d (c ∷ k) v h = ground (arith, split_once-append d k v h.1, h)
