-- ===== src/Ini/Parse.antt =====
-- src/compat/ini/parser.rs, `strip_inline_comment` and `parse_ini_content`: a document read line
-- by line. A line is a list of characters; an indentation is counted in bytes.
pub mod Lines
pub mod Render
pub mod Steps
pub mod RoundTrip
use rsupervisord.Prelude.{
  ℕ, zero, suc, ◌+◌, ◌-◌, Bool, true, false, not, ◌&&◌, ◌||◌, Option, none, some, List, [], ◌∷◌,
  ◌++◌, map, reverse, Text, codes, ◌==◌, ltb, if◌then◌else◌, is_empty, is_whitespace,
  is_ascii_whitespace, trim_start_matches, trim_end_matches, trim_start, trim, starts_with,
  split_once, last?, byte_len, length, pop_back, drop,
}
use rsupervisord.Ini.Document.{ParsedIni, new, insert_entry}

-- Where the scan of a line stands with respect to quotes.
pub record Quotes : Type 0 where
  pub in_single : Bool
  pub in_double : Bool
  pub escape : Bool

unfoldable pub scan_quotes : Quotes → ℕ → Quotes
scan_quotes q ch =
    if q.escape
    then record q { escape = false }
    else if ch == b'\\'
    then record q { escape = true }
    else if (ch == b'\'') && not q.in_double
    then record q { in_single = not q.in_single }
    else if (ch == b'"') && not q.in_single
    then record q { in_double = not q.in_double }
    else q

-- A mark outside of quotes, at the start or behind white space. `seen` is what stands before it,
-- last character first.
unfoldable pub begins_comment : Quotes → Text → ℕ → Bool
unfolding is_whitespace
begins_comment q seen ch =
    not q.escape
    && not q.in_single
    && not q.in_double
    && ((ch == b';') || (ch == b'#'))
    && (elim seen [ [] ↦ true | prev_ch ∷ before ↦ is_whitespace prev_ch ])

unfoldable pub strip_from : Text → Quotes → Text → Text → Text
unfolding scan_quotes begins_comment trim_start_matches is_ascii_whitespace
strip_from line q seen [] = line
strip_from line q seen (ch ∷ rest) =
    let later = strip_from line (scan_quotes q ch) (ch ∷ seen) rest in
    if begins_comment q seen ch
    then reverse (trim_start_matches is_ascii_whitespace seen)
    else later

abbrev pub outside : Quotes
outside = record { in_single = false; in_double = false; escape = false }

unfoldable pub strip_inline_comment : Text → Text
strip_inline_comment line = strip_from line outside [] line

-- `str::lines`: a line feed ends a line, and a carriage return before it belongs to the ending.
unfoldable pub lines : Text → List Text
unfolding starts_with
lines [] = []
lines (c ∷ cs) =
    let rest = lines cs in
    if c == b'\n'
    then [] ∷ rest
    else if (c == b'\r') && starts_with (b'\n' ∷ []) cs
    then rest
    else elim rest [ [] ↦ (c ∷ []) ∷ [] | l ∷ ls ↦ (c ∷ l) ∷ ls ]

-- `str::replace` of a pattern that is not empty; the number counts the characters of a match that
-- are still to be skipped.
unfoldable pub replace_from : Text → Text → ℕ → Text → Text
unfolding starts_with
replace_from pattern by skip [] = []
replace_from pattern by (suc skip) (c ∷ cs) = replace_from pattern by skip cs
replace_from pattern by zero (c ∷ cs) =
    let matched = by ++ replace_from pattern by (length pattern - 1) cs in
    let other = c ∷ replace_from pattern by zero cs in
    if starts_with pattern (c ∷ cs) then matched else other

unfoldable pub replace : Text → Text → Text → Text
unfolding replace_from
replace pattern by s = replace_from pattern by 0 s

-- The variables of the loop.
pub record Reading : Type 0 where
  pub ini : ParsedIni
  pub current_section : Text
  pub current_key : Text
  pub current_val : Text
  pub current_key_indent : ℕ

unfoldable pub flush_kv : Text → Reading → Reading
flush_kv here_str r =
    let flushed = record r { current_key = []; current_val = [] } in
    if not (is_empty r.current_section) && not (is_empty r.current_key)
    then record flushed {
      ini =
          insert_entry r.current_section r.current_key
            (replace (codes "%(here)s") here_str r.current_val) r.ini;
    }
    else flushed

abbrev pub is_header : Text → Bool
is_header stripped =
    starts_with (b'[' ∷ []) stripped
    && (elim (last? stripped) [ none ↦ false | some c ↦ c == b']' ])

-- The key and the value of a line.
unfoldable pub split_entry : Text → Option (Text × Text)
split_entry stripped = elim (split_once b'=' stripped) [
  | none ↦ split_once b':' stripped
  | some (k, v) ↦ some (k, v)
]

-- The loop's body behind the tests for an empty line and for a comment.
unfoldable pub read_stripped : Text → ℕ → Text → Reading → Reading
read_stripped here_str indent stripped r =
    if is_empty stripped
    then r
    else if is_header stripped
    then record (flush_kv here_str r) {
      current_section = trim (pop_back (drop 1 stripped));
      current_key_indent = 0;
    }
    else if not (is_empty r.current_key) && ltb r.current_key_indent indent
    then record r {
      current_val =
          (if is_empty r.current_val then [] else r.current_val ++ b'\n' ∷ []) ++ stripped;
    }
    else elim (split_entry stripped) [
      | none ↦ r
      | some (k, v) ↦ record (flush_kv here_str r) {
        current_key = trim k;
        current_val = trim v;
        current_key_indent = indent;
      }
    ]

unfoldable pub read_line : Text → Text → Reading → Reading
read_line here_str raw_line r =
    let line = trim_end_matches (λ c. (c == b'\r') || (c == b'\n')) raw_line in
    let trimmed_start = trim_start line in
    if is_empty trimmed_start
      || starts_with (b';' ∷ []) trimmed_start
      || starts_with (b'#' ∷ []) trimmed_start
    then r
    else read_stripped here_str (byte_len line - byte_len trimmed_start)
        (trim (strip_inline_comment line)) r

unfoldable pub read_lines : Text → List Text → Reading → Reading
read_lines here_str [] r = r
read_lines here_str (l ∷ ls) r = read_lines here_str ls (read_line here_str l r)

abbrev pub start : Reading
start = record {
  ini = new;
  current_section = [];
  current_key = [];
  current_val = [];
  current_key_indent = 0;
}

-- `to_string_lossy` of the directory, with slashes; a dot where there is no directory.
unfoldable pub here_text : Option Text → Text
here_text none = b'.' ∷ []
here_text (some dir) = map (λ c. if c == b'\\' then b'/' else c) dir

unfoldable pub parse_ini_content : Text → Option Text → ParsedIni
parse_ini_content content here_dir =
    let here_str = here_text here_dir in
    (flush_kv here_str (read_lines here_str (lines content) start)).ini
