-- ===== src/Ini/Values/RoundTrip.antt =====
-- Environment strings with every value in double quotes, read back.
use rsupervisord.Prelude.{
  ℕ, ◌≡◌, ◌≢◌, refl, sym, ap, ◌∙◌, arith, Bool, true, false, not, ◌||◌, none, some, List, [], ◌∷◌,
  ◌++◌, Text, ◌==◌, if◌then◌else◌, is_empty, trim, All, append-nil, append_assoc,
}
use rsupervisord.Prelude.Maps
use rsupervisord.Prelude.Outcome.{ok, err, ◌>>=◌}
use rsupervisord.Prelude.Maps.{Map}
use rsupervisord.Ini.Parse.Lines.{IsTrimmed, trim-IsTrimmed}
use rsupervisord.Ini.Values.{
  missing_delimiter, unclosed_quote, Scan, flush_entry, scan_escaped, scan_plain, scan_char,
  scan_chars, finish, scan_start, parse_environment,
}

-- A value between double quotes: a quote and a backslash are written behind a backslash.
unfoldable pub quoted : Text → Text
quoted [] = []
quoted (c ∷ v) =
    let rest = quoted v in if (c == b'"') || (c == b'\\') then b'\\' ∷ c ∷ rest else c ∷ rest

unfoldable pub environment_of : List (Text × Text) → Text
environment_of [] = []
environment_of ((k, v) ∷ vars) = k ++ b'=' ∷ b'"' ∷ (quoted v ++ b'"' ∷ b',' ∷ environment_of vars)

abbrev pub is_key_char : ℕ → Bool
is_key_char c = not ((c == b'\\') || (c == b'\'') || (c == b'"') || (c == b'=') || (c == b','))

-- The name of a variable.
abbrev pub IsVariable : Text → Type 0
IsVariable k = All (λ c. is_key_char c ≡ true) k × IsTrimmed k × (k ≢ [])

unfoldable pub insert_all : List (Text × Text) → Map Text → Map Text
insert_all [] env = env
insert_all ((k, v) ∷ vars) env = insert_all vars (Maps.insert k v env)

-- Between two entries.
abbrev at_entry : Map Text → Scan
at_entry env = record scan_start { env = env }

scan_chars-key :
    (k rest : Text) (s : Scan)
    → All (λ c. is_key_char c ≡ true) k
    → s.escape ≡ false
    → s.quote_char ≡ none
    → s.in_key ≡ true
    → scan_chars (k ++ rest) s ≡ scan_chars rest (record s { cur_key = s.cur_key ++ k })
unfolding scan_chars scan_char scan_plain
scan_chars-key [] rest s h e q i = rw append-nil refl
scan_chars-key (c ∷ k) rest s h e q i = ground (
  arith,
  h.0,
  scan_chars-key k rest (record s { cur_key = s.cur_key ++ c ∷ [] }) h.1 e q i,
  append_assoc s.cur_key (c ∷ []) k,
)

scan_chars-quoted :
    (v rest : Text) (s : Scan)
    → s.escape ≡ false
    → s.quote_char ≡ some b'"'
    → scan_chars (quoted v ++ rest) s ≡ scan_chars rest (record s { cur_val = s.cur_val ++ v })
unfolding scan_chars scan_char scan_escaped quoted
scan_chars-quoted [] rest s e q = rw append-nil refl
scan_chars-quoted (c ∷ v) rest s e q = ground (
  arith,
  scan_chars-quoted v rest (record s { cur_val = s.cur_val ++ c ∷ [] }) e q,
  append_assoc s.cur_val (c ∷ []) v,
)

is_empty-key : (k : Text) → k ≢ [] → is_empty k ≡ false
is_empty-key [] ne = absurd (ne refl)
is_empty-key (c ∷ k) ne = refl

-- In the quotes of a value.
abbrev in_quotes : Map Text → Text → Text → Scan
in_quotes env k v = record (at_entry env) {
  cur_key = k;
  cur_val = v;
  in_key = false;
  quote_char = some b'"';
}

scan_chars-open :
    (k v rest : Text) (env : Map Text)
    → IsVariable k
    → scan_chars (k ++ b'=' ∷ b'"' ∷ (quoted v ++ rest)) (at_entry env)
      ≡ scan_chars rest (in_quotes env k v)
unfolding scan_chars scan_char scan_plain
scan_chars-open k v rest env h =
    scan_chars-key k (b'=' ∷ b'"' ∷ (quoted v ++ rest)) (at_entry env) h.0 refl refl refl
    ∙ scan_chars-quoted v rest (in_quotes env k []) refl refl

scan_chars-entry :
    (k v rest : Text) (env : Map Text)
    → IsVariable k
    → scan_chars (k ++ b'=' ∷ b'"' ∷ (quoted v ++ b'"' ∷ b',' ∷ rest)) (at_entry env)
      ≡ scan_chars rest (at_entry (Maps.insert k v env))
unfolding scan_chars scan_char scan_plain flush_entry
scan_chars-entry k v rest env h =
    scan_chars-open k v (b'"' ∷ b',' ∷ rest) env h
    ∙ rw (trim-IsTrimmed k h.1) (rw (is_empty-key k h.2) refl)

scan_chars-environment_of :
    (vars : List (Text × Text)) (rest : Text) (env : Map Text)
    → All (λ var. IsVariable var.0) vars
    → scan_chars (environment_of vars ++ rest) (at_entry env)
      ≡ scan_chars rest (at_entry (insert_all vars env))
unfolding environment_of insert_all
scan_chars-environment_of [] rest env h = refl
scan_chars-environment_of ((k, v) ∷ vars) rest env h =
    ap (λ t. scan_chars t (at_entry env)) (simp append_assoc)
    ∙ scan_chars-entry k v (environment_of vars ++ rest) env h.0
    ∙ scan_chars-environment_of vars rest (Maps.insert k v env) h.1

parse_environment-append :
    (vars : List (Text × Text)) (rest : Text)
    → All (λ var. IsVariable var.0) vars
    → parse_environment (environment_of vars ++ rest)
      ≡ (scan_chars rest (at_entry (insert_all vars [])) >>= finish)
unfolding parse_environment
parse_environment-append vars rest h =
    ap (λ r. r >>= finish) (scan_chars-environment_of vars rest [] h)

-- Variables with any values, written in double quotes, are read back.
pub parse_environment-environment_of :
    (vars : List (Text × Text))
    → All (λ var. IsVariable var.0) vars
    → parse_environment (environment_of vars) ≡ ok (insert_all vars [])
unfolding parse_environment
parse_environment-environment_of vars h =
    ap parse_environment (sym (append-nil (environment_of vars)))
    ∙ parse_environment-append vars [] h
    ∙ (unfold scan_chars finish flush_entry trim in refl)

left_open :
    (k v : Text) (env : Map Text)
    → IsVariable k
    → (scan_chars (k ++ b'=' ∷ b'"' ∷ quoted v) (at_entry env) >>= finish) ≡ err unclosed_quote
unfolding finish
left_open k v env w =
    ap (λ t. scan_chars (k ++ b'=' ∷ b'"' ∷ t) (at_entry env) >>= finish)
      (sym (append-nil (quoted v)))
    ∙ ap (λ r. r >>= finish) (scan_chars-open k v [] env w)
    ∙ (unfold scan_chars in refl)

unfinished :
    (k : Text) (env : Map Text)
    → IsVariable k
    → (scan_chars k (at_entry env) >>= finish) ≡ err (missing_delimiter k)
unfolding finish flush_entry
unfinished k env w =
    ap (λ t. scan_chars t (at_entry env) >>= finish) (sym (append-nil k))
    ∙ ap (λ r. r >>= finish) (scan_chars-key k [] (at_entry env) w.0 refl refl refl)
    ∙ (unfold scan_chars in rw (trim-IsTrimmed k w.1) (rw (is_empty-key k w.2) refl))

undelimited :
    (k rest : Text) (env : Map Text)
    → IsVariable k
    → (scan_chars (k ++ b',' ∷ rest) (at_entry env) >>= finish) ≡ err (missing_delimiter k)
unfolding flush_entry
undelimited k rest env w =
    ap (λ r. r >>= finish) (scan_chars-key k (b',' ∷ rest) (at_entry env) w.0 refl refl refl)
    ∙ (unfold scan_chars scan_char scan_plain flush_entry in
        rw (trim-IsTrimmed k w.1) (rw (is_empty-key k w.2) refl))

-- Behind variables that are complete, a quote that is left open is an error, and so is a name
-- without an equals sign, at the end or before a comma.
pub parse_environment_errors :
    (vars : List (Text × Text)) (k v rest : Text)
    → All (λ var. IsVariable var.0) vars
    → IsVariable k
    → (parse_environment (environment_of vars ++ (k ++ b'=' ∷ b'"' ∷ quoted v))
        ≡ err unclosed_quote)
      × (parse_environment (environment_of vars ++ k) ≡ err (missing_delimiter k))
      × (parse_environment (environment_of vars ++ (k ++ b',' ∷ rest)) ≡ err (missing_delimiter k))
parse_environment_errors vars k v rest h w =
    let env = insert_all vars [] in
    (
      parse_environment-append vars (k ++ b'=' ∷ b'"' ∷ quoted v) h ∙ left_open k v env w,
      parse_environment-append vars k h ∙ unfinished k env w,
      parse_environment-append vars (k ++ b',' ∷ rest) h ∙ undelimited k rest env w,
    )
