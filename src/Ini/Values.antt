-- ===== src/Ini/Values.antt =====
-- src/compat/ini/values.rs: the values that the INI dialect writes in its own way.
pub mod RoundTrip
use rsupervisord.Prelude.{
  ℕ, Bool, true, false, not, ◌&&◌, ◌||◌, Option, none, some, List, [], ◌∷◌, ◌++◌, Text, codes, ◌==◌,
  if◌then◌else◌, is_empty, is_some, trim, eq_ignore_ascii_case, text_eq,
}
use rsupervisord.Prelude.Outcome.{Outcome, ok, err, ◌>>=◌}
use rsupervisord.Prelude.Maps
use rsupervisord.Prelude.Maps.{Map}
use rsupervisord.Program.State.{AutoRestartPolicy}

-- `AutoRestartPolicy::from_str`, from the snake case names.
unfoldable pub policy_from_str : Text → Option AutoRestartPolicy
unfolding text_eq
policy_from_str s =
    if text_eq s (codes "always")
    then some AutoRestartPolicy.always
    else if text_eq s (codes "unexpected")
    then some AutoRestartPolicy.unexpected
    else if text_eq s (codes "never")
    then some AutoRestartPolicy.never
    else none

-- `none` is the configuration error.
unfoldable pub parse_autorestart : Text → Option AutoRestartPolicy
unfolding trim eq_ignore_ascii_case policy_from_str
parse_autorestart s =
    let trimmed = trim s in
    if eq_ignore_ascii_case trimmed (codes "false")
      || eq_ignore_ascii_case trimmed (codes "no")
      || eq_ignore_ascii_case trimmed (codes "never")
      || eq_ignore_ascii_case trimmed (codes "0")
    then some AutoRestartPolicy.never
    else if eq_ignore_ascii_case trimmed (codes "true")
        || eq_ignore_ascii_case trimmed (codes "yes")
        || eq_ignore_ascii_case trimmed (codes "always")
        || eq_ignore_ascii_case trimmed (codes "1")
    then some AutoRestartPolicy.always
    else if eq_ignore_ascii_case trimmed (codes "unexpected")
    then some AutoRestartPolicy.unexpected
    else policy_from_str trimmed

pub data EnvironmentError : Type 0 where
  missing_delimiter : Text → EnvironmentError
  unclosed_quote : EnvironmentError

-- The variables of the loop.
pub record Scan : Type 0 where
  pub env : Map Text
  pub cur_key : Text
  pub cur_val : Text
  pub in_key : Bool
  pub quote_char : Option ℕ
  pub escape : Bool

unfoldable pub flush_entry : Scan → Outcome EnvironmentError Scan
unfolding trim Maps.insert
flush_entry s =
    let key = trim s.cur_key in
    let cleared = record s { cur_key = []; cur_val = []; in_key = true } in
    if is_empty key
    then ok cleared
    else if s.in_key
    then err (missing_delimiter key)
    else ok (record cleared { env = Maps.insert key s.cur_val s.env })

abbrev push_key : Scan → Text → Scan
push_key s cs = record s { cur_key = s.cur_key ++ cs }

abbrev push_val : Scan → Text → Scan
push_val s cs = record s { cur_val = s.cur_val ++ cs }

-- The character behind a backslash.
unfoldable pub scan_escaped : Scan → ℕ → Scan
scan_escaped s ch =
    let plain = record s { escape = false } in
    if is_some s.quote_char
    then push_val plain (
        if ch == b'n'
        then b'\n' ∷ []
        else if ch == b't'
        then b'\t' ∷ []
        else if ch == b'r'
        then b'\r' ∷ []
        else if (ch == b'"') || (ch == b'\'') || (ch == b'\\')
        then ch ∷ []
        else b'\\' ∷ ch ∷ [])
    else if s.in_key
    then push_key plain (ch ∷ [])
    else push_val plain (ch ∷ [])

-- A character outside of quotes.
unfoldable pub scan_plain : Scan → ℕ → Outcome EnvironmentError Scan
unfolding flush_entry
scan_plain s ch =
    if (ch == b'\'') || (ch == b'"')
    then ok (record s { quote_char = some ch })
    else if (ch == b'=') && s.in_key
    then ok (record s { in_key = false })
    else if ch == b','
    then flush_entry s
    else if s.in_key
    then ok (push_key s (ch ∷ []))
    else ok (push_val s (ch ∷ []))

unfoldable pub scan_char : Scan → ℕ → Outcome EnvironmentError Scan
unfolding scan_escaped scan_plain
scan_char s ch =
    if s.escape
    then ok (scan_escaped s ch)
    else if ch == b'\\'
    then ok (record s { escape = true })
    else elim s.quote_char [
      | some q ↦ if ch == q then ok (record s { quote_char = none }) else ok (push_val s (ch ∷ []))
      | none ↦ scan_plain s ch
    ]

unfoldable pub scan_chars : Text → Scan → Outcome EnvironmentError Scan
unfolding scan_char
scan_chars [] s = ok s
scan_chars (ch ∷ rest) s = scan_char s ch >>= scan_chars rest

unfoldable pub finish : Scan → Outcome EnvironmentError (Map Text)
unfolding flush_entry
finish s = if is_some s.quote_char then err unclosed_quote else flush_entry s >>= λ f. ok f.env

abbrev pub scan_start : Scan
scan_start = record {
  env = [];
  cur_key = [];
  cur_val = [];
  in_key = true;
  quote_char = none;
  escape = false;
}

unfoldable pub parse_environment : Text → Outcome EnvironmentError (Map Text)
unfolding scan_chars finish
parse_environment s = scan_chars s scan_start >>= finish

-- Where a program's log goes: nowhere but the ring in memory, or a file.
unfoldable pub parse_log_path : Text → Option Text
unfolding trim eq_ignore_ascii_case text_eq
parse_log_path s =
    let trimmed = trim s in
    if is_empty trimmed
      || eq_ignore_ascii_case trimmed (codes "AUTO")
      || eq_ignore_ascii_case trimmed (codes "memory")
      || eq_ignore_ascii_case trimmed (codes "in_memory")
      || eq_ignore_ascii_case trimmed (codes "in_memory_only")
    then none
    else if eq_ignore_ascii_case trimmed (codes "NONE")
        || eq_ignore_ascii_case trimmed (codes "OFF")
        || eq_ignore_ascii_case trimmed (codes "NULL")
        || text_eq trimmed (codes "/dev/null")
    then some (codes "/dev/null")
    else some trimmed
