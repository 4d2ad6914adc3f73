-- ===== src/Ini/Parse/RoundTrip.antt =====
-- A written document is read back: the lines of each entry and section, then the whole text.
use rsupervisord.Prelude.{List, [], ◌∷◌, Text}
use rsupervisord.Ini.Parse.{Reading, flush_kv}
use rsupervisord.Ini.Parse.Render.{Entry}
use rsupervisord.Ini.Parse.Steps.{append_line}

append_lines : Text → List Text → Text
append_lines val [] = val
append_lines val (l ∷ ls) = append_lines (append_line val l) ls

-- The state behind the lines of an entry.
abbrev behind_entry : Text → Entry → Reading → Reading
behind_entry here_str e r = record (flush_kv here_str r) {
  current_key = e.key;
  current_val = append_lines e.first e.more;
  current_key_indent = 0;
}

behind_entries : Text → List Entry → Reading → Reading
behind_entries here_str [] r = r
behind_entries here_str (e ∷ es) r = behind_entries here_str es (behind_entry here_str e r)
