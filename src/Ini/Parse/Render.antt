-- ===== src/Ini/Parse/Render.antt =====
-- Documents written as text: a line for a section, a line for a key with the first line of its
-- value, and an indented line for each further line of the value.
use rsupervisord.Prelude.{
  ◌≡◌, ◌≢◌, false, List, [], ◌∷◌, ◌++◌, Text, codes, ◌==◌, is_empty, if◌then◌else◌, map, All,
}
use rsupervisord.Ini.Document.{ParsedIni, insert_entry}
use rsupervisord.Ini.Parse.{replace}
use rsupervisord.Ini.Parse.Lines.{Plain, IsTrimmed, unlines}

pub record Entry : Type 0 where
  pub key : Text
  pub first : Text
  pub more : List Text

abbrev pub Section : Type 0
Section = Text × List Entry

unfoldable pub entry_lines : Entry → List Text
entry_lines e = (e.key ++ b'=' ∷ e.first) ∷ map (λ l. b' ' ∷ l) e.more

unfoldable pub entries_lines : List Entry → List Text
entries_lines [] = []
entries_lines (e ∷ es) = entry_lines e ++ entries_lines es

unfoldable pub document_lines : List Section → List Text
document_lines [] = []
document_lines ((name, es) ∷ doc) =
    (b'[' ∷ (name ++ b']' ∷ [])) ∷ (entries_lines es ++ document_lines doc)

unfoldable pub render : List Section → Text
render doc = unlines (document_lines doc)

-- The lines joined by line feeds.
unfoldable pub join_lines : List Text → Text
join_lines [] = []
join_lines (l ∷ []) = l
join_lines (l ∷ m ∷ ls) = l ++ b'\n' ∷ join_lines (m ∷ ls)

-- The first line counts only if it is not empty.
unfoldable pub value_of : Entry → Text
value_of e = join_lines (if is_empty e.first then e.more else e.first ∷ e.more)

-- The document that a text stands for: its entries in order, with the directory put in.
unfoldable pub add_entries : Text → Text → List Entry → ParsedIni → ParsedIni
add_entries here_str name [] ini = ini
add_entries here_str name (e ∷ es) ini =
    add_entries here_str name es
      (insert_entry name e.key (replace (codes "%(here)s") here_str (value_of e)) ini)

unfoldable pub document_of : Text → List Section → ParsedIni → ParsedIni
document_of here_str [] ini = ini
document_of here_str ((name, es) ∷ doc) ini =
    document_of here_str doc (add_entries here_str name es ini)

-- A text that can stand in a line: no quote, mark or escape, and nothing to trim.
abbrev pub IsWord : Text → Type 0
IsWord s = Plain s × IsTrimmed s × (s ≢ [])

-- A text that is no start of a section's line.
abbrev pub Unbracketed : Text → Type 0
Unbracketed [] = Unit {0}
Unbracketed (c ∷ cs) = (c == b'[') ≡ false

pub record IsEntry (e : Entry) : Type 0 where
  pub key_word : IsWord e.key
  pub key_unbracketed : Unbracketed e.key
  pub key_equals : All (λ c. (c == b'=') ≡ false) e.key
  pub first_plain : Plain e.first
  pub first_trimmed : IsTrimmed e.first
  pub more_words : All (λ l. IsWord l × Unbracketed l) e.more

abbrev pub IsDocument : List Section → Type 0
IsDocument doc = All (λ s. IsWord s.0 × All IsEntry s.1) doc
