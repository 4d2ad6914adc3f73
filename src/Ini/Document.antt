-- ===== src/Ini/Document.antt =====
-- src/compat/ini/parser.rs: a parsed document, its entries by section and key. The order of
-- `HashMap` iteration is not specified; `merge` takes the entries of a section in one order.
pub mod Laws
use rsupervisord.Prelude.{
  Text, List, [], ◌∷◌, ◌++◌, Bool, Option, none, some, if◌then◌else◌, to_ascii_lowercase,
}
use rsupervisord.Prelude.Maps
use rsupervisord.Prelude.Maps.{Map}

pub record ParsedIni : Type 0 where
  pub sections : Map (Map Text)
  pub section_order : List Text

unfoldable pub new : ParsedIni
new = record { sections = []; section_order = [] }

-- Creates the section unless it is there.
unfoldable pub ensure_section : Text → ParsedIni → ParsedIni
unfolding Maps.insert Maps.contains_key
ensure_section section ini = if Maps.contains_key section ini.sections then ini else record {
  sections = Maps.insert section [] ini.sections;
  section_order = ini.section_order ++ section ∷ [];
}

-- `if let Some(sec) = self.sections.get_mut(section)`
unfoldable pub update_section : (Map Text → Map Text) → Text → ParsedIni → ParsedIni
unfolding Maps.insert Maps.get
update_section f section ini = elim (Maps.get section ini.sections) [
  | none ↦ ini
  | some sec ↦ record ini { sections = Maps.insert section (f sec) ini.sections }
]

unfoldable pub insert_entry : Text → Text → Text → ParsedIni → ParsedIni
unfolding ensure_section update_section to_ascii_lowercase
insert_entry section key val ini =
    update_section (Maps.insert (to_ascii_lowercase key) val) section (ensure_section section ini)

-- One section of the loop of `merge`.
unfoldable pub merge_section : ParsedIni → Text → ParsedIni → ParsedIni
unfolding ensure_section update_section Maps.get Maps.extend
merge_section other section ini = elim (Maps.get section other.sections) [
  | none ↦ ini
  | some entries ↦ update_section (Maps.extend entries) section (ensure_section section ini)
]

unfoldable pub merge_sections : ParsedIni → List Text → ParsedIni → ParsedIni
unfolding merge_section
merge_sections other [] ini = ini
merge_sections other (section ∷ order) ini =
    merge_sections other order (merge_section other section ini)

unfoldable pub merge : ParsedIni → ParsedIni → ParsedIni
unfolding merge_sections
merge ini other = merge_sections other other.section_order ini

unfoldable pub get : ParsedIni → Text → Text → Option Text
unfolding Maps.get to_ascii_lowercase
get ini section key = elim (Maps.get section ini.sections) [
  | none ↦ none
  | some sec ↦ Maps.get (to_ascii_lowercase key) sec
]
