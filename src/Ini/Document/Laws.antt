-- ===== src/Ini/Document/Laws.antt =====
-- What an entry or a merge changes in a document.
use rsupervisord.Prelude.{
  ◌≡◌, refl, arith, false, ◌&&◌, ◌||◌, Option, none, some, List, [], ◌∷◌, Text, text_eq,
  if◌then◌else◌, to_ascii_lowercase,
}
use rsupervisord.Prelude.Maps
use rsupervisord.Prelude.Maps.{Map, or_else, get-insert, get-extend}
use rsupervisord.Prelude.TextLaws.{eq_of_text_eq, text_eq_refl}
use rsupervisord.Dag.{contains}
use rsupervisord.Dag.Counts.{contains-append}
use rsupervisord.Ini.Document.{
  ParsedIni, new, ensure_section, update_section, insert_entry, merge_section, merge_sections,
  merge, get,
}

-- The order lists the sections.
abbrev pub IsListed : ParsedIni → Type 0
IsListed ini = (s : Text) → contains s ini.section_order ≡ Maps.contains_key s ini.sections

abbrev pub or_empty : Option (Map Text) → Map Text
or_empty none = []
or_empty (some sec) = sec

-- The entries of a section; none where the section is absent.
section_of : ParsedIni → Text → Map Text
section_of ini s = or_empty (Maps.get s ini.sections)

get-section_of :
    (ini : ParsedIni) (s k : Text)
    → get ini s k ≡ Maps.get (to_ascii_lowercase k) (section_of ini s)
unfolding get Maps.get section_of
get-section_of ini s k = ground arith

get-update_section :
    (f : Map Text → Map Text) (s t : Text) (ini : ParsedIni)
    → Maps.get t (update_section f s (ensure_section s ini)).sections ≡ (
        if text_eq t s
        then some (f (or_empty (Maps.get s ini.sections)))
        else Maps.get t ini.sections)
unfolding ensure_section update_section Maps.contains_key
get-update_section f s t ini = ground (
  arith,
  get-insert s s [] ini.sections,
  get-insert t s (f []) (Maps.insert s [] ini.sections),
  get-insert t s [] ini.sections,
  get-insert t s (f (or_empty (Maps.get s ini.sections))) ini.sections,
  text_eq_refl s,
)

section_of-update_section :
    (f : Map Text → Map Text) (s t : Text) (ini : ParsedIni)
    → section_of (update_section f s (ensure_section s ini)) t
      ≡ (if text_eq t s then f (section_of ini s) else section_of ini t)
unfolding section_of
section_of-update_section f s t ini = ground (arith, get-update_section f s t ini)

-- An entry is found under its section and its key in any case, and no other entry changes.
pub get-insert_entry :
    (ini : ParsedIni) (s k v t j : Text)
    → get (insert_entry s k v ini) t j ≡ (
        if text_eq t s && text_eq (to_ascii_lowercase j) (to_ascii_lowercase k)
        then some v
        else get ini t j)
unfolding insert_entry
get-insert_entry ini s k v t j = ground (
  arith,
  get-section_of (insert_entry s k v ini) t j,
  get-section_of ini t j,
  section_of-update_section (Maps.insert (to_ascii_lowercase k) v) s t ini,
  eq_of_text_eq t s,
  get-insert (to_ascii_lowercase j) (to_ascii_lowercase k) v (section_of ini s),
)

section_of-merge_section :
    (other ini : ParsedIni) (s t j : Text)
    → Maps.get j (section_of (merge_section other s ini) t) ≡ (
        if text_eq t s
        then or_else (Maps.get j (section_of other t)) (Maps.get j (section_of ini t))
        else Maps.get j (section_of ini t))
unfolding merge_section section_of Maps.get
section_of-merge_section other ini s t j = ground (
  arith,
  get-update_section (Maps.extend (or_empty (Maps.get s other.sections))) s t ini,
  eq_of_text_eq t s,
  get-extend j (or_empty (Maps.get s other.sections)) (or_empty (Maps.get s ini.sections)),
)

or_else_idem : (a b : Option Text) → or_else a (or_else a b) ≡ or_else a b
or_else_idem none b = refl
or_else_idem (some v) b = refl

section_of-absent :
    (ini : ParsedIni) (t j : Text)
    → Maps.contains_key t ini.sections ≡ false
    → Maps.get j (section_of ini t) ≡ none
unfolding section_of Maps.contains_key Maps.get
section_of-absent ini t j h = ground arith

section_of-merge_sections :
    (other : ParsedIni) (order : List Text) (ini : ParsedIni) (t j : Text)
    → Maps.get j (section_of (merge_sections other order ini) t) ≡ (
        if contains t order
        then or_else (Maps.get j (section_of other t)) (Maps.get j (section_of ini t))
        else Maps.get j (section_of ini t))
unfolding merge_sections contains
section_of-merge_sections other [] ini t j = refl
section_of-merge_sections other (s ∷ order) ini t j = ground (
  arith,
  section_of-merge_sections other order (merge_section other s ini) t j,
  section_of-merge_section other ini s t j,
  or_else_idem (Maps.get j (section_of other t)) (Maps.get j (section_of ini t)),
)

-- A merge takes an entry of the other document where it has one, and keeps the entry that was
-- there where it has none.
pub get-merge :
    (ini other : ParsedIni) (t j : Text)
    → IsListed other
    → get (merge ini other) t j ≡ or_else (get other t j) (get ini t j)
unfolding merge
get-merge ini other t j listed = ground (
  arith,
  get-section_of (merge ini other) t j,
  get-section_of other t j,
  get-section_of ini t j,
  section_of-merge_sections other other.section_order ini t (to_ascii_lowercase j),
  listed t,
  section_of-absent other t (to_ascii_lowercase j),
)

contains_key-update_section :
    (f : Map Text → Map Text) (s t : Text) (ini : ParsedIni)
    → Maps.contains_key t (update_section f s (ensure_section s ini)).sections
      ≡ (text_eq t s || Maps.contains_key t ini.sections)
unfolding Maps.contains_key
contains_key-update_section f s t ini = ground (arith, get-update_section f s t ini)

section_order-update_section :
    (f : Map Text → Map Text) (s t : Text) (ini : ParsedIni)
    → IsListed ini
    → contains t (update_section f s (ensure_section s ini)).section_order
      ≡ (text_eq t s || contains t ini.section_order)
unfolding update_section ensure_section contains
section_order-update_section f s t ini listed = ground (
  arith,
  listed s,
  listed t,
  eq_of_text_eq t s,
  contains-append t ini.section_order (s ∷ []),
  get-insert s s [] ini.sections,
  text_eq_refl s,
)

update_section-IsListed :
    (f : Map Text → Map Text) (s : Text) (ini : ParsedIni)
    → IsListed ini
    → IsListed (update_section f s (ensure_section s ini))
update_section-IsListed f s ini listed t = ground (
  arith,
  section_order-update_section f s t ini listed,
  contains_key-update_section f s t ini,
  listed t,
)

pub new-IsListed : IsListed new
unfolding new contains Maps.contains_key
new-IsListed s = refl

pub insert_entry-IsListed :
    (s k v : Text) (ini : ParsedIni) → IsListed ini → IsListed (insert_entry s k v ini)
unfolding insert_entry
insert_entry-IsListed s k v ini =
    update_section-IsListed (Maps.insert (to_ascii_lowercase k) v) s ini

merge_section-IsListed :
    (other : ParsedIni) (s : Text) (ini : ParsedIni)
    → IsListed ini
    → IsListed (merge_section other s ini)
unfolding merge_section
merge_section-IsListed other s ini listed t = ground (
  arith,
  update_section-IsListed (Maps.extend (or_empty (Maps.get s other.sections))) s ini listed t,
  listed t,
)

merge_sections-IsListed :
    (other : ParsedIni) (order : List Text) (ini : ParsedIni)
    → IsListed ini
    → IsListed (merge_sections other order ini)
unfolding merge_sections
merge_sections-IsListed other [] ini listed = listed
merge_sections-IsListed other (s ∷ order) ini listed =
    merge_sections-IsListed other order _ (merge_section-IsListed other s ini listed)

pub merge-IsListed : (ini other : ParsedIni) → IsListed ini → IsListed (merge ini other)
unfolding merge
merge-IsListed ini other = merge_sections-IsListed other other.section_order ini
