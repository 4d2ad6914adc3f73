-- ===== src/Ini/Include.antt =====
-- src/compat/ini/parser.rs, `resolve_glob` and `load_ini_file_with_includes`: a file and the files
-- that its `[include]` section names. The file system and the operations on paths are parameters;
-- a path is a text.
pub mod Laws
use rsupervisord.Prelude.{
  ℕ, Bool, true, false, not, ◌&&◌, ◌||◌, Option, none, some, List, [], ◌∷◌, ◌++◌, map, Text, codes,
  ◌==◌, if◌then◌else◌, is_empty, is_some, trim, filterb, any,
}
use rsupervisord.Prelude.Outcome.{Outcome, ok, err, ◌>>=◌}
use rsupervisord.Prelude.Maps
use rsupervisord.Dag.{contains}
use rsupervisord.Ini.Document
use rsupervisord.Ini.Document.{ParsedIni, merge}
use rsupervisord.Ini.Parse.{parse_ini_content, here_text, replace}
use rsupervisord.Ini.Wildcard.{wildcard_match}

pub record Files : Type 0 where
  pub read_to_string : Text → Option Text
  pub exists : Text → Bool
  pub read_dir : Text → List Text  -- paths; none for an error
  pub abs_path : Text → Text
  pub parent : Text → Text  -- `.` for none
  pub file_name : Text → Text  -- empty for none
  pub is_relative : Text → Bool
  pub join : Text → Text → Text
  pub path_le : Text → Text → Bool

pub data IncludeError : Type 0 where
  circular unreadable nested_include : Text → IncludeError

-- `str::split` at the separators of a list.
unfoldable pub split_list : Text → List Text
split_list [] = [] ∷ []
split_list (c ∷ cs) =
    let rest = split_list cs in
    if (c == b',') || (c == b' ') || (c == b'\t') || (c == b'\r') || (c == b'\n')
    then [] ∷ rest
    else elim rest [ [] ↦ (c ∷ []) ∷ [] | item ∷ items ↦ (c ∷ item) ∷ items ]

unfoldable pub string_to_str_list : Text → List Text
unfolding split_list trim
string_to_str_list s = filterb (λ item. not (is_empty item)) (map trim (split_list s))

-- `sort`
unfoldable pub insert_path : (Text → Text → Bool) → Text → List Text → List Text
insert_path le p [] = p ∷ []
insert_path le p (q ∷ qs) =
    let rest = insert_path le p qs in if le p q then p ∷ q ∷ qs else q ∷ rest

unfoldable pub sort_paths : (Text → Text → Bool) → List Text → List Text
unfolding insert_path
sort_paths le [] = []
sort_paths le (p ∷ ps) = insert_path le p (sort_paths le ps)

unfoldable pub name_matches : Text → Text → Bool
unfolding wildcard_match
name_matches pattern name = elim (wildcard_match pattern name) [ none ↦ false | some b ↦ b ]

module _ (fs : Files) where
  unfoldable pub resolve_glob : Text → List Text
  resolve_glob pattern =
      let file_pattern = fs.file_name pattern in
      if any (λ c. (c == b'*') || (c == b'?')) file_pattern
      then sort_paths fs.path_le (
          filterb (λ path. name_matches file_pattern (fs.file_name path))
            (fs.read_dir (fs.parent pattern)))
      else if fs.exists pattern
      then pattern ∷ []
      else []

  -- The part of `load_ini_file_with_includes` before the includes, with the files visited.
  unfoldable pub load_main : Bool → Text → List Text → Outcome IncludeError (ParsedIni × List Text)
  load_main allow_includes file_path visited =
      let canonical = fs.abs_path file_path in
      if contains canonical visited
      then err (circular file_path)
      else elim (fs.read_to_string file_path) [
        | none ↦ err (unreadable file_path)
        | some content ↦
            let main_ini = parse_ini_content content (some (fs.parent file_path)) in
            if not allow_includes && Maps.contains_key (codes "include") main_ini.sections
            then err (nested_include file_path)
            else ok (main_ini, canonical ∷ visited)
      ]

  -- The loop over the files that a pattern matches.
  unfoldable pub merge_files :
      List Text → ParsedIni × List Text → Outcome IncludeError (ParsedIni × List Text)
  merge_files [] (main_ini, visited) = ok (main_ini, visited)
  merge_files (sub_file ∷ files) (main_ini, visited) =
      load_main false sub_file visited >>= λ (sub_ini, visited').
      merge_files files (merge main_ini sub_ini, visited')

  -- The files that a pattern of the list stands for.
  unfoldable pub pattern_files : Text → Text → List Text
  pattern_files here_dir pattern_raw =
      let pattern_path = replace (codes "%(here)s") (here_text (some here_dir)) pattern_raw in
      resolve_glob
        (if fs.is_relative pattern_path then fs.join here_dir pattern_path else pattern_path)

  -- The loop over the patterns.
  unfoldable pub merge_patterns :
      Text → List Text → ParsedIni × List Text → Outcome IncludeError (ParsedIni × List Text)
  merge_patterns here_dir [] state = ok state
  merge_patterns here_dir (pattern ∷ patterns) state =
      merge_files (pattern_files here_dir pattern) state >>= merge_patterns here_dir patterns

  unfoldable pub load_ini_file_with_includes :
      Bool → Text → List Text → Outcome IncludeError (ParsedIni × List Text)
  load_ini_file_with_includes allow_includes file_path visited =
      load_main allow_includes file_path visited >>= λ (main_ini, visited').
      let patterns : List Text = elim (Document.get main_ini (codes "include") (codes "files")) [
        | none ↦ []
        | some include_files_val ↦ string_to_str_list include_files_val
      ] in
      if allow_includes
      then merge_patterns (fs.parent file_path) patterns (main_ini, visited')
      else ok (main_ini, visited')
