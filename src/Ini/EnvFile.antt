-- ===== src/Ini/EnvFile.antt =====
-- src/program/envfile.rs: files of `KEY=VALUE` lines. The file system is a parameter: what a path
-- reads as, `none` for an error.
use rsupervisord.Prelude.{
  ◌≡◌, refl, arith, Bool, false, ◌&&◌, ◌||◌, Option, none, some, List, [], ◌∷◌, Text, codes, ◌==◌,
  ltb, if◌then◌else◌, is_empty, trim, trim_start, strip_prefix, split_once, last?, pop_back,
  byte_len, Option-cases, inl, inr, ◌∙◌,
}
use rsupervisord.Prelude.Maps
use rsupervisord.Prelude.Maps.{Map, or_else, get-extend}
use rsupervisord.Ini.Parse.{lines}

-- The value without a pair of equal quotes around it.
unfoldable pub unquote : Text → Text
unfolding byte_len last?
unquote [] = []
unquote (c ∷ cs) =
    let closed : Bool = elim (last? (c ∷ cs)) [ none ↦ false | some d ↦ d == c ] in
    if ltb 1 (byte_len (c ∷ cs)) && ((c == b'"') || (c == b'\'')) && closed
    then pop_back cs
    else c ∷ cs

-- One line; a comment, an empty line and a line without a key change nothing.
unfoldable pub load_line : Text → Map Text → Map Text
unfolding trim trim_start strip_prefix split_once unquote Maps.insert
load_line raw_line map = elim (trim raw_line) [
  | [] ↦ map
  | c ∷ cs ↦
      if c == b'#'
      then map
      else elim (split_once b'=' (
          trim_start (elim (strip_prefix (codes "export ") (c ∷ cs)) [
            | none ↦ c ∷ cs
            | some rest ↦ rest
          ]))) [
            | none ↦ map
            | some (key, value) ↦
                if is_empty (trim key)
                then map
                else Maps.insert (trim key) (unquote (trim value)) map
          ]
]

unfoldable pub load_lines : List Text → Map Text → Map Text
unfolding load_line
load_lines [] map = map
load_lines (l ∷ ls) map = load_lines ls (load_line l map)

module _ (read_to_string : Text → Option Text) where
  unfoldable pub load_one : Text → Option (Map Text)
  unfolding load_lines lines
  load_one path = elim (read_to_string path) [
    | none ↦ none
    | some content ↦ some (load_lines (lines content) [])
  ]

  -- The loop over the paths.
  unfoldable pub load_from : Map Text → List Text → Map Text
  unfolding load_one Maps.extend
  load_from merged [] = merged
  load_from merged (path ∷ paths) =
      load_from (elim (load_one path) [ none ↦ merged | some map ↦ Maps.extend map merged ]) paths

  unfoldable pub load_env_files : List Text → Map Text
  unfolding load_from
  load_env_files paths = load_from [] paths

  -- The value of a key in the last file that sets it.
  abbrev pub last_value : Text → List Text → Option Text
  last_value key [] = none
  last_value key (path ∷ paths) =
      or_else (last_value key paths)
        (elim (load_one path) [ none ↦ none | some map ↦ Maps.get key map ])

  get-load_from :
      (key : Text) (merged : Map Text) (paths : List Text)
      → Maps.get key (load_from merged paths) ≡ or_else (last_value key paths) (Maps.get key merged)
  unfolding load_from
  get-load_from key merged [] = refl
  get-load_from key merged (path ∷ paths) = elim (Option-cases (load_one path)) [
    | inl e ↦ rw e (get-load_from key merged paths ∙ ground (arith, e))
    | inr (map, e) ↦ rw e (
        get-load_from key (Maps.extend map merged) paths
        ∙ ground (arith, e, get-extend key map merged))
  ]

  -- The value of a key is that of the last file that can be read and sets it.
  pub get-load_env_files :
      (key : Text) (paths : List Text) → Maps.get key (load_env_files paths) ≡ last_value key paths
  unfolding load_env_files Maps.get
  get-load_env_files key paths = ground (arith, get-load_from key [] paths)
