-- ===== src/Ini/Samples.antt =====
-- Small configuration files, and what the readers make of them.
use rsupervisord.Prelude.{
  ◌≡◌, refl, arith, true, false, none, some, List, [], ◌∷◌, ◌++◌, Text, ℕ, All, trim, Option, drop,
  text_eq, if◌then◌else◌, codes, trim_end_matches, trim_end, is_whitespace,
}
use rsupervisord.Prelude.Maps
use rsupervisord.Prelude.Outcome.{ok, err}
use rsupervisord.Ini.Document
use rsupervisord.Ini.Document.{ParsedIni, insert_entry, merge}
use rsupervisord.Ini.Parse.{
  parse_ini_content, strip_inline_comment, replace, strip_from, flush_kv, read_lines, read_line,
  read_stripped, split_entry, here_text,
}
use rsupervisord.Ini.Parse.Render.{Section, render, document_of, value_of, join_lines, add_entries}
use rsupervisord.Ini.Wildcard.{wildcard_match, match_loop, only_stars, wildcard_fuel}
use rsupervisord.Dag.{contains}
use rsupervisord.Ini.Wildcard.Loop.{wildcard_match-eq-glob}
use rsupervisord.Ini.Wildcard.Reference.{glob, StarFree}
use rsupervisord.Ini.Values.{
  missing_delimiter, unclosed_quote, parse_environment, parse_autorestart, parse_log_path,
}
use rsupervisord.Ini.Values.RoundTrip.{
  environment_of, insert_all, quoted, is_key_char, IsVariable, parse_environment-environment_of,
  parse_environment_errors,
}
use rsupervisord.Ini.Include
use rsupervisord.Ini.Include.{Files, load_ini_file_with_includes}
use rsupervisord.Ini.Include.Laws.{Loads, load_ini_file_with_includes-ok}
use rsupervisord.Ini.EnvFile.{load_env_files, get-load_env_files}
use rsupervisord.Program.State.{AutoRestartPolicy}

program : Unit {0}
unfolding parse_ini_content insert_entry merge Document.get strip_inline_comment wildcard_match
    parse_environment parse_autorestart parse_log_path strip_from replace flush_kv read_lines
    read_line read_stripped split_entry Document.new here_text Include.resolve_glob
    Include.load_main Include.merge_files Include.pattern_files Include.merge_patterns
    load_ini_file_with_includes load_env_files render document_of join_lines value_of add_entries
    quoted environment_of insert_all
program = tt

comment_cut : strip_inline_comment (codes "a = 'x ; y'  ; note") ≡ codes "a = 'x ; y'"
unfolding program
comment_cut = refl

lines_joined :
    Document.get
      (parse_ini_content (codes "[program:web]\ncommand = run\nenv:a=1,\n  b=2 # more\n;x\n") none)
      (codes "program:web")
      (codes "ENV")
    ≡ none
unfolding program
lines_joined = refl

directory_put_in :
    Document.get
      (parse_ini_content (codes "[a]\nk = %(here)s/x") (some (codes "c:\\d")))
      (codes "a")
      (codes "K")
    ≡ some (codes "c:/d/x")
unfolding program
directory_put_in = refl

stars : wildcard_match (codes "*a?c*") (codes "xxabcabd") ≡ some true
unfolding program
stars = refl

abbrev site : List Section
site =
    (
      codes "program:web",
      record { key = codes "command"; first = codes "run me"; more = [] }
          ∷ record {
            key = codes "files";
            first = [];
            more = codes "a = %(here)s/1" ∷ codes "b: 2" ∷ [];
          }
          ∷ [],
    )
    ∷ []

abbrev bare : List Text
bare =
    codes "program:web"
    ∷ codes "command"
    ∷ codes "files"
    ∷ codes "a = %(here)s/1"
    ∷ codes "b: 2"
    ∷ codes "run me"
    ∷ []

joined_value :
    Document.get
      (document_of (codes "/etc") site Document.new)
      (codes "program:web")
      (codes "files")
    ≡ some (codes "a = /etc/1\nb: 2")
unfolding program
joined_value = refl

strip_free : StarFree (codes "web-1")
strip_free = ground arith

wildcard_match-eq-glob_example : wildcard_match (codes "w*?") (codes "web-1") ≡ some true
unfolding glob
wildcard_match-eq-glob_example = wildcard_match-eq-glob (codes "w*?") (codes "web-1") strip_free

abbrev variables : List (Text × Text)
variables = (codes "A", codes "x,\"y\"=\\") ∷ (codes "B", []) ∷ []

a-IsVariable : (c : ℕ) → is_key_char c ≡ true → is_whitespace c ≡ false → IsVariable (c ∷ [])
unfolding trim_end trim_end_matches
a-IsVariable c key front = ((key, tt), record { front = front; back = rw front refl }, λ e. cc)

variables-IsVariable : All (λ var. IsVariable var.0) variables
unfolding is_whitespace
variables-IsVariable = (a-IsVariable b'A' refl refl, (a-IsVariable b'B' refl refl, tt))

parse_environment-environment_of_example :
    parse_environment (codes "A=\"x,\\\"y\\\"=\\\\\",B=\"\",") ≡ ok variables
unfolding program Maps.insert
parse_environment-environment_of_example =
    parse_environment-environment_of variables variables-IsVariable

parse_environment_errors_example :
    (parse_environment (codes "B=\"z") ≡ err unclosed_quote)
    × (parse_environment (codes "B") ≡ err (missing_delimiter (codes "B")))
    × (parse_environment (codes "B,C=1") ≡ err (missing_delimiter (codes "B")))
unfolding program is_whitespace
parse_environment_errors_example =
    parse_environment_errors [] (codes "B") (codes "z") (codes "C=1") tt
      (a-IsVariable b'B' refl refl)

restart_words :
    (parse_autorestart (codes " True ") ≡ some AutoRestartPolicy.always)
    × (parse_autorestart (codes "sometimes") ≡ none)
    × (parse_log_path (codes "Off") ≡ some (codes "/dev/null"))
unfolding program
restart_words = (refl, refl, refl)

abbrev disk : Files
disk = record {
  read_to_string = λ path.
      if text_eq path (codes "/s.conf")
      then some (codes "[include]\nfiles = *.ini\n[a]\nk = 1\n")
      else if text_eq path (codes "/x.ini")
      then some (codes "[a]\nk = 2\n")
      else none;
  exists = λ path. true;
  read_dir = λ path. codes "/x.ini" ∷ codes "/s.conf" ∷ [];
  abs_path = λ path. path;
  parent = λ path. codes "/";
  file_name = λ path. drop 1 path;
  is_relative = λ path. true;
  join = λ dir path. dir ++ path;
  path_le = λ p q. true;
}

abbrev both_files : ParsedIni
both_files = record {
  sections =
      (codes "include", (codes "files", codes "*.ini") ∷ [])
      ∷ (codes "a", (codes "k", codes "2") ∷ [])
      ∷ [];
  section_order = codes "include" ∷ codes "a" ∷ [];
}

both_loaded :
    load_ini_file_with_includes disk true (codes "/s.conf") []
    ≡ ok (both_files, codes "/x.ini" ∷ codes "/s.conf" ∷ [])
unfolding program text_eq contains Include.string_to_str_list Include.sort_paths
    Include.name_matches Include.insert_path Include.split_list match_loop only_stars wildcard_fuel
    is_whitespace trim
both_loaded = refl

load_ini_file_with_includes-ok_example :
    (content : Text) × (disk.read_to_string (codes "/s.conf") ≡ some content)
    × Loads disk
        (codes "/s.conf")
        (parse_ini_content content (some (codes "/")))
        (both_files, codes "/x.ini" ∷ codes "/s.conf" ∷ [])
load_ini_file_with_includes-ok_example =
    load_ini_file_with_includes-ok disk (codes "/s.conf") both_loaded

variable_files : Text → Option Text
variable_files path =
    if text_eq path (codes "1")
    then some (codes "export A='x'\n# B=0\nB=1")
    else if text_eq path (codes "2")
    then some (codes "A = \"y\"")
    else none

get-load_env_files_example :
    Maps.get (codes "A") (load_env_files variable_files (codes "1" ∷ codes "3" ∷ codes "2" ∷ []))
    ≡ some (codes "y")
unfolding program variable_files text_eq
get-load_env_files_example =
    get-load_env_files variable_files (codes "A") (codes "1" ∷ codes "3" ∷ codes "2" ∷ [])
