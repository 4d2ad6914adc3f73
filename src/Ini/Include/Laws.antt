-- ===== src/Ini/Include/Laws.antt =====
-- What a load with includes gives: each file once, and later files over earlier ones.
use rsupervisord.Prelude.{
  ◌≡◌, refl, sym, ap, ◌∙◌, arith, Bool, true, false, Option, none, some, List, [], ◌∷◌, ◌++◌, Text,
  codes, subst, Option-cases, inl, inr,
}
use rsupervisord.Prelude.Outcome.{ok, ok_of_bind}
use rsupervisord.Prelude.Maps.{or_else}
use rsupervisord.Dag.{contains}
use rsupervisord.Dag.Counts.{Distinct}
use rsupervisord.Ini.Document
use rsupervisord.Ini.Document.{ParsedIni, merge}
use rsupervisord.Ini.Document.Laws.{
  IsListed, get-merge, new-IsListed, insert_entry-IsListed, merge-IsListed,
}
use rsupervisord.Ini.Parse.{
  Reading, replace, flush_kv, read_stripped, read_line, read_lines, start, here_text, lines,
  parse_ini_content,
}
use rsupervisord.Ini.Include.{
  Files, load_main, merge_files, pattern_files, merge_patterns, load_ini_file_with_includes,
  string_to_str_list,
}

contains_nil : (x : Text) → contains x [] ≡ false
unfolding contains
contains_nil x = refl

flush_kv-IsListed :
    (here_str : Text) (r : Reading) → IsListed r.ini → IsListed (flush_kv here_str r).ini
unfolding flush_kv
flush_kv-IsListed here_str r h s = ground (
  arith,
  h s,
  insert_entry-IsListed r.current_section r.current_key
      (replace (codes "%(here)s") here_str r.current_val) r.ini h s,
)

read_line-IsListed :
    (here_str l : Text) (r : Reading) → IsListed r.ini → IsListed (read_line here_str l r).ini
unfolding read_line read_stripped
read_line-IsListed here_str l r h s = ground (arith, h s, flush_kv-IsListed here_str r h s)

read_lines-IsListed :
    (here_str : Text) (ls : List Text) (r : Reading)
    → IsListed r.ini
    → IsListed (read_lines here_str ls r).ini
unfolding read_lines
read_lines-IsListed here_str [] r h = h
read_lines-IsListed here_str (l ∷ ls) r h =
    read_lines-IsListed here_str ls (read_line here_str l r) (read_line-IsListed here_str l r h)

-- The order of a parsed document lists its sections.
pub parse_ini_content-IsListed :
    (content : Text) (here_dir : Option Text) → IsListed (parse_ini_content content here_dir)
unfolding parse_ini_content
parse_ini_content-IsListed content here_dir =
    flush_kv-IsListed (here_text here_dir) (read_lines (here_text here_dir) (lines content) start)
      (read_lines-IsListed (here_text here_dir) (lines content) start new-IsListed)

module _ (fs : Files) where
  -- What a file says of an entry.
  abbrev pub file_entry : Text → Text → Text → Option Text
  file_entry s k file = elim (fs.read_to_string file) [
    | none ↦ none
    | some content ↦ Document.get (parse_ini_content content (some (fs.parent file))) s k
  ]

  -- What the last file that says something of an entry says of it.
  abbrev pub last_entry : Text → Text → List Text → Option Text
  last_entry s k [] = none
  last_entry s k (file ∷ files) = or_else (last_entry s k files) (file_entry s k file)

  -- The files visited behind those of a list, last first, each by its full path.
  abbrev pub visit_all : List Text → List Text → List Text
  visit_all [] visited = visited
  visit_all (file ∷ files) visited = visit_all files (fs.abs_path file ∷ visited)

  load_main-eq_ok :
      (allow : Bool) (file : Text) (visited : List Text) {ini : ParsedIni} {visited' : List Text}
      → load_main fs allow file visited ≡ ok (ini, visited')
      → (content : Text) × (fs.read_to_string file ≡ some content)
        × (ini ≡ parse_ini_content content (some (fs.parent file)))
        × (visited' ≡ fs.abs_path file ∷ visited)
        × (contains (fs.abs_path file) visited ≡ false)
  unfolding load_main
  load_main-eq_ok allow file visited {ini} {visited'} h =
      elim (Option-cases (fs.read_to_string file)) [
        | inl e ↦ absurd (ground (arith, h, e))
        | inr (content, e) ↦
            (content, e, ground (arith, h, e), ground (arith, h, e), ground (arith, h, e))
      ]

  -- On success the files are visited in order, none of them had been visited before, and an
  -- entry is what the last file says of it, else what it was.
  pub record IsMerged (files : List Text) (before after : ParsedIni × List Text) : Type 0 where
    pub listed : IsListed before.0 → IsListed after.0
    pub visits : after.1 ≡ visit_all files before.1
    pub distinct : Distinct before.1 → Distinct after.1
    pub entries :
        (s k : Text)
        → Document.get after.0 s k ≡ or_else (last_entry s k files) (Document.get before.0 s k)

  IsMerged-nil : (a : ParsedIni × List Text) → IsMerged [] a a
  IsMerged-nil a = record {
    listed = λ h. h;
    visits = refl;
    distinct = λ h. h;
    entries = λ s k. refl;
  }

  visit_all-append :
      (files more visited : List Text)
      → visit_all (files ++ more) visited ≡ visit_all more (visit_all files visited)
  visit_all-append [] more visited = refl
  visit_all-append (file ∷ files) more visited =
      visit_all-append files more (fs.abs_path file ∷ visited)

  last_entry-append :
      (s k : Text) (files more : List Text)
      → last_entry s k (files ++ more) ≡ or_else (last_entry s k more) (last_entry s k files)
  last_entry-append s k [] more = ground arith
  last_entry-append s k (file ∷ files) more = ground (arith, last_entry-append s k files more)

  IsMerged-append :
      {files more : List Text} {a b c : ParsedIni × List Text}
      → IsMerged files a b
      → IsMerged more b c
      → IsMerged (files ++ more) a c
  IsMerged-append {files} {more} {a} {b} {c} f g = record {
    listed = λ h. g.listed (f.listed h);
    visits = g.visits ∙ ap (visit_all more) f.visits ∙ sym (visit_all-append files more a.1);
    distinct = λ h. g.distinct (f.distinct h);
    entries = λ s k. ground (arith, g.entries s k, f.entries s k, last_entry-append s k files more);
  }

  IsMerged-file :
      (file : Text) (ini sub : ParsedIni) (visited visited' : List Text)
      → load_main fs false file visited ≡ ok (sub, visited')
      → IsMerged (file ∷ []) (ini, visited) (merge ini sub, visited')
  IsMerged-file file ini sub visited visited' h =
      let (content, read, doc, now, fresh) = load_main-eq_ok false file visited h in
      let listed : IsListed sub =
        rw doc (parse_ini_content-IsListed content (some (fs.parent file))) in
      record {
        listed = merge-IsListed ini sub;
        visits = now;
        distinct = λ h. rw now (fresh, h);
        entries = λ s k.
            get-merge ini sub s k listed ∙ ground (arith, read, ap (λ d. Document.get d s k) doc);
      }

  merge_files-IsMerged :
      (files : List Text) (before : ParsedIni × List Text) {after : ParsedIni × List Text}
      → merge_files fs files before ≡ ok after
      → IsMerged files before after
  unfolding merge_files
  merge_files-IsMerged [] (ini, visited) h =
      subst (λ x. IsMerged [] (ini, visited) x) (cc h) (IsMerged-nil (ini, visited))
  merge_files-IsMerged (file ∷ files) (ini, visited) h =
      let ((sub, visited'), e, rest) = ok_of_bind (load_main fs false file visited) _ h in
      IsMerged-append (IsMerged-file file ini sub visited visited' e)
        (merge_files-IsMerged files (merge ini sub, visited') rest)

  -- The files of all patterns.
  abbrev pub all_files : Text → List Text → List Text
  all_files here_dir [] = []
  all_files here_dir (pattern ∷ patterns) =
      pattern_files fs here_dir pattern ++ all_files here_dir patterns

  merge_patterns-IsMerged :
      (here_dir : Text) (patterns : List Text) (before : ParsedIni × List Text)
      {after : ParsedIni × List Text}
      → merge_patterns fs here_dir patterns before ≡ ok after
      → IsMerged (all_files here_dir patterns) before after
  unfolding merge_patterns
  merge_patterns-IsMerged here_dir [] before h =
      subst (λ x. IsMerged [] before x) (cc h) (IsMerged-nil before)
  merge_patterns-IsMerged here_dir (pattern ∷ patterns) before h =
      let (between, e, rest) =
        ok_of_bind (merge_files fs (pattern_files fs here_dir pattern) before) _ h in
      IsMerged-append (merge_files-IsMerged (pattern_files fs here_dir pattern) before e)
        (merge_patterns-IsMerged here_dir patterns between rest)

  -- The patterns of the include section of a document.
  abbrev pub include_patterns : ParsedIni → List Text
  include_patterns ini = elim (Document.get ini (codes "include") (codes "files")) [
    | none ↦ []
    | some val ↦ string_to_str_list val
  ]

  -- What the text says.
  abbrev pub Loads : Text → ParsedIni → ParsedIni × List Text → Type 0
  Loads file main_ini (ini, visited) =
      let files = all_files (fs.parent file) (include_patterns main_ini) in
      (visited ≡ visit_all (file ∷ files) [])
      × Distinct visited
      × ((s k : Text) → Document.get ini s k ≡ last_entry s k (file ∷ files))

  file_entry_of_content :
      (s k file content : Text)
      → fs.read_to_string file ≡ some content
      → file_entry s k file ≡ Document.get (parse_ini_content content (some (fs.parent file))) s k
  file_entry_of_content s k file content read = rw (read, file_entry) refl

  concluded :
      (file content : Text) (main_ini : ParsedIni) {visited' : List Text}
      {after : ParsedIni × List Text}
      → fs.read_to_string file ≡ some content
      → main_ini ≡ parse_ini_content content (some (fs.parent file))
      → visited' ≡ fs.abs_path file ∷ []
      → IsMerged (all_files (fs.parent file) (include_patterns main_ini)) (main_ini, visited') after
      → Loads file (parse_ini_content content (some (fs.parent file))) after
  concluded file content main_ini {visited'} {after} read doc now m = rw (← doc) (
    m.visits ∙ ap (visit_all (all_files (fs.parent file) (include_patterns main_ini))) now,
    m.distinct (rw now (contains_nil (fs.abs_path file), tt)),
    λ s k.
        m.entries s k
        ∙ ap (or_else (last_entry s k (all_files (fs.parent file) (include_patterns main_ini))))
            (ap (λ d. Document.get d s k) doc ∙ sym (file_entry_of_content s k file content read)),
  )

  -- A load with includes that succeeds has read the file and then each file that its patterns
  -- name, none of them twice, and an entry is what the last of these files says of it.
  pub load_ini_file_with_includes-ok :
      (file : Text) {ini : ParsedIni} {visited : List Text}
      → load_ini_file_with_includes fs true file [] ≡ ok (ini, visited)
      → (content : Text) × (fs.read_to_string file ≡ some content)
        × Loads file (parse_ini_content content (some (fs.parent file))) (ini, visited)
  unfolding load_ini_file_with_includes
  load_ini_file_with_includes-ok file h =
      let ((main_ini, visited'), e, rest) = ok_of_bind (load_main fs true file []) _ h in
      let (content, read, doc, now, fresh) = load_main-eq_ok true file [] e in
      let merged =
        merge_patterns-IsMerged (fs.parent file) (include_patterns main_ini) (main_ini, visited')
          rest in
      (content, read, concluded file content main_ini read doc now merged)
