-- ===== src/Manager/Timeouts.antt =====
-- src/manager/supervisor.rs: how long a caller of the manager's handle waits for an answer. The
-- handle reads a copy of the configurations. Durations are nanoseconds, at most `duration_max`.
use rsupervisord.Prelude.{
  ℕ, ◌+◌, ◌*◌, ◌-◌, min, max, Bool, ◌&&◌, Option, none, some, List, [], ◌∷◌, ◌++◌, Text, codes,
  text_eq, if◌then◌else◌, is_empty, leb, length, trim, split_once, u32, from_secs, u64_mod,
  unwrap_or,
}
use rsupervisord.Prelude.Maps
use rsupervisord.Prelude.Maps.{Map}
use rsupervisord.Dag.{text_le}
use rsupervisord.Manager.{ProgramConfig, default_stop_wait, part_matches}

abbrev pub Configs : Type 0
Configs = Map ProgramConfig

unfoldable pub configs_where : (Text → ProgramConfig → Bool) → Configs → List ProgramConfig
configs_where test [] = []
configs_where test ((name, c) ∷ configs) =
    let rest = configs_where test configs in if test name c then c ∷ rest else rest

unfoldable pub insert_by_name : ProgramConfig → List ProgramConfig → List ProgramConfig
unfolding text_le
insert_by_name c [] = c ∷ []
insert_by_name c (d ∷ ds) =
    let rest = insert_by_name c ds in if text_le c.name d.name then c ∷ d ∷ ds else d ∷ rest

unfoldable pub sort_by_name : List ProgramConfig → List ProgramConfig
unfolding insert_by_name
sort_by_name [] = []
sort_by_name (c ∷ cs) = insert_by_name c (sort_by_name cs)

unfoldable pub group_configs_sorted : Text → Configs → List ProgramConfig
unfolding configs_where sort_by_name text_eq
group_configs_sorted group configs =
    sort_by_name (configs_where (λ name c. text_eq c.group group) configs)

unfoldable pub find_targets_for_program : Text → Configs → List ProgramConfig
unfolding trim split_once part_matches configs_where group_configs_sorted Maps.get text_eq
find_targets_for_program name configs =
    let trimmed = trim name in
    elim (Maps.get trimmed configs) [
      | some c ↦ c ∷ []
      | none ↦ elim (split_once b':' trimmed) [
        | none ↦ group_configs_sorted trimmed configs
        | some (group_part, prog_part) ↦
            let matches =
              configs_where
                (λ p_name c. text_eq c.group group_part && part_matches group_part prog_part p_name)
                configs in
            if is_empty matches then group_configs_sorted trimmed configs else matches
      ]
    ]

unfoldable pub find_targets_for_group : Text → Configs → List ProgramConfig
unfolding trim find_targets_for_program
find_targets_for_group group configs =
    let trimmed = trim group in
    let targets = find_targets_for_program (trimmed ++ codes ":*") configs in
    if is_empty targets then find_targets_for_program trimmed configs else targets

-- `Duration::MAX`.
abbrev pub duration_max : ℕ
duration_max = from_secs (u64_mod - 1) + 999_999_999

abbrev pub max_timeout : ℕ
max_timeout = from_secs 86400

abbrev pub default_hook_timeout : ℕ
default_hook_timeout = from_secs 15

abbrev pub drain_timeout : ℕ
drain_timeout = from_secs 2

abbrev pub stop_grace_extra : ℕ
stop_grace_extra = from_secs 15

abbrev pub restart_grace_extra : ℕ
restart_grace_extra = from_secs 25

abbrev pub await_query : ℕ
await_query = from_secs 10

abbrev pub await_action : ℕ
await_action = from_secs 30

abbrev pub await_group : ℕ
await_group = from_secs 60

abbrev pub await_bulk : ℕ
await_bulk = from_secs 120

unfoldable pub saturating_add : ℕ → ℕ → ℕ
saturating_add a b = min (a + b) duration_max

unfoldable pub saturating_mul : ℕ → ℕ → ℕ
saturating_mul a n = min (a * n) duration_max

-- `a.checked_add(b).unwrap_or(MAX_TIMEOUT)`.
unfoldable pub add_or_max : ℕ → ℕ → ℕ
add_or_max a b = if leb (a + b) duration_max then a + b else max_timeout

-- What one target may take, where `grace` is given to it.
unfoldable pub per_target : (hook extra grace : ℕ) → ℕ
unfolding add_or_max
per_target hook extra grace = add_or_max (add_or_max (add_or_max grace hook) drain_timeout) extra

unfoldable pub total_of : (extra : ℕ) → Option ℕ → List ProgramConfig → ℕ → ℕ
unfolding per_target saturating_add
total_of extra period [] acc = acc
total_of extra period (c ∷ cs) acc =
    total_of extra period cs (
      saturating_add acc
        (per_target default_hook_timeout extra (unwrap_or period c.stop_wait_secs)))

-- The starts of so many targets.
unfoldable pub start_dur : ℕ → ℕ
unfolding saturating_add saturating_mul u32
start_dur count =
    saturating_add
      (saturating_mul (saturating_add default_hook_timeout await_query) (u32 (max count 1)))
      await_query

unfoldable pub bounded : (least t : ℕ) → ℕ
bounded least t = min (max t least) max_timeout

unfoldable pub compute_start_program_timeout : Text → Configs → ℕ
unfolding find_targets_for_program start_dur bounded
compute_start_program_timeout name configs =
    bounded await_action (start_dur (length (find_targets_for_program name configs)))

unfoldable pub compute_stop_program_timeout : Text → Option ℕ → Configs → ℕ
unfolding find_targets_for_program per_target total_of saturating_add bounded
compute_stop_program_timeout name period configs =
    let targets = find_targets_for_program name configs in
    bounded await_action (
      if is_empty targets
      then per_target default_hook_timeout stop_grace_extra (unwrap_or period default_stop_wait)
      else saturating_add (total_of stop_grace_extra period targets 0) await_query)

unfoldable pub compute_restart_program_timeout : Text → Option ℕ → Configs → ℕ
unfolding find_targets_for_program per_target total_of saturating_add start_dur bounded
compute_restart_program_timeout name period configs =
    let targets = find_targets_for_program name configs in
    let stop_dur =
      if is_empty targets
      then per_target (default_hook_timeout * 2) restart_grace_extra
          (unwrap_or period default_stop_wait)
      else total_of restart_grace_extra period targets 0 in
    bounded await_action (saturating_add stop_dur (start_dur (length targets)))

unfoldable pub compute_start_group_timeout : Text → Configs → ℕ
unfolding find_targets_for_group start_dur bounded
compute_start_group_timeout group configs =
    bounded await_group (start_dur (length (find_targets_for_group group configs)))

unfoldable pub compute_stop_group_timeout : Text → Option ℕ → Configs → ℕ
unfolding find_targets_for_group total_of saturating_add bounded
compute_stop_group_timeout group period configs =
    let targets = find_targets_for_group group configs in
    if is_empty targets
    then await_group
    else bounded await_group
        (saturating_add (total_of stop_grace_extra period targets 0) await_query)

unfoldable pub compute_restart_group_timeout : Text → Option ℕ → Configs → ℕ
unfolding find_targets_for_group total_of saturating_add start_dur bounded
compute_restart_group_timeout group period configs =
    let targets = find_targets_for_group group configs in
    let stop_dur =
      if is_empty targets then await_group else total_of restart_grace_extra period targets 0 in
    bounded await_bulk (saturating_add stop_dur (start_dur (length targets)))

unfoldable pub compute_add_process_group_timeout : Text → Configs → ℕ
unfolding configs_where text_eq start_dur bounded
compute_add_process_group_timeout group pending =
    bounded await_group
      (start_dur (length (configs_where (λ name c. text_eq c.group group) pending)))
