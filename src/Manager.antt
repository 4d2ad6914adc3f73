-- ===== src/Manager.antt =====
-- src/manager/supervisor.rs: the actor that owns the programs. A program is reached through an
-- interface, and what stands behind it (processes, listeners, the event hub) is a world of any
-- type. `calls` is the history of the calls that the manager makes.
pub mod Commands
pub mod Generations
pub mod Run
pub mod Keeps
pub mod Registered
pub mod Started
pub mod Invariant
pub mod Reloads
pub mod Entries
pub mod Applied
pub mod Reloaded
pub mod Layered
pub mod Timeouts
pub mod Targets
pub mod Waits
mod Samples
use rsupervisord.Prelude.{
  ℕ, Bool, true, false, not, ◌&&◌, ◌||◌, Option, none, some, List, [], ◌∷◌, ◌++◌, Text, codes,
  text_eq, ◌==◌, leb, if◌then◌else◌, is_empty, trim, split_once, strip_prefix,
}
use rsupervisord.Prelude.Maps
use rsupervisord.Prelude.Maps.{Map}
use rsupervisord.Prelude.Outcome.{Outcome, ok, err}
use rsupervisord.Program.State.{ProgramState, state_eq}
use rsupervisord.Dag
use rsupervisord.Dag.{DependencyGraph, sort_by, text_le}

-- The fields that the manager reads; `settings` stands for all others.
pub record ProgramConfig : Type 0 where
  pub name : Text
  pub group : Text
  pub depends_on : List Text
  pub priority : ℕ  -- u32
  pub autostart : Bool
  pub stop_wait_secs : ℕ
  pub settings : Text

-- What a manager asks of its programs: `H` are the handles, `W` is the world, `E` the event pools.
-- A result of `none` is `Ok(())`.
pub record Api (H W E : Type 0) : Type 0 where
  pub status : H → W → ProgramState
  pub start : H → W → W × Option Text
  pub stop : ℕ → H → W → W × Option Text
  pub restart : ℕ → H → W → W × Option Text
  pub shutdown : H → W → W
  pub instantiate : ProgramConfig → W → E → W × Outcome Text (E × H)
  pub no_pools : E
  pub is_cyclic : Dag.Programs → Bool

pub data Call : Type 0 where
  start shutdown : Text → Call
  stop restart : Text → ℕ → Call

pub data ManagerError : Type 0 where
  not_found : Text → ManagerError
  program_error : Text → ManagerError
  shutting_down : Text → ManagerError
  bad_dependencies : ManagerError

pub record Manager (H W E : Type 0) : Type 0 where
  pub programs : Map H
  pub configs : Map ProgramConfig
  pub pending_configs : Map ProgramConfig
  pub dag : DependencyGraph
  pub event_pools : E
  pub world : W
  pub calls : List Call

-- Nanoseconds.
abbrev pub default_stop_wait : ℕ
default_stop_wait = 10_000_000_000

abbrev pub default_priority : ℕ
default_priority = 50

module _ {H W E : Type 0} where
  unfoldable pub priority_of : Manager H W E → Text → ℕ
  unfolding Maps.get
  priority_of m name = elim (Maps.get name m.configs) [
    | none ↦ default_priority
    | some c ↦ c.priority
  ]

  unfoldable pub stop_wait : Manager H W E → Option ℕ → Text → ℕ
  unfolding Maps.get
  stop_wait m (some period) name = period
  stop_wait m none name = elim (Maps.get name m.configs) [
    | none ↦ default_stop_wait
    | some c ↦ c.stop_wait_secs
  ]

-- The test of the loop over the configurations, for `group:program`.
unfoldable pub part_matches : (group_part prog_part p_name : Text) → Bool
unfolding text_eq strip_prefix
part_matches group_part prog_part p_name =
    text_eq prog_part (codes "*")
    || text_eq prog_part p_name
    || (elim (strip_prefix (group_part ++ b':' ∷ []) p_name) [
      | none ↦ false
      | some rest ↦ text_eq rest prog_part
    ])

unfoldable pub names_where : (Text → ProgramConfig → Bool) → Map ProgramConfig → List Text
names_where test [] = []
names_where test ((name, c) ∷ configs) =
    let rest = names_where test configs in if test name c then name ∷ rest else rest

unfoldable pub group_names : Text → Map ProgramConfig → List Text
unfolding names_where sort_by text_le text_eq
group_names group configs = sort_by text_le (names_where (λ name c. text_eq c.group group) configs)

unfoldable pub find_match : {H W E : Type 0} → Text → Manager H W E → List Text
unfolding trim split_once part_matches names_where group_names Maps.contains_key text_eq
find_match pattern m =
    let trimmed = trim pattern in
    if Maps.contains_key trimmed m.programs then trimmed ∷ [] else elim (split_once b':' trimmed) [
      | none ↦ group_names trimmed m.configs
      | some (group_part, prog_part) ↦
          let matches =
            names_where
              (λ p_name c. text_eq c.group group_part && part_matches group_part prog_part p_name)
              m.configs in
          if is_empty matches then group_names trimmed m.configs else matches
    ]
