-- ===== src/Cron.antt =====
-- src/manager/cron.rs: the table of schedules, and how the manager serves it. Instants are numbers;
-- the expressions (the `croner` library) are of any type, with the two calls that are made of it.
pub mod Due
mod Samples
use rsupervisord.Prelude.{
  ℕ, min, Bool, true, false, not, ◌&&◌, Option, none, some, List, [], ◌∷◌, ◌++◌, Text, text_eq, leb,
  if◌then◌else◌,
}
use rsupervisord.Prelude.Maps
use rsupervisord.Prelude.Maps.{Map}
use rsupervisord.Program.State.{is_active}
use rsupervisord.Manager.{Api, Manager}
use rsupervisord.Manager.Commands.{execute_start_program, execute_stop_program}

pub data CronAction : Type 0 where
  start stop : (name group expression : Text) → CronAction

pub record CronEntry (C : Type 0) : Type 0 where
  pub name : Text
  pub group : Text
  pub is_stop : Bool
  pub expression : Text
  pub cron : C
  pub next_run : ℕ

-- The fields of a configuration that the table reads.
pub record Schedule : Type 0 where
  pub group : Text
  pub cron : Option Text
  pub cron_stop : Option Text

-- What the table asks of `croner`: `find_next_occurrence` is the one that excludes the instant given.
pub record Croner (C : Type 0) : Type 0 where
  pub parse : Text → Option C
  pub find_next_occurrence : C → ℕ → Option ℕ

abbrev pub CronTable : Type 0 → Type 0
CronTable C = List (CronEntry C)

module _ {C : Type 0} (croner : Croner C) where
  -- One of the two conditions of the loop over the configurations.
  unfoldable pub entry_for : ℕ → Text → Text → Bool → Option Text → CronTable C
  entry_for now name group is_stop none = []
  entry_for now name group is_stop (some expr) = elim (croner.parse expr) [
    | none ↦ []
    | some cron ↦ elim (croner.find_next_occurrence cron now) [
      | none ↦ []
      | some next_run ↦
          record {
            name = name;
            group = group;
            is_stop = is_stop;
            expression = expr;
            cron = cron;
            next_run = next_run;
          }
          ∷ []
    ]
  ]

  unfoldable pub from_configs : ℕ → Map Schedule → CronTable C
  unfolding entry_for
  from_configs now [] = []
  from_configs now ((name, cfg) ∷ configs) =
      entry_for now name cfg.group false cfg.cron
      ++ (entry_for now name cfg.group true cfg.cron_stop ++ from_configs now configs)

  unfoldable pub action_of : CronEntry C → CronAction
  action_of e =
      if e.is_stop
      then CronAction.stop e.name e.group e.expression
      else CronAction.start e.name e.group e.expression

  -- `entry.next_run = next`, where there is a next run.
  unfoldable pub advance : ℕ → CronEntry C → CronEntry C
  advance now e = elim (croner.find_next_occurrence e.cron now) [
    | none ↦ e
    | some next ↦ record e { next_run = next }
  ]

  unfoldable pub pop_due_actions : ℕ → CronTable C → CronTable C × List CronAction
  unfolding action_of advance
  pop_due_actions now [] = ([], [])
  pop_due_actions now (e ∷ entries) =
      let (rest, actions) = pop_due_actions now entries in
      if leb e.next_run now
      then (advance now e ∷ rest, action_of e ∷ actions)
      else (e ∷ rest, actions)

-- The earliest of the next runs.
unfoldable pub earliest : {C : Type 0} → CronTable C → Option ℕ
earliest [] = none
earliest (e ∷ entries) = elim (earliest entries) [
  | none ↦ some e.next_run
  | some t ↦ some (min e.next_run t)
]

-- The time to sleep until the earliest run: none if it is not later than now.
unfoldable pub earliest_deadline : {C : Type 0} → ℕ → CronTable C → Option ℕ
unfolding earliest
earliest_deadline now entries = elim (earliest entries) [
  | none ↦ none
  | some t ↦ some (if leb t now then now else t)
]

abbrev starts_program : {C : Type 0} → Text → CronEntry C → Bool
starts_program name e = text_eq e.name name && not e.is_stop

unfoldable pub get_next_run : {C : Type 0} → Text → CronTable C → Option ℕ
unfolding text_eq
get_next_run name [] = none
get_next_run name (e ∷ entries) =
    let rest = get_next_run name entries in
    let here : Option ℕ = elim rest [ none ↦ some e.next_run | some t ↦ some (min e.next_run t) ] in
    if starts_program name e then here else rest

unfoldable pub get_cron_expr : {C : Type 0} → Text → CronTable C → Option Text
unfolding text_eq
get_cron_expr name [] = none
get_cron_expr name (e ∷ entries) =
    let rest = get_cron_expr name entries in
    if starts_program name e then some e.expression else rest

module _ {H W E : Type 0} (api : Api H W E) where
  -- The program is active, for a program that is there.
  unfoldable pub active_program : Text → Manager H W E → Option Bool
  unfolding Maps.get is_active
  active_program name m = elim (Maps.get name m.programs) [
    | none ↦ none
    | some prog ↦ some (is_active (api.status prog m.world))
  ]

  -- The action is what the event CronTriggered carries; it is published in front of the call.
  unfoldable pub run_action :
      CronAction → Manager H W E × List CronAction → Manager H W E × List CronAction
  unfolding active_program execute_start_program execute_stop_program
  run_action (CronAction.start name group expression) (m, published) =
      elim (active_program name m) [
        | none ↦ (m, published)
        | some active ↦ if active then (m, published) else (
          (execute_start_program api name m).0,
          published ++ CronAction.start name group expression ∷ [],
        )
      ]
  run_action (CronAction.stop name group expression) (m, published) = elim (active_program name m) [
    | none ↦ (m, published)
    | some active ↦
        if active
        then (
          (execute_stop_program api name none m).0,
          published ++ CronAction.stop name group expression ∷ [],
        )
        else (m, published)
  ]

  unfoldable pub run_actions :
      List CronAction → Manager H W E × List CronAction → Manager H W E × List CronAction
  unfolding run_action
  run_actions [] s = s
  run_actions (a ∷ actions) s = run_actions actions (run_action a s)

  -- The table, the manager, and the events that are published.
  unfoldable pub handle_due_cron_jobs :
      {C : Type 0}
      → Croner C
      → ℕ
      → CronTable C
      → Manager H W E
      → CronTable C × Manager H W E × List CronAction
  unfolding pop_due_actions run_actions
  handle_due_cron_jobs croner now table m =
      let (table', actions) = pop_due_actions croner now table in
      let (m', published) = run_actions actions (m, []) in (table', m', published)
