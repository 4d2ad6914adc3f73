-- ===== src/Cron/Samples.antt =====
-- A table of three schedules.
use rsupervisord.Prelude.{
  ℕ, ◌+◌, ◌≡◌, refl, true, false, none, some, [], ◌∷◌, codes, ◌==◌, if◌then◌else◌, length,
}
use rsupervisord.Prelude.Maps.{Map}
use rsupervisord.Cron.{
  CronAction, CronTable, Croner, Schedule, from_configs, pop_due_actions, get_next_run,
  get_cron_expr,
}

-- An expression is a period; none recurs with the period zero.
abbrev periods : Croner ℕ
periods = record {
  parse = λ s. some (length s);
  find_next_occurrence = λ c now. if c == 0 then none else some (now + c);
}

abbrev table : CronTable ℕ
table =
    record {
      name = codes "a";
      group = codes "g";
      is_stop = false;
      expression = codes "xx";
      cron = 2;
      next_run = 5;
    }
    ∷ record {
      name = codes "a";
      group = codes "g";
      is_stop = true;
      expression = codes "xxx";
      cron = 3;
      next_run = 9;
    }
    ∷ record {
      name = codes "b";
      group = codes "g";
      is_stop = false;
      expression = [];
      cron = 0;
      next_run = 6;
    }
    ∷ []

popped :
    (pop_due_actions periods 7 table).1
    ≡ CronAction.start (codes "a") (codes "g") (codes "xx")
      ∷ CronAction.start (codes "b") (codes "g") []
      ∷ []
unfolding pop_due_actions
popped = refl

read_back :
    let schedules : Map Schedule =
      (
        codes "a",
        record { group = codes "g"; cron = some (codes "xx"); cron_stop = some (codes "xxx") },
      )
      ∷ [] in
    (get_next_run (codes "a") (from_configs periods 7 schedules) ≡ some 9)
    × (get_cron_expr (codes "a") (from_configs periods 7 schedules) ≡ some (codes "xx"))
unfolding get_next_run get_cron_expr from_configs
read_back = (refl, refl)
