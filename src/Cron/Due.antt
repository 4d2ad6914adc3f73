-- ===== src/Cron/Due.antt =====
-- What becomes of the entries that are due.
use rsupervisord.Prelude.{
  ℕ, ◌≡◌, refl, arith, Bool, true, false, ◌&&◌, Option, none, some, [], ◌∷◌, map, leb,
  if◌then◌else◌, is_some, filterb,
}
use rsupervisord.Cron.{CronEntry, CronTable, Croner, action_of, pop_due_actions, earliest_deadline}

module _ {C : Type 0} (croner : Croner C) (now : ℕ) where
  abbrev pub is_due : CronEntry C → Bool
  is_due e = leb e.next_run now

  -- The expression runs again.
  abbrev pub recurs : CronEntry C → Bool
  recurs e = is_some (croner.find_next_occurrence e.cron now)

  abbrev pub all_recur : CronTable C → Bool
  all_recur [] = true
  all_recur (e ∷ es) = let rest = all_recur es in if is_due e then recurs e && rest else rest

  pub actions-pop_due_actions :
      (es : CronTable C)
      → (pop_due_actions croner now es).1 ≡ map (action_of croner) (filterb is_due es)
  unfolding pop_due_actions
  actions-pop_due_actions [] = refl
  actions-pop_due_actions (e ∷ es) = ground (arith, actions-pop_due_actions es)

  -- Some entry is due.
  abbrev any_due : Option ℕ → Bool
  any_due none = false
  any_due (some t) = leb t now

  -- The loop of the manager does not sleep.
  abbrev pub wakes_at_once : CronTable C → Bool
  wakes_at_once es = any_due (earliest_deadline now es)
