-- ===== src/Activity.antt =====
-- src/manager/activity.rs: the tracker of clients, which pauses the sampling of metrics. Instants
-- are numbers, `elapsed` stops at 0, and the waiters that are notified are counted by call.
pub mod History
mod Samples
use rsupervisord.Prelude.{
  ℕ, ◌+◌, ◌*◌, ◌-◌, max, u64, u64_mod, from_secs, Bool, true, false, not, List, [], ◌∷◌, ◌==◌, ltb,
  leb, if◌then◌else◌,
}

pub record ActivityTracker : Type 0 where
  pub last_activity : ℕ
  pub active_observers : ℕ  -- usize
  pub idle_timeout_secs : ℕ
  pub interval_secs : ℕ
  pub enabled : Bool
  pub notifications : ℕ  -- the calls of notify_waiters

unfoldable pub with_interval : (now idle_timeout_secs interval_secs : ℕ) → Bool → ActivityTracker
with_interval now idle_timeout_secs interval_secs enabled = record {
  last_activity = now;
  active_observers = 0;
  idle_timeout_secs = idle_timeout_secs;
  interval_secs = max interval_secs 1;
  enabled = enabled;
  notifications = 0;
}

abbrev pub elapsed : ℕ → ActivityTracker → ℕ
elapsed now t = now - t.last_activity

unfoldable pub is_metrics_active : ℕ → ActivityTracker → Bool
is_metrics_active now t =
    if not t.enabled
    then false
    else if ltb 0 t.active_observers
    then true
    else if t.idle_timeout_secs == 0
    then true
    else ltb (elapsed now t) (from_secs t.idle_timeout_secs)

unfoldable pub is_idle : ℕ → ActivityTracker → Bool
is_idle now t =
    if t.idle_timeout_secs == 0 then false else leb (from_secs t.idle_timeout_secs) (elapsed now t)

unfoldable pub notify_waiters : ActivityTracker → ActivityTracker
notify_waiters t = record t { notifications = t.notifications + 1 }

unfoldable pub record_activity : ℕ → ActivityTracker → ActivityTracker
unfolding is_metrics_active notify_waiters
record_activity now t =
    let was_inactive = not (is_metrics_active now t) in
    let t' = record t { last_activity = now } in if was_inactive then notify_waiters t' else t'

unfoldable pub reset_activity : ℕ → ActivityTracker → ActivityTracker
unfolding notify_waiters
reset_activity now t = notify_waiters (record t { last_activity = now })

unfoldable pub enter_stream : ℕ → ActivityTracker → ActivityTracker
unfolding is_metrics_active notify_waiters record_activity
enter_stream now t =
    let was_inactive = not (is_metrics_active now t) in
    let t' = record_activity now (record t { active_observers = u64 (t.active_observers + 1) }) in
    if was_inactive then notify_waiters t' else t'

-- The guard of a stream is dropped.
unfoldable pub drop_guard : ActivityTracker → ActivityTracker
drop_guard t = record t { active_observers = u64 (t.active_observers + (u64_mod - 1)) }

-- What clients do: calls at an instant, and the ends of streams.
pub data Contact : Type 0 where
  records resets enters : (now : ℕ) → Contact
  leaves : Contact

unfoldable pub contact : Contact → ActivityTracker → ActivityTracker
unfolding record_activity reset_activity enter_stream drop_guard
contact (Contact.records now) t = record_activity now t
contact (Contact.resets now) t = reset_activity now t
contact (Contact.enters now) t = enter_stream now t
contact Contact.leaves t = drop_guard t

unfoldable pub contacts : List Contact → ActivityTracker → ActivityTracker
unfolding contact
contacts [] t = t
contacts (c ∷ cs) t = contacts cs (contact c t)
