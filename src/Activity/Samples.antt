-- ===== src/Activity/Samples.antt =====
-- A client that follows a stream and leaves.
use rsupervisord.Prelude.{u64, ◌≡◌, refl, true, false, List, [], ◌∷◌}
use rsupervisord.Activity.{
  Contact, ActivityTracker, contacts, with_interval, is_metrics_active, is_idle,
}
use rsupervisord.Activity.History.{
  open_streams, last_call, is_watched, wakes, contacts-eq-is_watched,
}

abbrev session : List Contact
session = Contact.records 3 ∷ Contact.enters 5 ∷ Contact.leaves ∷ []

contacts-eq-is_watched_example :
    (is_metrics_active 2000000000 (contacts session (with_interval 0 1 5 true))
      ≡ is_watched 1 true 2000000000 (open_streams 0 session) (last_call 0 session))
    × (wakes 2000000000 (Contact.enters 2000000000) (contacts session (with_interval 0 1 5 true))
        ≡ true)
contacts-eq-is_watched_example =
    contacts-eq-is_watched 0 1 5 true session (Contact.enters 2000000000) 2000000000 refl

abbrev visited : ActivityTracker
visited = contacts session (with_interval 0 1 5 true)

pauses :
    (is_metrics_active 1000000004 visited ≡ true)
    × (is_metrics_active 1000000005 visited ≡ false)
    × (is_idle 1000000005 visited ≡ true)
    × (visited.notifications ≡ 0)
unfolding contacts with_interval is_metrics_active is_idle u64
pauses = (refl, refl, refl, refl)
