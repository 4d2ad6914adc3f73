-- ===== src/Listener/Pool.antt =====
-- src/eventlistener/pool.rs: the bounded buffer of a pool, and the events it takes from the hub.
-- `dispatch_notify` and `cancel_token` only wake and end tasks, and have no part in the state.
pub mod Newest
use rsupervisord.Prelude.{
  ℕ, max, Bool, true, false, not, Option, none, some, List, [], ◌∷◌, ◌++◌, Text, codes, text_eq,
  is_empty, split_once, leb, ◌==◌, if◌then◌else◌, length, pop_back,
}
use rsupervisord.Prelude.Int.{ℤ, pos}
use rsupervisord.Program.State.{ProgramState, HealthStatus, int_eq}
use rsupervisord.Listener.Wire.{EventEnvelope, next_serial}
use rsupervisord.Listener.Events.{
  event_matches_subscription, format_process_state_event, format_process_log_event,
  format_tick_event, format_remote_comm_event,
}

-- `EventListenerPoolInner`
pub record Pool : Type 0 where
  pub pool_name : Text
  pub server_identifier : Text
  pub events : List Text
  pub buffer_size : ℕ
  pub pool_serial : ℕ  -- u64
  pub buffer : List EventEnvelope  -- front first

unfoldable pub new : (pool_name server_identifier : Text) → List Text → ℕ → Pool
new pool_name server_identifier events buffer_size = record {
  pool_name = pool_name;
  server_identifier = server_identifier;
  events = events;
  buffer_size = max buffer_size 1;
  pool_serial = 0;
  buffer = [];
}

-- `pop_front` on a full buffer.
abbrev pub pop_front : List EventEnvelope → List EventEnvelope
pop_front [] = []
pop_front (e ∷ es) = es

unfoldable pub push_bounded :
    (buffer_size : ℕ) → List EventEnvelope → EventEnvelope → List EventEnvelope
push_bounded buffer_size buffer envelope =
    (if leb buffer_size (length buffer) then pop_front buffer else buffer) ++ envelope ∷ []

-- The first component is the process-wide serial counter.
unfoldable pub accept_event : (event_name payload : Text) → ℕ × Pool → ℕ × Pool
unfolding next_serial
accept_event event_name payload (global_serial, p) =
    if not (event_matches_subscription event_name p.events) then (global_serial, p) else (
      next_serial global_serial,
      record p {
        pool_serial = next_serial p.pool_serial;
        buffer = push_bounded p.buffer_size p.buffer (record {
          global_serial = global_serial;
          pool_serial = p.pool_serial;
          pool = p.pool_name;
          event_name = event_name;
          payload = payload;
        });
      },
    )

unfoldable pub requeue_rejected : EventEnvelope → Pool → Pool
requeue_rejected envelope p = record p {
  buffer = envelope ∷ (if leb p.buffer_size (length p.buffer) then pop_back p.buffer else p.buffer);
}

unfoldable pub pop_next_event : Pool → Option EventEnvelope × Pool
pop_next_event p = elim p.buffer [ [] ↦ (none, p) | e ∷ es ↦ (some e, record p { buffer = es }) ]

pub data SystemEvent : Type 0 where
  state_changed :
      (name group : Text) (old_state new_state : ProgramState) (pid : Option ℕ)
      (exit_code : Option ℤ) (tries : ℕ)
      → SystemEvent
  tick : (interval when : ℕ) → SystemEvent
  remote_communication : (type_str data_ : Text) → SystemEvent
  config_reloaded : (added removed : List Text) → SystemEvent
  process_group_added process_group_removed : (group : Text) → SystemEvent
  daemon_lifecycle : (action : Text) → SystemEvent
  other : SystemEvent  -- the events that the pool does not pass on

abbrev before_colon : Text → Text
before_colon name = elim (split_once b':' name) [ none ↦ name | some (g, p) ↦ g ]

abbrev after_colon : Text → Text
after_colon name = elim (split_once b':' name) [ none ↦ name | some (g, p) ↦ p ]

abbrev is_zero_or_none : Option ℤ → Bool
is_zero_or_none none = true
is_zero_or_none (some c) = int_eq c (pos 0)

-- `accept_event` for each of the groups.
unfoldable pub accept_groups : (event_name : Text) → List Text → ℕ × Pool → ℕ × Pool
accept_groups event_name [] s = s
accept_groups event_name (g ∷ gs) s =
    accept_groups event_name gs (accept_event event_name (codes "groupname:" ++ g ++ b'\n' ∷ []) s)

unfoldable pub handle_system_event : SystemEvent → ℕ × Pool → ℕ × Pool
unfolding split_once int_eq text_eq
handle_system_event (SystemEvent.state_changed name group old_state new_state pid code tries) s =
    let actual_group = if is_empty group then before_colon name else group in
    let (event_name, payload) =
      format_process_state_event (after_colon name) actual_group old_state new_state pid
        (is_zero_or_none code) tries in
    accept_event event_name payload s
handle_system_event (SystemEvent.tick interval when) s =
    let (event_name, payload) = format_tick_event interval when in accept_event event_name payload s
handle_system_event (SystemEvent.remote_communication type_str data_) s =
    let (event_name, payload) = format_remote_comm_event type_str data_ in
    accept_event event_name payload s
handle_system_event (SystemEvent.config_reloaded added removed) s =
    accept_groups (codes "PROCESS_GROUP_REMOVED") removed
      (accept_groups (codes "PROCESS_GROUP_ADDED") added s)
handle_system_event (SystemEvent.process_group_added group) s =
    accept_groups (codes "PROCESS_GROUP_ADDED") (group ∷ []) s
handle_system_event (SystemEvent.process_group_removed group) s =
    accept_groups (codes "PROCESS_GROUP_REMOVED") (group ∷ []) s
handle_system_event (SystemEvent.daemon_lifecycle action) s =
    if text_eq action (codes "running")
    then accept_event (codes "SUPERVISOR_STATE_CHANGE_RUNNING") [] s
    else if text_eq action (codes "shutting_down")
    then accept_event (codes "SUPERVISOR_STATE_CHANGE_STOPPING") [] s
    else s
handle_system_event SystemEvent.other s = s

pub record LogEntry : Type 0 where
  pub program : Text
  pub group : Option Text
  pub pid : Option ℕ
  pub stream : Text
  pub line : Text
  pub events_enabled : Bool

unfoldable pub handle_log_entry : LogEntry → ℕ × Pool → ℕ × Pool
unfolding split_once
handle_log_entry entry s =
    if not entry.events_enabled
    then s
    else (let group : Text = elim entry.group [ none ↦ before_colon entry.program | some g ↦ g ] in
        let (event_name, payload) =
          format_process_log_event (after_colon entry.program) group entry.pid entry.stream
            entry.line in
        accept_event event_name payload s)

-- What the pool's task takes from the two channels of the hub.
pub data HubMessage : Type 0 where
  system : SystemEvent → HubMessage
  log : LogEntry → HubMessage

unfoldable pub hub_message : HubMessage → ℕ × Pool → ℕ × Pool
hub_message (HubMessage.system e) s = handle_system_event e s
hub_message (HubMessage.log e) s = handle_log_entry e s
