-- ===== src/Listener/Handshake.antt =====
-- src/eventlistener/program.rs: the task that talks to a listener process by `READY` and `RESULT`.
-- An event is a result of the `select!`; what the pipes give and take is part of the event. Every
-- arm runs to its end: a cancellation in the middle of a write or a read is not among the events.
pub mod Held
pub mod Conserve
pub mod Serials
pub mod Delivery
pub mod Protocol
use rsupervisord.Prelude.{
  ℕ, Bool, true, false, not, ◌&&◌, ◌||◌, Option, none, some, List, [], ◌∷◌, ◌++◌, Text, codes,
  text_eq, trim, trim_end_matches, strip_prefix, parse_unsigned, u64_mod, ltb, ◌==◌, if◌then◌else◌,
}
use rsupervisord.Listener.Wire.{EventEnvelope, ListenerState, ProcessResult, evaluate_result}
use rsupervisord.Listener.Pool.{Pool, accept_event, requeue_rejected, pop_next_event}

-- The local variables of the task, with the pool it serves and what it wrote to the process.
pub record Task : Type 0 where
  pub pool : Pool
  pub state : ListenerState
  pub current_envelope : Option EventEnvelope
  pub sent : List EventEnvelope
  pub running : Bool

unfoldable pub spawn_task : Pool → Task
spawn_task p = record {
  pool = p;
  state = ListenerState.acknowledged;
  current_envelope = none;
  sent = [];
  running = true;
}

pub data TaskEvent : Type 0 where
  read_line : Text → (read_exact : ℕ → Option Text) → TaskEvent  -- a line, and the bytes after it
  closed : TaskEvent  -- the end of the stream, or an error
  dispatch : (written : Bool) → TaskEvent  -- the buffer is asked for an event
  cancelled : TaskEvent

abbrev pub max_result_bytes : ℕ
max_result_bytes = 1_048_576

-- `if let Some(env) = current_envelope.take() { requeue_rejected(env) }`
unfoldable pub give_back : Task → Task
unfolding requeue_rejected
give_back t = elim t.current_envelope [
  | none ↦ t
  | some e ↦ record t { current_envelope = none; pool = requeue_rejected e t.pool }
]

-- A breach of the protocol.
unfoldable pub violate : Task → Task
violate t = give_back (record t { state = ListenerState.unknown })

-- The action gave `None`: the loop ends.
unfoldable pub finish : Task → Task
finish t = record (give_back t) { running = false }

unfoldable pub on_acknowledged_line : Text → Task → Task
unfolding text_eq trim
on_acknowledged_line line t = record t {
  state =
      if text_eq (trim line) (codes "READY") then ListenerState.ready else ListenerState.unknown;
}

-- The body of the result has been read.
unfoldable pub on_result : Text → Task → Task
on_result body t =
    record (elim (evaluate_result body) [
      | ProcessResult.ok ↦ record t { current_envelope = none }
      | _ ↦ give_back t
    ]) { state = ListenerState.acknowledged }

-- The length of a `RESULT` line.
unfoldable pub result_len : Text → Option ℕ
unfolding trim_end_matches strip_prefix parse_unsigned trim
result_len line =
    elim (strip_prefix (codes "RESULT ")
      (trim_end_matches (λ c. (c == b'\r') || (c == b'\n')) line)) [
        | none ↦ none
        | some len_str ↦ parse_unsigned u64_mod (trim len_str)
      ]

unfoldable pub on_busy_line : Text → (ℕ → Option Text) → Task → Task
on_busy_line line read_exact t = elim (result_len line) [
  | none ↦ violate t
  | some expected_len ↦
      if ltb max_result_bytes expected_len
      then violate t
      else elim (read_exact expected_len) [ none ↦ violate t | some body ↦ on_result body t ]
]

unfoldable pub on_dispatch : Bool → Task → Task
unfolding pop_next_event requeue_rejected
on_dispatch written t =
    let (next, p) = pop_next_event t.pool in
    elim next [
      | none ↦ t
      | some e ↦
          if written
          then record t {
            pool = p;
            current_envelope = some e;
            sent = t.sent ++ e ∷ [];
            state = ListenerState.busy;
          }
          else finish (record t { pool = requeue_rejected e p })
    ]

unfoldable pub act : TaskEvent → Task → Task
act TaskEvent.cancelled t = record t { current_envelope = none; running = false }  -- a dropped local
act (TaskEvent.read_line line read_exact) t = elim t.state [
  | ListenerState.acknowledged ↦ on_acknowledged_line line t
  | ListenerState.ready ↦ record t { state = ListenerState.unknown }
  | ListenerState.busy ↦ on_busy_line line read_exact t
  | ListenerState.unknown ↦ t
]
act TaskEvent.closed t = elim t.state [ ListenerState.unknown ↦ t | _ ↦ finish t ]
act (TaskEvent.dispatch written) t = elim t.state [
  | ListenerState.ready ↦ on_dispatch written t
  | _ ↦ t
]

unfoldable pub task_step : TaskEvent → Task → Task
task_step e t = if t.running then act e t else t

-- The pool's own task may accept an event between two steps.
pub data PoolStep : Type 0 where
  accept : (event_name payload : Text) → PoolStep
  listener : TaskEvent → PoolStep

unfoldable pub pool_step : PoolStep → ℕ × Task → ℕ × Task
pool_step (PoolStep.accept event_name payload) (g, t) =
    let (g', p) = accept_event event_name payload (g, t.pool) in (g', record t { pool = p })
pool_step (PoolStep.listener e) (g, t) = (g, task_step e t)

unfoldable pub run_pool : List PoolStep → ℕ × Task → ℕ × Task
run_pool [] s = s
run_pool (e ∷ es) s = run_pool es (pool_step e s)
