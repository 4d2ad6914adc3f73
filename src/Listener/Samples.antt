-- ===== src/Listener/Samples.antt =====
-- A pool of two events, and a listener process that answers.
use rsupervisord.Prelude.{
  ℕ, ◌≤◌, ◌≡◌, ◌↔◌, text_eq, trim, refl, arith, true, none, some, List, [], ◌∷◌, Text, codes,
  length,
}
use rsupervisord.Listener.Wire.{ListenerState, ProcessResult, evaluate_result}
use rsupervisord.Listener.Events.{
  event_matches_subscription, matches_one, event_matches_subscription_iff, SomeOf, Covers,
}
use rsupervisord.Listener.Pool.{Pool, new, accept_event, push_bounded}
use rsupervisord.Listener.Pool.Newest.{accept_all, accept_all-Newest}
use rsupervisord.Listener.Handshake.{
  Task, TaskEvent, PoolStep, pool_step, act, on_acknowledged_line, on_dispatch, on_busy_line,
  on_result, run_pool, spawn_task, task_step, result_len,
}
use rsupervisord.Listener.Handshake.Delivery.{InOrder, new-InOrder}
use rsupervisord.Listener.Handshake.Protocol.{length-sent-le, length-buffer-le}

abbrev ticks : Pool
ticks = new (codes "l") (codes "s") (codes "TICK" ∷ []) 2

abbrev offered : List (Text × Text)
offered = (codes "TICK_5", codes "when:1") ∷ (codes "PROCESS_LOG", []) ∷ (codes "TICK_60", []) ∷ []

abbrev says : Text → PoolStep
says t = PoolStep.listener (TaskEvent.read_line t (λ n. some (codes "OK")))

abbrev session : List PoolStep
session =
    PoolStep.accept (codes "TICK_5") (codes "when:1")
    ∷ says (codes "READY\n")
    ∷ PoolStep.listener (TaskEvent.dispatch true)
    ∷ []

abbrev answer : TaskEvent
answer = TaskEvent.read_line (codes "RESULT 2\n") (λ n. some (codes "OK"))

abbrev served : ℕ × Task
served = run_pool session (0, spawn_task ticks)

event_matches_subscription_iff_example :
    (event_matches_subscription (codes "TICK_5") (codes "tick" ∷ []) ≡ true)
    ↔ SomeOf (λ sub. Covers sub (codes "TICK_5")) (codes "tick" ∷ [])
unfolding event_matches_subscription
event_matches_subscription_iff_example =
    event_matches_subscription_iff (codes "TICK_5") (codes "tick" ∷ [])

accept_all-Newest_example :
    (accept_all offered (7, ticks)).1.buffer
    ≡ record {
      global_serial = 7;
      pool_serial = 0;
      pool = codes "l";
      event_name = codes "TICK_5";
      payload = codes "when:1";
    }
      ∷ record {
        global_serial = 8;
        pool_serial = 1;
        pool = codes "l";
        event_name = codes "TICK_60";
        payload = [];
      }
      ∷ []
unfolding event_matches_subscription matches_one
accept_all-Newest_example =
    accept_all-Newest (codes "l") (codes "s") (codes "TICK" ∷ []) 2 7 offered (ground arith)

new-InOrder_example : InOrder served.1
new-InOrder_example =
    new-InOrder (codes "l") (codes "s") (codes "TICK" ∷ []) 2 0 session (ground arith)

length-sent-le_example : length served.1.sent ≤ 1
unfolding text_eq trim
length-sent-le_example = length-sent-le ticks 0 session

length-buffer-le_example : length served.1.pool.buffer ≤ 2
length-buffer-le_example = length-buffer-le (codes "l") (codes "s") (codes "TICK" ∷ []) 2 0 session

abbrev lost : Task
lost = record {
  pool = ticks;
  state = ListenerState.unknown;
  current_envelope = none;
  sent = [];
  running = true;
}

handled :
    (result_len (codes "RESULT 2\n") ≡ some 2)
    × (evaluate_result (codes "OK\n") ≡ ProcessResult.ok)
    × (length served.1.sent ≡ 1)
    × ((task_step answer served.1).current_envelope ≡ none)
unfolding result_len evaluate_result run_pool task_step new spawn_task event_matches_subscription
    pool_step act on_acknowledged_line on_dispatch accept_event matches_one push_bounded
    on_busy_line on_result
handled = (refl, refl, refl, refl)
