-- ===== src/Listener/Wire.antt =====
-- src/eventlistener/protocol.rs: envelopes, the wire format and the handler of a result.
use rsupervisord.Prelude.{
  ℕ, ◌+◌, ◌∷◌, ◌++◌, Text, codes, text_eq, trim, decimal, length, u64, if◌then◌else◌,
}

pub record EventEnvelope : Type 0 where
  pub global_serial : ℕ  -- u64
  pub pool_serial : ℕ  -- u64
  pub pool : Text
  pub event_name : Text
  pub payload : Text

-- The counter after `fetch_add(1)`, which wraps; the serial is the value before.
unfoldable pub next_serial : ℕ → ℕ
unfolding u64
next_serial n = u64 (n + 1)

unfoldable pub format_wire : Text → EventEnvelope → Text
unfolding decimal
format_wire server_identifier e =
    codes "ver:3.0 server:"
    ++ server_identifier
    ++ codes " serial:"
    ++ decimal e.global_serial
    ++ codes " pool:"
    ++ e.pool
    ++ codes " poolserial:"
    ++ decimal e.pool_serial
    ++ codes " eventname:"
    ++ e.event_name
    ++ codes " len:"
    ++ decimal (length e.payload)
    ++ b'\n' ∷ e.payload

pub data ListenerState : Type 0 where
  acknowledged ready busy unknown : ListenerState

pub data ProcessResult : Type 0 where
  ok rejected protocol_error : ProcessResult

unfoldable pub evaluate_result : Text → ProcessResult
unfolding trim text_eq
evaluate_result body =
    if text_eq (trim body) (codes "OK") then ProcessResult.ok else ProcessResult.rejected
