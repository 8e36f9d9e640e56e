-- ===== src/Native/Responses.antt =====
-- `NativeResponseSequence` of native_response_sequence.py: the RESPONSE frames of one CALL.
pub mod Histories
mod Tests
use iicp_client_python.Prelude.{
  ℕ, suc, ◌+◌, Bool, true, false, not, ◌&&◌, ◌||◌, String, Option, none, some, pos, str_eq,
  if◌then◌else◌,
}
use iicp_client_python.Prelude.Exec.{
  Result, ok, err, Exec, guard, modify, or_raise, ◌>>=◌, ◌>>◌, pure, gets,
}
use iicp_client_python.Prelude.Dict
use iicp_client_python.Prelude.Dict.{Dict}
use iicp_client_python.Native.Values.{Value, null, flag, int, text, object, field, value_eq}

-- The codes of `NativeResponseSequenceError`.
pub data Code : Type 0 where
  response_after_terminal missing_lifecycle session_id_drift call_id_drift : Code
  task_id_drift sequence_drift finality_disagreement status_event_disagreement : Code
  terminal_flag_mismatch missing_terminal_response : Code

-- A frame: its fields, and the mapping under `lifecycle` if there is one.
pub record Frame : Type 0 where
  pub fields : Dict Value
  pub lifecycle : Option (Dict Value)

pub record Sequence : Type 0 where
  pub session_id : String
  pub call_id : String
  pub task_id : String
  pub next_sequence : ℕ
  pub terminal_seen : Bool

unfoldable pub start : String → String → String → Sequence
start session_id call_id task_id = record {
  session_id = session_id;
  call_id = call_id;
  task_id = task_id;
  next_sequence = 0;
  terminal_seen = false;
}

-- `event in expected_events`, for a value and the events of a status
abbrev pub is_text : Value → String → Bool
is_text v s = value_eq v (text s)

-- the events that go with a status; no events for an unknown status
unfoldable pub expected : String → Value → Bool
expected status event =
    if str_eq status "partial"
    then is_text event "partial"
    else if str_eq status "success"
    then is_text event "completed"
    else if str_eq status "error"
    then is_text event "failed" || is_text event "cancelled"
    else if str_eq status "timeout"
    then is_text event "timed_out" || is_text event "expired"
    else false

-- `isinstance(status, str)` and the test of the event
unfoldable pub status_matches : Value → Value → Bool
unfolding expected
status_matches (text status) event = expected status event
status_matches _ event = false

-- `is_final is flag`
abbrev pub is_flag : Bool → Value → Bool
is_flag true (flag true) = true
is_flag false (flag false) = true
is_flag _ _ = false

unfoldable pub terminal_flag_fits : Value → Value → Bool
terminal_flag_fits status is_final =
    if is_text status "partial" then is_flag false is_final else is_flag true is_final

abbrev pub Method : Type 0 → Type 0
Method A = Exec Sequence Code A

-- `accept` from the look at the mapping on
unfoldable pub accept_lifecycle : Dict Value → Dict Value → Method (Unit {0})
accept_lifecycle fields lifecycle = do
  s ← gets (λ s. s)
  guard (value_eq (field fields "session_id") (text s.session_id)) session_id_drift
  guard (value_eq (field fields "call_id") (text s.call_id)) call_id_drift
  guard (value_eq (field lifecycle "task_id") (text s.task_id)) task_id_drift
  guard (value_eq (field lifecycle "sequence") (int (pos s.next_sequence))) sequence_drift
  guard (value_eq (field fields "is_final") (field lifecycle "is_final")) finality_disagreement
  guard (status_matches (field fields "status") (field lifecycle "event")) status_event_disagreement
  guard (terminal_flag_fits (field fields "status") (field fields "is_final"))
      terminal_flag_mismatch
  modify (λ t. record t {
    next_sequence = t.next_sequence + 1;
    terminal_seen = is_flag true (field fields "is_final");
  })

unfoldable pub accept : Frame → Method (Unit {0})
accept frame = do
  s ← gets (λ s. s)
  guard (not s.terminal_seen) response_after_terminal
  lifecycle ← or_raise frame.lifecycle missing_lifecycle
  accept_lifecycle frame.fields lifecycle

unfoldable pub finish : Method (Unit {0})
finish s = guard s.terminal_seen missing_terminal_response s
