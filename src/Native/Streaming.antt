-- ===== src/Native/Streaming.antt =====
-- `IicpTcpServer._on_stream_call` of iicp_tcp.py: what a streaming handler yields, and the RESPONSE
-- frames that are written for it. `cbor2.dumps`, `str` of a value that is no text and `int` of one
-- that is no number are parameters. A handler is what it yields and how it ends; the writer takes
-- every frame, and what each `drain` comes to is a parameter.
pub mod Replies
pub mod Emission
pub mod Terminal
pub mod Cancellation
use iicp_client_python.Prelude.{
  ℕ, suc, Bool, true, false, not, ◌&&◌, ◌||◌, String, Option, none, some, List, [], ◌∷◌, ◌++◌, ℤ,
  pos, str_eq, length, if◌then◌else◌, ◌==◌,
}
use iicp_client_python.Prelude.Exec.{
  Result, ok, err, Exec, guard, modify, or_raise, ◌>>=◌, ◌>>◌, pure, gets, raise, unless,
}
use iicp_client_python.Prelude.Dict
use iicp_client_python.Prelude.Dict.{Dict}
use iicp_client_python.Native.Values.{Value, null, flag, int, text, object, of_flag}
use iicp_client_python.Native.Frames.{FrameError, response_type, make, encode}
use iicp_client_python.Native.Payloads.{IntDict, Item, Details, lifecycle_payload}
use iicp_client_python.Serving.Concurrency.{Gate, Entry, entered, capacity_exceeded, waits, acquire}

-- The exceptions inside `_on_stream_call`.
pub data Fault : Type 0 where
  response_after_terminal invalid_stream_status bad_number unsupported_status : Fault
  unencodable handler_raised capacity_refused drain_raised : Fault
  -- `asyncio.CancelledError`, the one that is no `Exception`
  task_cancelled : Fault
  frame_refused : FrameError → Fault

-- `sequence` and `terminal_sent`, and what was written so far
pub record Emitter : Type 0 where
  pub sequence : ℕ
  pub terminal_sent : Bool
  pub written : List (List ℕ)

abbrev pub fresh : Emitter
fresh = record { sequence = 0; terminal_sent = false; written = [] }

-- What `writer.drain()` comes to.
pub data Drain : Type 0 where
  drained drain_fails drain_cancelled : Drain

-- How the handler ends; a CALL that is cancelled while it waits for its slot has a handler that is
-- cancelled and yields nothing.
pub data Ending : Type 0 where
  returns raises cancelled : Ending

-- what `except Exception` catches
abbrev pub is_exception : Fault → Bool
is_exception task_cancelled = false
is_exception _ = true

-- The identifiers of the CALL.
pub record Call : Type 0 where
  pub session_id : String
  pub call_id : String
  pub task_id : String

abbrev pub Emit : Type 0 → Type 0
Emit A = Exec Emitter Fault A

unfoldable pub is_stream_status : String → Bool
is_stream_status s =
    str_eq s "partial" || str_eq s "success" || str_eq s "error" || str_eq s "timeout"

abbrev pub frame_or_raise : Result FrameError (List ℕ) → Emit (List ℕ)
frame_or_raise (ok b) s = (ok b, s)
frame_or_raise (err e) s = (err (frame_refused e), s)

abbrev pub is_granted : Entry → Bool
is_granted (capacity_exceeded n) = false
is_granted (entered gate) = true
is_granted waits = true

-- a CALL that waits for the semaphore gets its slot later
unfoldable pub granted_by : Option Gate → Bool
granted_by none = true
granted_by (some gate) = is_granted (acquire gate)

-- the event of `run_handler` for a handler that stops early, and the one of the `except` clause
unfoldable pub incomplete_event : Dict Value
incomplete_event =
    ("status", text "error")
    ∷ ("error_code", text "stream_incomplete")
    ∷ ("error_message", text "stream ended without a terminal response")
    ∷ []

unfoldable pub backend_error_event : Dict Value
backend_error_event =
    ("status", text "error")
    ∷ ("error_code", text "backend_error")
    ∷ ("error_message", text "streaming handler raised exception")
    ∷ []

module _ (encode_cbor : IntDict Item → Option (List ℕ)) (repr : Value → String)
    (parse_int : Value → Option ℤ) where
  -- `str(v)`
  abbrev pub to_str : Value → String
  to_str (text s) = s
  to_str v = repr v

  -- `int(v)`
  abbrev pub to_int : Value → Option ℤ
  to_int null = none
  to_int (flag b) = some (of_flag b)
  to_int (int n) = some n
  to_int v = parse_int v

  -- `str(event[k]) if k in event else None`
  abbrev pub optional_str : Option Value → Option String
  optional_str none = none
  optional_str (some v) = some (to_str v)

  -- `int(event[k]) if k in event else None`: outside is the exception
  abbrev pub optional_int : Option Value → Option (Option ℤ)
  optional_int none = some none
  optional_int (some v) = elim (to_int v) [ none ↦ none | some n ↦ some (some n) ]

  -- `event.get("result")`, where `None` is no result
  abbrev pub not_none : Option Value → Option Value
  not_none (some null) = none
  not_none v = v

  abbrev pub str_or_empty : Option Value → String
  str_or_empty none = ""
  str_or_empty (some v) = to_str v

  unfoldable pub status_of : Dict Value → String
  status_of event = str_or_empty (Dict.get event "status")

  unfoldable pub event_of : Dict Value → Option String
  event_of event = optional_str (Dict.get event "event")

  unfoldable pub details : Dict Value → Option ℤ → Details
  unfolding event_of
  details event tokens_used = record {
    result = not_none (Dict.get event "result");
    error_code = optional_str (Dict.get event "error_code");
    error_message = optional_str (Dict.get event "error_message");
    tokens_used = tokens_used;
    event = event_of event;
  }

  module _ (drain : ℕ → Drain) (call : Call) where
    -- `sequence` and `terminal_sent` are set when `drain` has returned
    abbrev pub after_drain : Drain → String → Emit (Unit {0})
    after_drain drained status t = (
      ok tt,
      record t { sequence = suc t.sequence; terminal_sent = not (str_eq status "partial") },
    )
    after_drain drain_fails status t = (err drain_raised, t)
    after_drain drain_cancelled status t = (err task_cancelled, t)

    -- encodes one RESPONSE and writes it
    unfoldable pub send : String → Details → Emit (Unit {0})
    send status d = do
      s ← gets (λ s. s)
      payload ←
          or_raise (lifecycle_payload call.session_id call.call_id call.task_id s.sequence status d)
            unsupported_status
      encoded ← or_raise (encode_cbor payload) unencodable
      bytes ← frame_or_raise (encode (make response_type encoded 0))
      modify (λ t. record t { written = t.written ++ bytes ∷ [] })
      after_drain (drain (length s.written)) status

    unfoldable pub emit : Dict Value → Emit (Unit {0})
    emit event = do
      s ← gets (λ s. s)
      guard (not s.terminal_sent) response_after_terminal
      guard (is_stream_status (status_of event)) invalid_stream_status
      tokens_used ← or_raise (optional_int (Dict.get event "tokens_used")) bad_number
      send (status_of event) (details event tokens_used)

    -- the loop over the handler's events
    unfoldable pub emit_all : List (Dict Value) → Emit (Unit {0})
    emit_all [] = pure tt
    emit_all (event ∷ events) = emit event >> emit_all events

    -- `if not terminal_sent: await emit(event)`
    unfoldable pub emit_unless_terminal : Dict Value → Emit (Unit {0})
    emit_unless_terminal event s = unless s.terminal_sent (emit event) s

    abbrev pub end_of : Ending → Emit (Unit {0})
    end_of returns = emit_unless_terminal incomplete_event
    end_of raises = raise handler_raised
    end_of cancelled = raise task_cancelled

    unfoldable pub run_handler : List (Dict Value) → Ending → Emit (Unit {0})
    run_handler events ending = emit_all events >> end_of ending

    abbrev pub caught : Bool → Fault → Emit Bool
    caught true e = emit_unless_terminal backend_error_event >> pure true
    caught false e = raise e

    -- the `except` clause, and the final `return True`
    abbrev pub recover : Result Fault (Unit {0}) → Emit Bool
    recover (ok _) = pure true
    recover (err e) = caught (is_exception e) e

    abbrev pub under_gate : Bool → List (Dict Value) → Ending → Emit (Unit {0})
    under_gate true events ending = run_handler events ending
    under_gate false events ending = raise capacity_refused

    unfoldable pub on_stream_call : Option Gate → List (Dict Value) → Ending → Emit Bool
    on_stream_call gate events ending s =
        let (r, t) = under_gate (granted_by gate) events ending s in recover r t
