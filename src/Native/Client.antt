-- ===== src/Native/Client.antt =====
-- The reading side of `IicpTcpClient` of iicp_tcp.py: `_read_frame` and the loop of `stream_call`.
-- What the stream reader still holds is a list of bytes that ends where the connection ends or the
-- time runs out; `cbor2.loads` is a parameter.
pub mod Reading
pub mod Streams
pub mod Fuel
mod Tests
use iicp_client_python.Prelude.{
  ℕ, zero, suc, ◌+◌, Bool, true, false, not, ◌&&◌, String, Option, none, some, List, [], ◌∷◌, ◌==◌,
  ltb, length, take, drop, if◌then◌else◌,
}
use iicp_client_python.Prelude.Exec.{
  Result, ok, err, Exec, guard, modify, or_raise, ◌>>=◌, ◌>>◌, pure, raise,
}
use iicp_client_python.Native.Values.{Value, field}
use iicp_client_python.Native.Frames.{
  response_type, framing_version, header_len, max_frame_payload, is_magic, of_be32,
  stable_task_message_type_error,
}
use iicp_client_python.Native.Payloads.{
  IntDict, Item, Body, mapping, empty, Decoded, DecodeError, decode_lifecycle_response,
}
use iicp_client_python.Native.Responses.{Code, Sequence, start, accept, finish, is_flag}

-- What `_read_frame` raises; `incomplete` stands for `IncompleteReadError` and `TimeoutError`.
pub data ReadError : Type 0 where
  incomplete bad_magic unsupported_framing payload_over_limit : ReadError
  rejected_type : String → ReadError

abbrev pub Reader : Type 0 → Type 0
Reader A = Exec (List ℕ) ReadError A

-- `reader.readexactly(n)`
unfoldable pub readexactly : ℕ → Reader (List ℕ)
readexactly n data' =
    if ltb (length data') n then (err incomplete, []) else (ok (take n data'), drop n data')

-- `b.unpack("!4sBBBBI")` and the checks of the header
unfoldable pub check_header : List ℕ → Result ReadError (ℕ × ℕ)
unfolding of_be32 stable_task_message_type_error
check_header (m₀ ∷ m₁ ∷ m₂ ∷ m₃ ∷ version ∷ mt ∷ flags ∷ reserved ∷ l₀ ∷ l₁ ∷ l₂ ∷ l₃ ∷ []) =
    let payload_len = of_be32 l₀ l₁ l₂ l₃ in
    if not (is_magic m₀ m₁ m₂ m₃)
    then err bad_magic
    else if not (version == framing_version)
    then err unsupported_framing
    else elim (stable_task_message_type_error mt) [
      | some type_error ↦ err (rejected_type type_error)
      | none ↦
          if ltb max_frame_payload payload_len then err payload_over_limit else ok (mt, payload_len)
    ]
check_header _ = err incomplete

abbrev pub returned : {A : Type 0} → Result ReadError A → Reader A
returned r data' = (r, data')

-- `_read_frame` after the header
unfoldable pub read_body : List ℕ → Reader (ℕ × List ℕ)
unfolding readexactly check_header
read_body head = do
  header ← returned (check_header head)
  payload ← readexactly header.1
  pure (header.0, payload)

unfoldable pub read_frame : Reader (ℕ × List ℕ)
unfolding readexactly read_body
read_frame = readexactly header_len >>= read_body

-- What `stream_call` raises; `reraised` is the time-out after the final frame.
pub data StreamError : Type 0 where
  lifecycle_error : Code → StreamError
  reading_failed : ReadError → StreamError
  unexpected_type : ℕ → StreamError
  decoding_failed reraised out_of_fuel : StreamError
  bad_body : DecodeError → StreamError

abbrev pub Receive : Type 0 → Type 0
Receive A = Exec (List ℕ) StreamError A

-- the `except` clause around `_read_frame`
abbrev pub after_incomplete : Result Code (Unit {0}) → StreamError
after_incomplete (err code) = lifecycle_error code
after_incomplete (ok _) = reraised

unfoldable pub read_error : Sequence → ReadError → StreamError
read_error s incomplete = after_incomplete (finish s).0
read_error s e = reading_failed e

abbrev pub translate : {E A : Type 0} → (E → StreamError) → Result E A → Result StreamError A
translate f (ok a) = ok a
translate f (err e) = err (f e)

abbrev pub result : {A : Type 0} → Result StreamError A → Receive A
result r data' = (r, data')

abbrev pub reading : Sequence → Receive (ℕ × List ℕ)
reading s data' = let (r, rest) = read_frame data' in (translate (read_error s) r, rest)

-- `sequence.accept(frame)`
abbrev pub accept_result :
    Decoded → Result Code (Unit {0}) × Sequence → Result StreamError (Decoded × Sequence)
accept_result d (ok _, t) = ok (d, t)
accept_result d (err code, t) = err (lifecycle_error code)

abbrev pub accepted : Sequence → Decoded → Result StreamError (Decoded × Sequence)
accepted s d = accept_result d (accept d.frame s)

-- what was yielded, how the iteration ended, and what is left to read
pub record Streamed : Type 0 where
  pub yielded : List Decoded
  pub outcome : Result StreamError (Unit {0})
  pub unread : List ℕ

module _ (decode_cbor : List ℕ → Option Body) (class_of : IntDict Value → ℕ) where
  -- `decode_cbor(body_bytes) if body_bytes else {}`
  abbrev pub body_of : List ℕ → Option Body
  body_of [] = some (mapping empty)
  body_of (b ∷ bs) = decode_cbor (b ∷ bs)

  -- what is done with a frame
  unfoldable pub judge : Sequence → ℕ × List ℕ → Receive (Decoded × Sequence)
  judge s read = do
    guard (read.0 == response_type) (unexpected_type read.0)
    raw ← or_raise (body_of read.1) decoding_failed
    decoded ← result (translate bad_body (decode_lifecycle_response class_of raw))
    result (accepted s decoded)

  -- one turn of the loop, up to the `yield`
  unfoldable pub receive : Sequence → Receive (Decoded × Sequence)
  unfolding judge
  receive s = reading s >>= judge s

  abbrev pub stopped : StreamError → List ℕ → Streamed
  stopped e rest = record { yielded = []; outcome = err e; unread = rest }

  abbrev pub yielding : Decoded → Streamed → Streamed
  yielding d r = record r { yielded = d ∷ r.yielded }

  -- the return after the final frame, where `finish` is called once more
  abbrev pub returning : Sequence → List ℕ → Streamed
  returning t rest = record {
    yielded = [];
    outcome = translate lifecycle_error (finish t).0;
    unread = rest;
  }

  -- an accepted frame has a Boolean under `is_final`
  abbrev pub next_turn :
      (Sequence → List ℕ → Streamed) → Result StreamError (Decoded × Sequence) → List ℕ → Streamed
  next_turn again (err e) rest = stopped e rest
  next_turn again (ok (d, t)) rest =
      yielding d (elim (is_flag true (field d.frame.fields "is_final")) [
        | true ↦ returning t rest
        | false ↦ again t rest
      ])

  unfoldable pub stream_loop : ℕ → Sequence → List ℕ → Streamed
  stream_loop zero s data' = stopped out_of_fuel data'
  stream_loop (suc fuel) s data' =
      let (r, rest) = receive s data' in next_turn (stream_loop fuel) r rest

  -- every turn reads a header of 12 bytes at least
  unfoldable pub stream_call : String → String → String → List ℕ → Streamed
  stream_call session_id call_id task_id data' =
      stream_loop (suc (length data')) (start session_id call_id task_id) data'
