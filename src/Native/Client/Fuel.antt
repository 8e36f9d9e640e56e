-- ===== src/Native/Client/Fuel.antt =====
-- The turns of the loop of `stream_call`.
use iicp_client_python.Prelude.{
  ℕ, zero, suc, ◌+◌, ◌≤◌, ◌<◌, ◌≡◌, ◌≢◌, refl, ap, true, String, Option, List, arith, length,
  length-drop, inl, inr, Bool-cases,
}
use iicp_client_python.Prelude.Exec.{Result, ok, err, continue, bind-state, bind-ok, bind-run}
use iicp_client_python.Native.Frames.{header_len}
use iicp_client_python.Native.Payloads.{IntDict, Body, Decoded}
use iicp_client_python.Native.Values.{Value, field}
use iicp_client_python.Native.Responses.{Sequence, start, finish, is_flag}
use iicp_client_python.Native.Client.{
  StreamError, out_of_fuel, readexactly, check_header, translate, next_turn, read_frame, read_body,
  returned, judge, read_error, reading, receive, stream_loop, stream_call, Streamed,
}

readexactly-length :
    (n : ℕ) (data' xs : List ℕ)
    → (readexactly n data').0 ≡ ok xs
    → length (readexactly n data').1 + n ≤ length data'
unfolding readexactly
readexactly-length n data' xs h = ground (arith, length-drop n data')

readexactly-shorter : (n : ℕ) (data' : List ℕ) → length (readexactly n data').1 ≤ length data'
unfolding readexactly
readexactly-shorter n data' = ground (arith, length-drop n data')

read_body-shorter : (head data' : List ℕ) → length (read_body head data').1 ≤ length data'
unfolding read_body
read_body-shorter head data' =
    bind-state (λ t. length t ≤ length data') (returned (check_header head)) _ data' (omega arith)
      (λ header _.
        bind-state (λ t. length t ≤ length data') (readexactly header.1) _ data'
          (readexactly-shorter header.1 data') (λ _ _. readexactly-shorter header.1 data'))

-- A frame takes at least its header.
read_frame-length :
    (data' : List ℕ) (x : ℕ × List ℕ)
    → (read_frame data').0 ≡ ok x
    → length (read_frame data').1 + header_len ≤ length data'
unfolding read_frame
read_frame-length data' x h =
    let (head, first, _) = bind-ok (readexactly header_len) read_body data' x h in
    rw (bind-run (readexactly header_len) read_body data' head first) (
      omega (
        arith,
        readexactly-length header_len data' head first,
        read_body-shorter head (readexactly header_len data').1,
      ))

translate-ok :
    {E A : Type 0} (f : E → StreamError) (r : Result E A) (a : A) → translate f r ≡ ok a → r ≡ ok a
translate-ok f (ok b) a h = ground arith
translate-ok f (err e) a h = cc

module _ (decode_cbor : List ℕ → Option Body) (class_of : IntDict Value → ℕ) where
  judge-state :
      (s : Sequence) (read : ℕ × List ℕ) (data' : List ℕ)
      → (judge decode_cbor class_of s read data').1 ≡ data'
  unfolding judge
  judge-state s read data' = ground arith

  judge-fuel :
      (s : Sequence) (read : ℕ × List ℕ) (data' : List ℕ)
      → (judge decode_cbor class_of s read data').0 ≢ err out_of_fuel
  unfolding judge
  judge-fuel s read data' h = ground arith

  reading-fuel : (s : Sequence) (data' : List ℕ) → (reading s data').0 ≢ err out_of_fuel
  unfolding read_error finish
  reading-fuel s data' h = ground arith

  receive-length :
      (s : Sequence) (data' : List ℕ) (x : Decoded × Sequence)
      → (receive decode_cbor class_of s data').0 ≡ ok x
      → length (receive decode_cbor class_of s data').1 < length data'
  unfolding receive
  receive-length s data' x h =
      let (read, first, _) = bind-ok (reading s) (judge decode_cbor class_of s) data' x h in
      rw (bind-run (reading s) (judge decode_cbor class_of s) data' read first) (
        omega (
          arith,
          read_frame-length data' read
              (translate-ok (read_error s) (read_frame data').0 read first),
          ap length (judge-state s read (read_frame data').1),
        ))

  continue-fuel :
      (s : Sequence) (r : Result StreamError (ℕ × List ℕ)) (rest : List ℕ)
      → r ≢ err out_of_fuel
      → (continue r (judge decode_cbor class_of s) rest).0 ≢ err out_of_fuel
  continue-fuel s (ok read) rest h = judge-fuel s read rest
  continue-fuel s (err e) rest h = λ l. h (ground arith)

  next_turn-fuel :
      (again : Sequence → List ℕ → Streamed) (r : Result StreamError (Decoded × Sequence))
      (rest : List ℕ)
      → r ≢ err out_of_fuel
      → ((d : Decoded) (t : Sequence) → r ≡ ok (d, t) → (again t rest).outcome ≢ err out_of_fuel)
      → (next_turn decode_cbor class_of again r rest).outcome ≢ err out_of_fuel
  unfolding finish
  next_turn-fuel again (err e) rest h k = λ l. h (ground arith)
  next_turn-fuel again (ok (d, t)) rest h k =
      elim (Bool-cases (is_flag true (field d.frame.fields "is_final"))) [
        | inl e ↦ rw e (λ l. ground arith)
        | inr e ↦ rw e (k d t refl)
      ]

  -- Every turn leaves less to read, or is the last one.
  stream_loop-fuel :
      (fuel : ℕ) (s : Sequence) (data' : List ℕ)
      → length data' < fuel
      → (stream_loop decode_cbor class_of fuel s data').outcome ≢ err out_of_fuel
  unfolding stream_loop receive
  stream_loop-fuel zero s data' h = absurd (omega arith)
  stream_loop-fuel (suc fuel) s data' h =
      let (r, rest) = receive decode_cbor class_of s data' in
      next_turn-fuel (stream_loop decode_cbor class_of fuel) r rest
        (continue-fuel s (reading s data').0 (reading s data').1 (reading-fuel s data'))
        (λ d t e. stream_loop-fuel fuel t rest (omega (arith, receive-length s data' (d, t) e)))

  -- `stream_call` comes to an end for every answer: the turns that its model is given, one more than
  -- there are bytes to read, are enough, whatever the bytes are and whatever CBOR makes of them.
  pub stream_call-terminates :
      (session_id call_id task_id : String) (data' : List ℕ)
      → (stream_call decode_cbor class_of session_id call_id task_id data').outcome
        ≢ err out_of_fuel
  unfolding stream_call
  stream_call-terminates session_id call_id task_id data' =
      stream_loop-fuel (suc (length data')) (start session_id call_id task_id) data' (omega arith)
