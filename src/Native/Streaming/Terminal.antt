-- ===== src/Native/Streaming/Terminal.antt =====
-- The end of what `_on_stream_call` writes.
use iicp_client_python.Prelude.{
  ◌≢◌, ◌⊎◌, inl, inr, Bool-cases, ℕ, ◌≤◌, ◌≡◌, refl, Bool, true, false, String, Option, none, some,
  List, ◌++◌, ap, sym, ◌∙◌, not, arith, ℤ, length,
}
use iicp_client_python.Prelude.Exec.{
  Result, ok, err, bind-ok, unless, raise, bind-run, guard-true, or_raise-some,
}
use mathlib.Core.Path.{subst}
use mathlib.Core.Option
use iicp_client_python.Prelude.Dict
use iicp_client_python.Prelude.Dict.{Dict}
use iicp_client_python.Native.Values.{Value}
use iicp_client_python.Native.Frames.{response_type, max_frame_payload, encode, make, pack_header}
use iicp_client_python.Native.Payloads.{
  IntDict, Item, Details, lifecycle_entries, lifecycle_payload, default_event, or_default,
}
use iicp_client_python.Serving.Concurrency.{Gate}
use iicp_client_python.Native.Streaming.{
  Drain, drained, cancelled, task_cancelled, is_exception, Fault, Emit, handler_raised, bad_number,
  optional_int, response_after_terminal, invalid_stream_status, Emitter, fresh, Ending, returns,
  raises, Call, is_stream_status, incomplete_event, backend_error_event, status_of, event_of,
  details, send, emit, emit_all, emit_unless_terminal, recover, under_gate, run_handler,
  on_stream_call, granted_by,
}
use iicp_client_python.Native.Streaming.Cancellation.{
  Uncancelled, uncaught, caught_other, under_gate-cancelled, under_gate-Uncancelled,
}

encode-response :
    (b : List ℕ)
    → length b ≤ max_frame_payload
    → (bytes : List ℕ) × (encode (make response_type b 0) ≡ ok bytes)
unfolding encode make
encode-response b h = (pack_header 1 response_type 0 (length b) ++ b, ground arith)

module _ (encode_cbor : IntDict Item → Option (List ℕ)) (repr : Value → String)
    (parse_int : Value → Option ℤ) (drain : ℕ → Drain) (call : Call) where
  -- An error reply can be encoded, whatever its number, and fits into a frame.
  abbrev pub Encodable : Dict Value → Type 0
  Encodable event =
      (n : ℕ)
      → (b : List ℕ) × (encode_cbor (
            lifecycle_entries call.session_id call.call_id call.task_id n "error"
              (details encode_cbor repr parse_int event none) "failed")
          ≡ some b)
        × (length b ≤ max_frame_payload)

  -- the emission returned, and was final
  abbrev Final : Result Fault (Unit {0}) × Emitter → Type 0
  Final (r, s) = (r ≡ ok tt) × (s.terminal_sent ≡ true)

  unless-Final :
      (b : Bool) (m : Emit (Unit {0})) (s : Emitter)
      → (b ≡ true → s.terminal_sent ≡ true)
      → (b ≡ false → Final (m s))
      → Final (unless b m s)
  unless-Final true m s h k = (refl, h refl)
  unless-Final false m s h k = k refl

  error_payload :
      (n : ℕ) (d : Details)
      → d.event ≡ none
      → lifecycle_payload call.session_id call.call_id call.task_id n "error" d
        ≡ some (lifecycle_entries call.session_id call.call_id call.task_id n "error" d "failed")
  unfolding lifecycle_payload default_event
  error_payload n d unnamed =
      ap
        (λ e.
          Option.map (lifecycle_entries call.session_id call.call_id call.task_id n "error" d)
            (or_default e (some "failed")))
        unnamed

  send-Final :
      (event : Dict Value) (s : Emitter)
      → ((n : ℕ) → drain n ≡ drained)
      → event_of encode_cbor repr parse_int event ≡ none
      → Encodable event
      → Final (
          send encode_cbor repr parse_int drain call "error"
            (details encode_cbor repr parse_int event none)
            s)
  unfolding send
  send-Final event s drains unnamed encodable =
      let d : Details = details encode_cbor repr parse_int event none in
      let (b, e, small) = encodable s.sequence in
      let (bytes, framed) = encode-response b small in
      rw
        (
          error_payload s.sequence d (unfold details in unnamed),
          e,
          framed,
          drains (length s.written),
        )
        (refl, refl)

  emit-Final :
      (event : Dict Value) (s : Emitter)
      → ((n : ℕ) → drain n ≡ drained)
      → status_of encode_cbor repr parse_int event ≡ "error"
      → event_of encode_cbor repr parse_int event ≡ none
      → Dict.get event "tokens_used" ≡ none
      → Encodable event
      → s.terminal_sent ≡ false
      → Final (emit encode_cbor repr parse_int drain call event s)
  unfolding emit is_stream_status
  emit-Final event s drains status unnamed no_tokens encodable running =
      subst Final
        (sym (
          guard-true (not s.terminal_sent) response_after_terminal _ s (ap not running)
          ∙ guard-true (is_stream_status (status_of encode_cbor repr parse_int event))
              invalid_stream_status _ s (ap is_stream_status status)
          ∙ or_raise-some _ bad_number _ s none
              (ap (optional_int encode_cbor repr parse_int) no_tokens)
          ∙ ap
              (λ t.
                send encode_cbor repr parse_int drain call t
                  (details encode_cbor repr parse_int event none) s)
              status))
        (send-Final event s drains unnamed encodable)

  emit_unless_terminal-Final :
      (event : Dict Value) (s : Emitter)
      → ((n : ℕ) → drain n ≡ drained)
      → status_of encode_cbor repr parse_int event ≡ "error"
      → event_of encode_cbor repr parse_int event ≡ none
      → Dict.get event "tokens_used" ≡ none
      → Encodable event
      → Final (emit_unless_terminal encode_cbor repr parse_int drain call event s)
  unfolding emit_unless_terminal
  emit_unless_terminal-Final event s drains status unnamed no_tokens encodable =
      unless-Final s.terminal_sent (emit encode_cbor repr parse_int drain call event) s (λ e. e)
        (emit-Final event s drains status unnamed no_tokens encodable)

  module _ (drains : (n : ℕ) → drain n ≡ drained) (incomplete : Encodable incomplete_event)
      (backend : Encodable backend_error_event) where
    emit_incomplete :
        (s : Emitter)
        → Final (emit_unless_terminal encode_cbor repr parse_int drain call incomplete_event s)
    unfolding incomplete_event status_of event_of Dict.get
    emit_incomplete s =
        emit_unless_terminal-Final incomplete_event s drains refl refl refl incomplete

    emit_backend_error :
        (s : Emitter)
        → Final (emit_unless_terminal encode_cbor repr parse_int drain call backend_error_event s)
    unfolding backend_error_event status_of event_of Dict.get
    emit_backend_error s =
        emit_unless_terminal-Final backend_error_event s drains refl refl refl backend

    -- a handler that ran without an exception has ended the CALL
    run_handler-terminal :
        (granted : Bool) (events : List (Dict Value)) (ending : Ending) (s : Emitter)
        → (under_gate encode_cbor repr parse_int drain call granted events ending s).0 ≡ ok tt
        → (under_gate encode_cbor repr parse_int drain call granted events ending s).1.terminal_sent
          ≡ true
    unfolding run_handler
    run_handler-terminal false events ending s h = cc
    run_handler-terminal true events raises s h =
        let (_, _, k) =
          bind-ok (emit_all encode_cbor repr parse_int drain call events)
            (λ _. raise handler_raised) s tt h in
        cc
    run_handler-terminal true events cancelled s h =
        let (_, _, k) =
          bind-ok (emit_all encode_cbor repr parse_int drain call events)
            (λ _. raise task_cancelled) s tt h in
        cc
    run_handler-terminal true events returns s h =
        let t : Emitter = (emit_all encode_cbor repr parse_int drain call events s).1 in
        let (_, e, _) =
          bind-ok (emit_all encode_cbor repr parse_int drain call events)
            (λ _. emit_unless_terminal encode_cbor repr parse_int drain call incomplete_event) s tt
            h in
        subst (λ (r : Result Fault (Unit {0}) × Emitter). r.1.terminal_sent ≡ true)
          (sym (
            bind-run (emit_all encode_cbor repr parse_int drain call events)
              (λ _. emit_unless_terminal encode_cbor repr parse_int drain call incomplete_event) s
              tt e))
          (emit_incomplete t).1

    recover-terminal :
        (r : Result Fault (Unit {0})) (s : Emitter) (gate : Option Gate)
        (events : List (Dict Value)) (ending : Ending)
        → (r ≡ ok tt → s.terminal_sent ≡ true)
        → (r ≡ err task_cancelled → ending ≡ cancelled)
        → (r ≢ err task_cancelled
            → Uncancelled encode_cbor repr parse_int drain call
                (granted_by gate)
                events
                ending
                fresh)
        → let (r', t) = recover encode_cbor repr parse_int drain call r s in
          ((r' ≡ ok true)
            × (t.terminal_sent ≡ true)
            × Uncancelled encode_cbor repr parse_int drain call
                (granted_by gate)
                events
                ending
                fresh)
          ⊎ ((ending ≡ cancelled) × (r' ≡ err task_cancelled))
    recover-terminal (ok tt) s gate events ending h k u = inl (refl, h refl, u (λ q. cc))
    recover-terminal (err e) s gate events ending h k u = elim (Bool-cases (is_exception e)) [
      | inl b ↦
          let (a, t) = emit_backend_error s in
          rw b (
            rw a (
              inl (
                refl,
                t,
                u (λ q. caught_other encode_cbor repr parse_int drain call e b (ground arith)),
              )))
      | inr b ↦
          let same : e ≡ task_cancelled = uncaught encode_cbor repr parse_int drain call e b in
          rw b (inr (k (ap err same), ap err same))
    ]

    pub stream_ends :
        (gate : Option Gate) (events : List (Dict Value)) (ending : Ending)
        → let (r, s) =
            on_stream_call encode_cbor repr parse_int drain call gate events ending fresh in
          ((r ≡ ok true)
            × (s.terminal_sent ≡ true)
            × Uncancelled encode_cbor repr parse_int drain call
                (granted_by gate)
                events
                ending
                fresh)
          ⊎ ((ending ≡ cancelled) × (r ≡ err task_cancelled))
    unfolding on_stream_call
    stream_ends gate events ending =
        recover-terminal _ _ gate events ending
          (run_handler-terminal (granted_by gate) events ending fresh)
          (under_gate-cancelled encode_cbor repr parse_int drain call drains (granted_by gate)
            events ending fresh)
          (under_gate-Uncancelled encode_cbor repr parse_int drain call (granted_by gate) events
            ending fresh)
