-- ===== src/Native/Streaming/Cancellation.antt =====
-- When `_on_stream_call` ends with the cancellation of its task.
use iicp_client_python.Prelude.{
  ◌≢◌, ◌⊎◌, inl, inr, Option-cases, ℕ, ◌≡◌, refl, Bool, true, false, String, Option, List, [], ◌∷◌,
  ap, not, arith, ℤ, length,
}
use iicp_client_python.Prelude.Exec.{
  Result, err, raise, bind-run, guard, or_raise, Result-cases, bind-never, guard-never,
  unless-never, or_raise-never,
}
use iicp_client_python.Prelude.Dict
use iicp_client_python.Prelude.Dict.{Dict}
use iicp_client_python.Native.Values.{Value}
use iicp_client_python.Native.Frames.{response_type, encode, make}
use iicp_client_python.Native.Payloads.{IntDict, Item, Details, lifecycle_payload}
use iicp_client_python.Native.Streaming.{
  Drain, drained, cancelled, task_cancelled, is_exception, Fault, handler_raised, bad_number,
  optional_int, response_after_terminal, invalid_stream_status, Emitter, Ending, returns, raises,
  Call, is_stream_status, incomplete_event, status_of, details, send, emit, emit_all,
  emit_unless_terminal, under_gate, run_handler,
}

module _ (encode_cbor : IntDict Item → Option (List ℕ)) (repr : Value → String)
    (parse_int : Value → Option ℤ) (drain : ℕ → Drain) (call : Call) where
  pub uncaught : (e : Fault) → is_exception e ≡ false → e ≡ task_cancelled
  uncaught e h = ground arith

  pub caught_other : (e : Fault) → is_exception e ≡ true → e ≢ task_cancelled
  caught_other e h = λ q. ground arith

  -- the handler is not cancelled, is refused its slot, or is ended by an exception of an event
  abbrev pub Uncancelled : Bool → List (Dict Value) → Ending → Emitter → Type 0
  Uncancelled granted events ending s =
      (ending ≢ cancelled)
      ⊎ (granted ≡ false)
      ⊎ ((e : Fault) × ((emit_all encode_cbor repr parse_int drain call events s).0 ≡ err e))

  pub under_gate-Uncancelled :
      (granted : Bool) (events : List (Dict Value)) (ending : Ending) (s : Emitter)
      → (under_gate encode_cbor repr parse_int drain call granted events ending s).0
        ≢ err task_cancelled
      → Uncancelled granted events ending s
  unfolding run_handler
  under_gate-Uncancelled false events ending s h = inr (inl refl)
  under_gate-Uncancelled true events returns s h = inl (λ q. cc)
  under_gate-Uncancelled true events raises s h = inl (λ q. cc)
  under_gate-Uncancelled true events cancelled s h =
      elim (Result-cases (emit_all encode_cbor repr parse_int drain call events s).0) [
        | inr (e, q) ↦ inr (inr (e, q))
        | inl (u, q) ↦ absurd (
            h (
              ap (λ (x : Result Fault (Unit {0}) × Emitter). x.0)
                (bind-run (emit_all encode_cbor repr parse_int drain call events)
                  (λ _. raise task_cancelled) s u q)))
      ]

  -- Nothing but the handler cancels the task, where every `drain` returns.
  module _ (drains : (n : ℕ) → drain n ≡ drained) where
    send-never :
        (status : String) (d : Details) (s : Emitter)
        → (send encode_cbor repr parse_int drain call status d s).0 ≢ err task_cancelled
    unfolding send
    send-never status d s =
        elim (Option-cases
          (lifecycle_payload call.session_id call.call_id call.task_id s.sequence status d)) [
            | inl p ↦ rw p (λ q. cc)
            | inr (m, p) ↦ rw p (elim (Option-cases (encode_cbor m)) [
              | inl e ↦ rw e (λ q. cc)
              | inr (b, e) ↦ rw e (elim (Result-cases (encode (make response_type b 0))) [
                | inl (bytes, f) ↦ rw (f, drains (length s.written)) (λ q. cc)
                | inr (x, f) ↦ rw f (λ q. cc)
              ])
            ])
          ]

    emit-never :
        (event : Dict Value) (s : Emitter)
        → (emit encode_cbor repr parse_int drain call event s).0 ≢ err task_cancelled
    unfolding emit
    emit-never event s =
        bind-never task_cancelled (guard (not s.terminal_sent) response_after_terminal) _ s
          (guard-never task_cancelled (not s.terminal_sent) response_after_terminal s (λ q. cc))
          (λ _.
            bind-never task_cancelled
              (guard (is_stream_status (status_of encode_cbor repr parse_int event))
                invalid_stream_status)
              _ _
              (guard-never task_cancelled
                (is_stream_status (status_of encode_cbor repr parse_int event))
                invalid_stream_status _ (λ q. cc))
              (λ _.
                bind-never task_cancelled
                  (or_raise (optional_int encode_cbor repr parse_int (Dict.get event "tokens_used"))
                    bad_number)
                  _ _
                  (or_raise-never task_cancelled
                    (optional_int encode_cbor repr parse_int (Dict.get event "tokens_used"))
                    bad_number _ (λ q. cc))
                  (λ tokens.
                    send-never (status_of encode_cbor repr parse_int event)
                      (details encode_cbor repr parse_int event tokens) _)))

    emit_all-never :
        (events : List (Dict Value)) (s : Emitter)
        → (emit_all encode_cbor repr parse_int drain call events s).0 ≢ err task_cancelled
    unfolding emit_all
    emit_all-never [] s = λ q. cc
    emit_all-never (event ∷ events) s =
        bind-never task_cancelled (emit encode_cbor repr parse_int drain call event)
          (λ _. emit_all encode_cbor repr parse_int drain call events) s (emit-never event s)
          (λ _. emit_all-never events (emit encode_cbor repr parse_int drain call event s).1)

    emit_unless_terminal-never :
        (event : Dict Value) (s : Emitter)
        → (emit_unless_terminal encode_cbor repr parse_int drain call event s).0
          ≢ err task_cancelled
    unfolding emit_unless_terminal
    emit_unless_terminal-never event s =
        unless-never task_cancelled s.terminal_sent
          (emit encode_cbor repr parse_int drain call event) s (emit-never event s)

    pub under_gate-cancelled :
        (granted : Bool) (events : List (Dict Value)) (ending : Ending) (s : Emitter)
        → (under_gate encode_cbor repr parse_int drain call granted events ending s).0
          ≡ err task_cancelled
        → ending ≡ cancelled
    unfolding run_handler
    under_gate-cancelled false events ending s h = cc
    under_gate-cancelled true events cancelled s h = refl
    under_gate-cancelled true events raises s h = absurd (
        bind-never task_cancelled (emit_all encode_cbor repr parse_int drain call events)
          (λ _. raise handler_raised) s (emit_all-never events s) (λ _ q. cc) h)
    under_gate-cancelled true events returns s h = absurd (
        bind-never task_cancelled (emit_all encode_cbor repr parse_int drain call events)
          (λ _. emit_unless_terminal encode_cbor repr parse_int drain call incomplete_event) s
          (emit_all-never events s) (λ _. emit_unless_terminal-never incomplete_event _) h)
