-- ===== src/Native/Streaming/Emission.antt =====
-- What `_on_stream_call` writes, whatever the handler yields.
use iicp_client_python.Prelude.{
  ℕ, suc, ◌+◌, ◌≡◌, refl, sym, inl, inr, Bool, true, false, not, String, Option, some, List, [],
  ◌∷◌, ◌++◌, arith, ℤ, str_eq, All, length, length-append, Option-cases, Bool-cases,
}
use mathlib.Core.Path.{subst}
use iicp_client_python.Prelude.Exec.{
  Result-cases, Result, ok, err, bind-state, guard-state, or_raise-state, unless-state, pure, raise,
}
use iicp_client_python.Prelude.Dict
use iicp_client_python.Prelude.Dict.{Dict}
use iicp_client_python.Native.Values.{Value, flag, text}
use iicp_client_python.Native.Frames.{response_type, make, encode}
use iicp_client_python.Native.Payloads.{
  IntDict, Item, atom, submap, Body, mapping, Details, base_payload, lifecycle_map,
  lifecycle_entries,
}
use iicp_client_python.Native.Responses.{expected}
use iicp_client_python.Serving.Concurrency.{Gate}
use iicp_client_python.Native.Streaming.{
  Drain, drained, cancelled, task_cancelled, is_exception, Fault, unencodable, frame_refused,
  Emitter, fresh, Ending, returns, raises, Call, is_stream_status, incomplete_event,
  backend_error_event, status_of, event_of, details, optional_int, emit_unless_terminal,
  handler_raised, recover, under_gate, response_after_terminal, invalid_stream_status, bad_number,
  send, emit, emit_all, run_handler, on_stream_call, granted_by,
}
use iicp_client_python.Native.Streaming.Replies.{
  Faithful, override_fits, lifecycle_map-Plain, Reply, Replies, nothing, decoded-Fits, payload_sent,
  entry, Replies-snoc,
}

module _ (encode_cbor : IntDict Item → Option (List ℕ)) (decode_cbor : List ℕ → Option Body)
    (class_of : IntDict Value → ℕ) (faithful : Faithful encode_cbor decode_cbor)
    (repr : Value → String) (parse_int : Value → Option ℤ) (drain : ℕ → Drain) (call : Call) where
  -- what `send` does: nothing, or one more reply
  data Sent (s : Emitter) (final : Bool) : Result Fault (Unit {0}) × Emitter → Type 0 where
    failed : (e : Fault) → Sent s final (err e, s)
    replied :
        (b : List ℕ)
        → Reply decode_cbor class_of call s.sequence final b
        → Sent s final (
          ok tt,
          record {
            sequence = suc s.sequence;
            terminal_sent = final;
            written = s.written ++ b ∷ [];
          },
        )

  -- the reply that a payload which was sent makes
  sent-Reply :
      (status : String) (d : Details) (n : ℕ) (event : String) (encoded b : List ℕ)
      → expected status (text event) ≡ true
      → encode_cbor (lifecycle_entries call.session_id call.call_id call.task_id n status d event)
        ≡ some encoded
      → encode (make response_type encoded 0) ≡ ok b
      → Reply decode_cbor class_of call n (not (str_eq status "partial")) b
  unfolding base_payload
  sent-Reply status d n event encoded b ev he hb =
      let final : Bool = not (str_eq status "partial") in
      let m : IntDict Item =
        lifecycle_entries call.session_id call.call_id call.task_id n status d event in
      let (m', hd, same) = faithful m encoded he in
      let at = entry decode_cbor class_of call status event d n in
      let (d', hr, fits) =
        decoded-Fits decode_cbor class_of call m' n status event final refl ev
          (same 2 (atom (text call.session_id)) (at 2 (refl, refl, refl)) refl)
          (same 3 (atom (text call.call_id)) (at 3 (refl, refl, refl)) refl)
          (same 4 (atom (text status)) (at 4 (refl, refl, refl)) refl)
          (same 12 (atom (flag final)) (at 12 (refl, refl, refl)) refl)
          (same 13 (submap (lifecycle_map call.task_id n event final)) (at 13 (refl, refl, refl))
            (lifecycle_map-Plain call.task_id n event final)) in
      record {
        encoded = encoded;
        wire = hb;
        body = mapping m';
        decodes = hd;
        response = d';
        has_response = hr;
        fits = fits;
      }

  send-Sent :
      (status : String) (d : Details) (s : Emitter)
      → ((n : ℕ) → drain n ≡ drained)
      → is_stream_status status ≡ true
      → override_fits status d.event ≡ true
      → Sent s
          (not (str_eq status "partial"))
          (send encode_cbor repr parse_int drain call status d s)
  unfolding send
  send-Sent status d s drains h k =
      let (event, ev, hp) = payload_sent decode_cbor class_of call status d s.sequence h k in
      let m : IntDict Item =
        lifecycle_entries call.session_id call.call_id call.task_id s.sequence status d event in
      rw hp (elim (Option-cases (encode_cbor m)) [
        | inl e ↦ rw e (failed unencodable)
        | inr (encoded, e) ↦ rw e (elim (Result-cases (encode (make response_type encoded 0))) [
          | inl (b, hb) ↦
              rw (hb, drains (length s.written))
                (replied b (sent-Reply status d s.sequence event encoded b ev e hb))
          | inr (f, hf) ↦ rw hf (failed (frame_refused f))
        ])
      ])

  -- what was written: the replies from 0 on, as many as the counter says
  abbrev pub Written : Emitter → Type 0
  Written s =
      Replies decode_cbor class_of call 0 s.terminal_sent s.written
      × (s.sequence ≡ length s.written)

  Sent-Written :
      (s : Emitter) (final : Bool) (r : Result Fault (Unit {0}) × Emitter)
      → s.terminal_sent ≡ false
      → Written s
      → Sent s final r
      → Written r.1
  Sent-Written s final _ running h (failed e) = h
  Sent-Written s final _ running h (replied b reply) =
      let so_far : Replies decode_cbor class_of call 0 false s.written = rw running at h.0 in
      let same : 0 + length s.written ≡ s.sequence = omega (arith, h.1) in
      (
        Replies-snoc decode_cbor class_of call 0 final s.written b so_far
            (subst (λ n. Reply decode_cbor class_of call n final b) (sym same) reply),
        omega (arith, h.1, length-append s.written (b ∷ [])),
      )

  -- the name that the handler gives goes with the status
  abbrev pub Fitting : Dict Value → Type 0
  Fitting event =
      override_fits (status_of encode_cbor repr parse_int event)
        (event_of encode_cbor repr parse_int event)
      ≡ true

  emit-Written :
      (event : Dict Value) (s : Emitter)
      → ((n : ℕ) → drain n ≡ drained)
      → Fitting event
      → Written s
      → Written (emit encode_cbor repr parse_int drain call event s).1
  unfolding emit details
  emit-Written event s drains fit h =
      let status : String = status_of encode_cbor repr parse_int event in
      guard-state Written (not s.terminal_sent) response_after_terminal _ s h (λ running.
        guard-state Written (is_stream_status status) invalid_stream_status _ s h (λ known.
          or_raise-state Written
            (optional_int encode_cbor repr parse_int (Dict.get event "tokens_used")) bad_number _ s
            h
            (λ tokens _.
              Sent-Written s (not (str_eq status "partial"))
                (send encode_cbor repr parse_int drain call status
                  (details encode_cbor repr parse_int event tokens) s)
                (ground arith) h
                (send-Sent status (details encode_cbor repr parse_int event tokens) s drains known
                  fit))))

  emit_all-Written :
      (events : List (Dict Value)) (s : Emitter)
      → ((n : ℕ) → drain n ≡ drained)
      → All Fitting events
      → Written s
      → Written (emit_all encode_cbor repr parse_int drain call events s).1
  unfolding emit_all
  emit_all-Written [] s drains fit h = h
  emit_all-Written (event ∷ events) s drains fit h =
      bind-state Written (emit encode_cbor repr parse_int drain call event)
        (λ _. emit_all encode_cbor repr parse_int drain call events) s
        (emit-Written event s drains fit.0 h)
        (λ _ _.
          emit_all-Written events (emit encode_cbor repr parse_int drain call event s).1 drains
            fit.1 (emit-Written event s drains fit.0 h))

  emit_unless_terminal-Written :
      (event : Dict Value) (s : Emitter)
      → ((n : ℕ) → drain n ≡ drained)
      → Fitting event
      → Written s
      → Written (emit_unless_terminal encode_cbor repr parse_int drain call event s).1
  unfolding emit_unless_terminal
  emit_unless_terminal-Written event s drains fit h =
      unless-state Written s.terminal_sent (emit encode_cbor repr parse_int drain call event) s
        (λ _. h) (λ _. emit-Written event s drains fit h)

  under_gate-Written :
      (granted : Bool) (events : List (Dict Value)) (ending : Ending) (s : Emitter)
      → ((n : ℕ) → drain n ≡ drained)
      → All Fitting events
      → Written s
      → Written (under_gate encode_cbor repr parse_int drain call granted events ending s).1
  unfolding run_handler incomplete_event event_of Dict.get
  under_gate-Written false events ending s drains fit h = h
  under_gate-Written true events returns s drains fit h =
      bind-state Written (emit_all encode_cbor repr parse_int drain call events)
        (λ _. emit_unless_terminal encode_cbor repr parse_int drain call incomplete_event) s
        (emit_all-Written events s drains fit h)
        (λ _ _.
          emit_unless_terminal-Written incomplete_event _ drains refl
            (emit_all-Written events s drains fit h))
  under_gate-Written true events raises s drains fit h =
      bind-state Written (emit_all encode_cbor repr parse_int drain call events)
        (λ _. raise handler_raised) s (emit_all-Written events s drains fit h)
        (λ _ _. emit_all-Written events s drains fit h)
  under_gate-Written true events cancelled s drains fit h =
      bind-state Written (emit_all encode_cbor repr parse_int drain call events)
        (λ _. raise task_cancelled) s (emit_all-Written events s drains fit h)
        (λ _ _. emit_all-Written events s drains fit h)

  recover-Written :
      (r : Result Fault (Unit {0})) (s : Emitter)
      → ((n : ℕ) → drain n ≡ drained)
      → Written s
      → Written (recover encode_cbor repr parse_int drain call r s).1
  unfolding backend_error_event event_of Dict.get
  recover-Written (ok _) s drains h = h
  recover-Written (err e) s drains h = elim (Bool-cases (is_exception e)) [
    | inr b ↦ rw b h
    | inl b ↦ rw b (
        bind-state Written
          (emit_unless_terminal encode_cbor repr parse_int drain call backend_error_event)
          (λ _. pure true) s (emit_unless_terminal-Written backend_error_event s drains refl h)
          (λ _ _. emit_unless_terminal-Written backend_error_event s drains refl h))
  ]

  -- Whatever the gate says and the handler does, if every `drain` returns, what `_on_stream_call` has written when it returns or raises are
  -- RESPONSE frames that the client decodes: with the identifiers of the CALL, numbered from 0 with
  -- no gap, each with an event that goes with its status, and only the last may be final. CBOR is faithful on
  -- plain entries, and an event name that the handler gives goes with its status.
  pub stream_replies :
      (gate : Option Gate) (events : List (Dict Value)) (ending : Ending)
      → ((n : ℕ) → drain n ≡ drained)
      → All Fitting events
      → Written (on_stream_call encode_cbor repr parse_int drain call gate events ending fresh).1
  unfolding on_stream_call
  stream_replies gate events ending drains fit =
      recover-Written _ _ drains
        (under_gate-Written (granted_by gate) events ending fresh drains fit (nothing, refl))
