-- ===== src/Native/Client/Streams.antt =====
-- The client of iicp_tcp.py on what the server of iicp_tcp.py writes.
use iicp_client_python.Prelude.{
  ◌≢◌, inl, inr, ℕ, zero, suc, ◌≤◌, ◌≡◌, refl, ap, ◌∙◌, Bool, true, false, String, Option, none,
  some, List, [], ◌∷◌, ◌++◌, arith, length, join, ℤ, All, length-append,
}
use mathlib.Core.Path.{subst}
use mathlib.Core.List.{append_assoc, append-nil}
use iicp_client_python.Prelude.Exec.{ok}
use iicp_client_python.Native.Values.{Value}
use iicp_client_python.Native.Frames.{
  response_type, make, pack_header, stable_task_message_type_error,
}
use iicp_client_python.Native.Frames.RoundTrip.{encode_ok}
use iicp_client_python.Native.Payloads.{IntDict, Item, Body, Decoded}
use iicp_client_python.Native.Responses.{finish, Frame, Sequence, start}
use iicp_client_python.Native.Responses.Histories.{Legal, accept_of_Fits, advanced}
use iicp_client_python.Native.Streaming.{
  Drain, drained, cancelled, Ending, fresh, on_stream_call, incomplete_event, backend_error_event,
  Emitter, Call,
}
use iicp_client_python.Native.Streaming.Emission.{Fitting, stream_replies}
use iicp_client_python.Native.Streaming.Replies.{Reply, Replies, nothing, last, more, Faithful}
use iicp_client_python.Native.Streaming.Terminal.{Encodable, stream_ends}
use iicp_client_python.Serving.Concurrency.{Gate}
use iicp_client_python.Prelude.Dict.{Dict}
use iicp_client_python.Native.Client.Reading.{read_frame-encode}
use iicp_client_python.Native.Client.{
  body_of, yielding, accept_result, judge, receive, stream_loop, stream_call,
}

-- the frames of responses
abbrev pub frames : List Decoded → List Frame
frames [] = []
frames (d ∷ ds) = d.frame ∷ frames ds

module _ (decode_cbor : List ℕ → Option Body) (class_of : IntDict Value → ℕ)
    (decodes_empty : decode_cbor [] ≡ none) (call : Call) where
  -- the state of the client's sequence before RESPONSE number `n`
  abbrev at : ℕ → Sequence
  at n = record {
    session_id = call.session_id;
    call_id = call.call_id;
    task_id = call.task_id;
    next_sequence = n;
    terminal_seen = false;
  }

  body_of_reply :
      (e : List ℕ) (body : Body)
      → decode_cbor e ≡ some body
      → body_of decode_cbor class_of e ≡ some body
  body_of_reply [] body h = cc
  body_of_reply (x ∷ e) body h = h

  receive-Reply :
      (n : ℕ) (final : Bool) (b rest : List ℕ) (r : Reply decode_cbor class_of call n final b)
      → receive decode_cbor class_of (at n) (b ++ rest)
        ≡ (ok (r.response, advanced (at n) final), rest)
  unfolding receive judge stable_task_message_type_error
  receive-Reply n final b rest r =
      rw
        (
          read_frame-encode response_type r.encoded b rest r.wire refl,
          body_of_reply r.encoded r.body r.decodes,
          r.has_response,
        )
        (ap (λ x. (x, rest))
          (ap (accept_result r.response)
            (accept_of_Fits r.response.frame (at n) final refl r.fits)))

  responses :
      {n : ℕ} {final : Bool} {bs : List (List ℕ)}
      → Replies decode_cbor class_of call n final bs
      → List Decoded
  responses nothing = []
  responses (last r) = r.response ∷ []
  responses (more r rs) = r.response ∷ responses rs

  abbrev Legally : ℕ → List Frame → Type 0
  Legally n fs = Legal call.session_id call.call_id call.task_id n fs

  responses-Legal :
      (n : ℕ) (bs : List (List ℕ)) (rs : Replies decode_cbor class_of call n true bs)
      → Legally n (frames (responses rs))
  unfolding responses
  responses-Legal n _ (last r) = r.fits
  responses-Legal n _ (more r (last q)) =
      (r.fits, subst (λ k. Legally k (q.response.frame ∷ [])) (omega arith) q.fits)
  responses-Legal n _ (more {bs = b ∷ bs} r (more q rs)) = (
    r.fits,
    subst (λ k. Legally k (frames (responses (more q rs)))) (omega arith)
        (responses-Legal (suc n) (b ∷ bs) (more q rs)),
  )

  length-responses :
      (n : ℕ) (final : Bool) (bs : List (List ℕ))
      (rs : Replies decode_cbor class_of call n final bs)
      → length (responses rs) ≡ length bs
  unfolding responses
  length-responses n final _ nothing = refl
  length-responses n final _ (last r) = refl
  length-responses n final (b ∷ bs) (more r rs) =
      omega (arith, length-responses (suc n) final bs rs)

  stream_loop-Replies :
      (bs : List (List ℕ)) (n fuel : ℕ) (rest : List ℕ)
      → length bs ≤ fuel
      → (rs : Replies decode_cbor class_of call n true bs)
      → stream_loop decode_cbor class_of fuel (at n) (join bs ++ rest)
        ≡ record { yielded = responses rs; outcome = ok tt; unread = rest }
  unfolding stream_loop finish responses
  stream_loop-Replies [] n fuel rest h rs = elim rs [ ]
  stream_loop-Replies (b ∷ bs) n zero rest h rs = absurd (omega arith)
  stream_loop-Replies (b ∷ []) n (suc fuel) rest h (last r) =
      ap (λ bytes. stream_loop decode_cbor class_of (suc fuel) (at n) (bytes ++ rest))
        (append-nil b)
      ∙ rw (receive-Reply n true b rest r, r.fits.is_final) refl
  stream_loop-Replies (b ∷ bs) n (suc fuel) rest h (more r rs) =
      ap (stream_loop decode_cbor class_of (suc fuel) (at n)) (append_assoc b (join bs) rest)
      ∙ rw (receive-Reply n false b (join bs ++ rest) r, r.fits.is_final)
          (ap
              (λ k.
                yielding decode_cbor class_of r.response
                  (stream_loop decode_cbor class_of fuel (at k) (join bs ++ rest)))
              (omega arith)
            ∙ ap (yielding decode_cbor class_of r.response)
                (stream_loop-Replies bs (suc n) fuel rest (omega arith) rs))

  length-Reply :
      (n : ℕ) (final : Bool) (b : List ℕ) → Reply decode_cbor class_of call n final b → 1 ≤ length b
  unfolding make pack_header
  length-Reply n final b r =
      let (_, _, _, _, same) = encode_ok (make response_type r.encoded 0) b r.wire in
      omega (arith, ap length same)

  length-Replies :
      (n : ℕ) (final : Bool) (bs : List (List ℕ))
      → Replies decode_cbor class_of call n final bs
      → length bs ≤ length (join bs)
  length-Replies n final _ nothing = omega arith
  length-Replies n final (b ∷ []) (last r) =
      omega (arith, length-append b [], length-Reply n final b r)
  length-Replies n final (b ∷ bs) (more r rs) = omega (
    arith,
    length-append b (join bs),
    length-Reply n false b r,
    length-Replies (suc n) final bs rs,
  )

  -- what `stream_call` makes of a CALL's replies that came to their end
  stream_call-Replies :
      (bs : List (List ℕ)) (rest : List ℕ) (rs : Replies decode_cbor class_of call 0 true bs)
      → stream_call decode_cbor class_of call.session_id call.call_id call.task_id (join bs ++ rest)
        ≡ record { yielded = responses rs; outcome = ok tt; unread = rest }
  unfolding stream_call start
  stream_call-Replies bs rest rs =
      stream_loop-Replies bs 0 (suc (length (join bs ++ rest))) rest
        (omega (arith, length-append (join bs) rest, length-Replies 0 true bs rs)) rs

module _ (encode_cbor : IntDict Item → Option (List ℕ)) (decode_cbor : List ℕ → Option Body)
    (class_of : IntDict Value → ℕ) (faithful : Faithful encode_cbor decode_cbor)
    (decodes_empty : decode_cbor [] ≡ none) (repr : Value → String) (parse_int : Value → Option ℤ)
    (drain : ℕ → Drain) (call : Call) (drains : (n : ℕ) → drain n ≡ drained)
    (incomplete : Encodable encode_cbor repr parse_int drain call incomplete_event)
    (backend : Encodable encode_cbor repr parse_int drain call backend_error_event) where
  -- The server's `_on_stream_call` and the client's `stream_call` agree: if every `drain` returns and
  -- the task is not cancelled, then, whatever the gate says, the handler yields and whether it returns or
  -- raises an exception, the client that reads what the server has written yields as
  -- many responses as frames were written, a legal sequence for the CALL, returns after the last of them, and
  -- reads nothing of what follows on the wire. CBOR decodes what it encoded, as far as the entries
  -- are plain, and nothing from no bytes; the two error replies can be encoded and fit into a frame;
  -- and an event name that the handler gives goes with its status.
  pub stream_received :
      (gate : Option Gate) (events : List (Dict Value)) (ending : Ending) (rest : List ℕ)
      → ending ≢ cancelled
      → All (Fitting encode_cbor decode_cbor class_of faithful repr parse_int drain call) events
      → let s = (on_stream_call encode_cbor repr parse_int drain call gate events ending fresh).1 in
        (ds : List Decoded) × (stream_call decode_cbor class_of call.session_id call.call_id
            call.task_id
            (join s.written ++ rest)
          ≡ record { yielded = ds; outcome = ok tt; unread = rest })
        × (length ds ≡ s.sequence)
        × Legal call.session_id call.call_id call.task_id 0 (frames ds)
  stream_received gate events ending rest whole fit =
      let s : Emitter =
        (on_stream_call encode_cbor repr parse_int drain call gate events ending fresh).1 in
      let (so_far, count) =
        stream_replies encode_cbor decode_cbor class_of faithful repr parse_int drain call gate
          events ending drains fit in
      let terminal : s.terminal_sent ≡ true =
        elim (stream_ends encode_cbor repr parse_int drain call drains incomplete backend gate
          events ending) [ inl (_, t, _) ↦ t | inr (stopped, _) ↦ absurd (whole stopped) ] in
      let rs : Replies decode_cbor class_of call 0 true s.written = rw terminal at so_far in
      (
        responses decode_cbor class_of decodes_empty call rs,
        stream_call-Replies decode_cbor class_of decodes_empty call s.written rest rs,
        omega (
          arith,
          count,
          length-responses decode_cbor class_of decodes_empty call 0 true s.written rs,
        ),
        responses-Legal decode_cbor class_of decodes_empty call 0 s.written rs,
      )
