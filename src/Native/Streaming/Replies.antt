-- ===== src/Native/Streaming/Replies.antt =====
-- One RESPONSE of `_on_stream_call` of iicp_tcp.py, from its payload to what the client decodes.
use iicp_client_python.Prelude.{
  ℕ, suc, ◌+◌, ◌≡◌, refl, ◌∙◌, inl, inr, Bool, true, false, not, ◌||◌, String, Option, none, some,
  List, [], ◌∷◌, ◌++◌, arith, str_eq, length, Bool-cases, ◌==◌,
}
use mathlib.Core.Path.{subst}
use iicp_client_python.Prelude.Exec.{ok}
use iicp_client_python.Prelude.Dict
use iicp_client_python.Prelude.Dict.{Dict}
use iicp_client_python.Native.Values.{Value, flag, text, object, field}
use iicp_client_python.Native.Frames.{response_type, make, encode}
use iicp_client_python.Native.Payloads.{
  IntDict, Item, atom, submap, Body, mapping, Details, Decoded, lifecycle_payload, default_event,
  decode_lifecycle_response, frame_fields, lifecycle_fields, base_payload, lifecycle_map,
  lifecycle_entries, or_default, error_item, get, put, put_some, error_of, atom_of, int_of,
}
use iicp_client_python.Native.Responses.{expected}
use iicp_client_python.Native.Responses.Histories.{Fits}
use iicp_client_python.Native.Streaming.{Call, is_stream_status}

-- What CBOR keeps: texts, numbers, Booleans and `None`.
abbrev pub is_plain : Value → Bool
is_plain (object n) = false
is_plain _ = true

abbrev pub Plain : Item → Type 0
Plain (atom v) = is_plain v ≡ true
Plain (submap m) = (k : ℕ) (v : Value) → get m k ≡ some v → is_plain v ≡ true

-- Decoding gives back a map that was encoded, as far as its entries are plain.
abbrev pub Faithful : (IntDict Item → Option (List ℕ)) → (List ℕ → Option Body) → Type 0
Faithful encode_cbor decode_cbor =
    (m : IntDict Item) (b : List ℕ)
    → encode_cbor m ≡ some b
    → (m' : IntDict Item) × (decode_cbor b ≡ some (mapping m'))
      × ((k : ℕ) (i : Item) → get m k ≡ some i → Plain i → get m' k ≡ some i)

-- The name that a handler gives its event, if any, goes with the status.
abbrev pub override_fits : String → Option String → Bool
override_fits status none = true
override_fits status (some e) = str_eq e "" || expected status (text e)

default_sent :
    (status : String)
    → is_stream_status status ≡ true
    → (name : String) × (default_event status ≡ some name) × (expected status (text name) ≡ true)
unfolding is_stream_status default_event expected
default_sent status h = elim (Bool-cases (str_eq status "partial")) [
  | inl p ↦ ("partial", ground arith, ground arith)
  | inr p ↦ elim (Bool-cases (str_eq status "success")) [
    | inl q ↦ ("completed", ground arith, ground arith)
    | inr q ↦ elim (Bool-cases (str_eq status "error")) [
      | inl r ↦ ("failed", ground arith, ground arith)
      | inr r ↦ ("timed_out", ground arith, ground arith)
    ]
  ]
]

-- The event that is sent.
event_sent :
    (status : String) (e : Option String)
    → is_stream_status status ≡ true
    → override_fits status e ≡ true
    → (name : String) × (or_default e (default_event status) ≡ some name)
      × (expected status (text name) ≡ true)
event_sent status none h k = default_sent status h
event_sent status (some e) h k = elim (Bool-cases (str_eq e "")) [
  | inl p ↦ rw p (default_sent status h)
  | inr p ↦ (e, ground arith, ground arith)
]

pub lifecycle_map-Plain :
    (task_id : String) (n : ℕ) (event : String) (is_final : Bool)
    → Plain (submap (lifecycle_map task_id n event is_final))
unfolding lifecycle_map
lifecycle_map-Plain task_id n event is_final k v h = ground arith

get-put-other :
    {V : Type 0} (m : IntDict V) (k : ℕ) (v : V) (j : ℕ)
    → j == k ≡ false
    → get (put m k v) j ≡ get m j
get-put-other [] k v j h = rw h refl
get-put-other ((i, w) ∷ m) k v j h = ground (arith, get-put-other m k v j h)

put_some_other :
    {V : Type 0} (m : IntDict V) (k : ℕ) (v : Option V) (j : ℕ)
    → j == k ≡ false
    → get (put_some m k v) j ≡ get m j
put_some_other m k none j h = refl
put_some_other m k (some v) j h = get-put-other m k v j h

-- One RESPONSE on the wire: number `n` of the CALL, which the client decodes to a frame that fits.
pub record Reply (decode_cbor : List ℕ → Option Body) (class_of : IntDict Value → ℕ) (call : Call)
    (n : ℕ) (final : Bool) (bytes : List ℕ) : Type 0 where
  pub encoded : List ℕ
  pub wire : encode (make response_type encoded 0) ≡ ok bytes
  pub body : Body
  pub decodes : decode_cbor encoded ≡ some body
  pub response : Decoded
  pub has_response : decode_lifecycle_response class_of body ≡ ok response
  pub fits : Fits call.session_id call.call_id call.task_id n final response.frame

-- `s.written`: replies numbered from `n`, where only the last can be final
pub data Replies (decode_cbor : List ℕ → Option Body) (class_of : IntDict Value → ℕ) (call : Call)
    : ℕ → Bool → List (List ℕ) → Type 0 where
  nothing : {n : ℕ} → Replies decode_cbor class_of call n false []
  last :
      {n : ℕ} {b : List ℕ}
      → Reply decode_cbor class_of call n true b
      → Replies decode_cbor class_of call n true (b ∷ [])
  more :
      {n : ℕ} {final : Bool} {b : List ℕ} {bs : List (List ℕ)}
      → Reply decode_cbor class_of call n false b
      → Replies decode_cbor class_of call (suc n) final bs
      → Replies decode_cbor class_of call n final (b ∷ bs)

module _ (decode_cbor : List ℕ → Option Body) (class_of : IntDict Value → ℕ) (call : Call) where
  -- the fields of a decoded RESPONSE
  pub decoded-Fits :
      (m : IntDict Item) (n : ℕ) (status event : String) (is_final : Bool)
      → is_final ≡ not (str_eq status "partial")
      → expected status (text event) ≡ true
      → get m 2 ≡ some (atom (text call.session_id))
      → get m 3 ≡ some (atom (text call.call_id))
      → get m 4 ≡ some (atom (text status))
      → get m 12 ≡ some (atom (flag is_final))
      → get m 13 ≡ some (submap (lifecycle_map call.task_id n event is_final))
      → (d : Decoded) × (decode_lifecycle_response class_of (mapping m) ≡ ok d)
        × Fits call.session_id call.call_id call.task_id n is_final d.frame
  unfolding decode_lifecycle_response lifecycle_map lifecycle_fields frame_fields field Dict.get
  decoded-Fits m n status event is_final fin ev h₂ h₃ h₄ h₁₂ h₁₃ =
      let lifecycle : IntDict Value = lifecycle_map call.task_id n event is_final in
      let d : Decoded = record {
        frame = record {
          fields = frame_fields class_of m;
          lifecycle = some (lifecycle_fields lifecycle);
        };
        error = error_of class_of (get m 6);
      } in
      let fits : Fits call.session_id call.call_id call.task_id n is_final d.frame = record {
        lifecycle = lifecycle_fields lifecycle;
        has_lifecycle = refl;
        session = rw h₂ refl;
        call = rw h₃ refl;
        task = refl;
        number = ground arith;
        status = status;
        has_status = rw h₄ refl;
        has_event = ev;
        is_final = rw h₁₂ refl;
        agrees = ground arith;
        ends = fin;
      } in
      (d, rw h₁₃ refl, fits)

  -- the payload that is sent, with the entries that the client reads
  pub payload_sent :
      (status : String) (d : Details) (n : ℕ)
      → is_stream_status status ≡ true
      → override_fits status d.event ≡ true
      → (event : String) × (expected status (text event) ≡ true)
        × (lifecycle_payload call.session_id call.call_id call.task_id n status d
            ≡ some (lifecycle_entries call.session_id call.call_id call.task_id n status d event))
  unfolding lifecycle_payload
  payload_sent status d n h k =
      let (event, sent, ev) = event_sent status d.event h k in (event, ev, rw sent refl)

  pub entry :
      (status event : String) (d : Details) (n j : ℕ)
      → (j == 5 ≡ false) × (j == 6 ≡ false) × (j == 7 ≡ false)
      → get (lifecycle_entries call.session_id call.call_id call.task_id n status d event) j
        ≡ get
            (base_payload call.session_id call.call_id status
              (not (str_eq status "partial"))
              (submap (lifecycle_map call.task_id n event (not (str_eq status "partial")))))
            j
  unfolding lifecycle_entries
  entry status event d n j (h₅, h₆, h₇) =
      let m : IntDict Item =
        base_payload call.session_id call.call_id status (not (str_eq status "partial"))
          (submap (lifecycle_map call.task_id n event (not (str_eq status "partial")))) in
      put_some_other
        (put_some (put_some m 5 (atom_of d.result)) 6 (error_item d.error_code d.error_message)) 7
        (atom_of (int_of d.tokens_used)) j h₇
      ∙ put_some_other (put_some m 5 (atom_of d.result)) 6 (error_item d.error_code d.error_message)
          j h₆
      ∙ put_some_other m 5 (atom_of d.result) j h₅

  pub Replies-snoc :
      (n : ℕ) (final : Bool) (bs : List (List ℕ)) (b : List ℕ)
      → Replies decode_cbor class_of call n false bs
      → Reply decode_cbor class_of call (n + length bs) final b
      → Replies decode_cbor class_of call n final (bs ++ b ∷ [])
  Replies-snoc n true [] b nothing r =
      last (subst (λ k. Reply decode_cbor class_of call k true b) (omega arith) r)
  Replies-snoc n false [] b nothing r =
      more (subst (λ k. Reply decode_cbor class_of call k false b) (omega arith) r) nothing
  Replies-snoc n final (c ∷ bs) b (more h hs) r = more h (
      Replies-snoc (suc n) final bs b hs
        (subst (λ k. Reply decode_cbor class_of call k final b) (omega arith) r))
