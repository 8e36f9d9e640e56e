-- ===== src/Native/Payloads.antt =====
-- The CBOR payloads of iicp_tcp.py. `cbor2` is a parameter wherever bytes are made or read; a payload
-- is what `cbor2.loads` returns. Every map is encoded in the order of its keys (`canonical=True`), and
-- nothing looks at that order before, so a map is kept in it from the start.
pub mod Equality
use iicp_client_python.Prelude.{
  ℕ, Bool, not, String, Option, none, some, List, [], ◌∷◌, ℤ, pos, str_eq, ◌==◌, if◌then◌else◌, ltb,
}
use mathlib.Core.Option
use iicp_client_python.Prelude.Exec.{Result, ok, err}
use iicp_client_python.Prelude.Dict.{Dict}
use iicp_client_python.Native.Values.{Value, null, flag, int, text, object, value_or_null}
use iicp_client_python.Native.Responses.{Frame}

abbrev pub IntDict : Type 0 → Type 0
IntDict V = List (ℕ × V)

abbrev pub empty : {V : Type 0} → IntDict V
empty = []

-- `m[k] = v`
abbrev pub put : {V : Type 0} → IntDict V → ℕ → V → IntDict V
put [] k v = (k, v) ∷ []
put ((j, w) ∷ m) k v =
    let rest = put m k v in
    if k == j then (k, v) ∷ m else if ltb k j then (k, v) ∷ (j, w) ∷ m else (j, w) ∷ rest

-- `m.get(k)`
abbrev pub get : {V : Type 0} → IntDict V → ℕ → Option V
get [] k = none
get ((j, v) ∷ m) k = if k == j then some v else get m k

-- `if v is not None: m[k] = v`
abbrev pub put_some : {V : Type 0} → IntDict V → ℕ → Option V → IntDict V
put_some m k none = m
put_some m k (some v) = put m k v

-- A value of a payload: an atom, or a map.
pub data Item : Type 0 where
  atom : Value → Item
  submap : IntDict Value → Item

pub data Body : Type 0 where
  mapping : IntDict Item → Body
  no_mapping : Body

-- `encode_lifecycle_response`, up to `encode_cbor`: its optional arguments
pub record Details : Type 0 where
  pub result : Option Value
  pub error_code : Option String
  pub error_message : Option String
  pub tokens_used : Option ℤ
  pub event : Option String

-- the `get` on the dict of the statuses
unfoldable pub default_event : String → Option String
default_event status =
    if str_eq status "partial"
    then some "partial"
    else if str_eq status "success"
    then some "completed"
    else if str_eq status "error"
    then some "failed"
    else if str_eq status "timeout"
    then some "timed_out"
    else none

-- `a or b`, for an optional text
abbrev pub or_default : Option String → Option String → Option String
or_default none d = d
or_default (some s) d = if str_eq s "" then d else some s

abbrev pub or_text : Option String → String → String
or_text none d = d
or_text (some s) d = if str_eq s "" then d else s

-- `{1: error_code or ..., 2: error_message or ...}`, or nothing without both
unfoldable pub error_item : Option String → Option String → Option Item
error_item none none = none
error_item code message = some (
    submap (
      put (put empty 1 (text (or_text code "stream_error"))) 2
        (text (or_text message "stream failed"))))

unfoldable pub lifecycle_map : String → ℕ → String → Bool → IntDict Value
lifecycle_map task_id sequence event is_final =
    put (put (put (put empty 1 (text task_id)) 2 (int (pos sequence))) 3 (text event)) 4
      (flag is_final)

abbrev pub atom_of : Option Value → Option Item
atom_of none = none
atom_of (some v) = some (atom v)

abbrev pub int_of : Option ℤ → Option Value
int_of none = none
int_of (some n) = some (int n)

unfoldable pub base_payload : String → String → String → Bool → Item → IntDict Item
base_payload session_id call_id status is_final lifecycle =
    put
      (put
        (put
          (put (put (put empty 1 (atom (int (pos 1)))) 2 (atom (text session_id))) 3
            (atom (text call_id)))
          4 (atom (text status)))
        12 (atom (flag is_final)))
      13 lifecycle

unfoldable pub lifecycle_entries :
    String → String → String → ℕ → String → Details → String → IntDict Item
unfolding base_payload error_item
lifecycle_entries session_id call_id task_id sequence status d event =
    let is_final = not (str_eq status "partial") in
    put_some
      (put_some
        (put_some
          (base_payload session_id call_id status is_final
            (submap (lifecycle_map task_id sequence event is_final)))
          5 (atom_of d.result))
        6 (error_item d.error_code d.error_message))
      7 (atom_of (int_of d.tokens_used))

-- `none` is the `ValueError` for an unsupported status
unfoldable pub lifecycle_payload :
    String → String → String → ℕ → String → Details → Option (IntDict Item)
unfolding default_event
lifecycle_payload session_id call_id task_id sequence status d =
    Option.map (lifecycle_entries session_id call_id task_id sequence status d)
      (or_default d.event (default_event status))

-- What `_decode_lifecycle_response` returns: the frame, and what stands under `error`.
pub record Decoded : Type 0 where
  pub frame : Frame
  pub error : Option (Value × Value)

pub data DecodeError : Type 0 where
  body_not_a_map missing_lifecycle : DecodeError

unfoldable pub lifecycle_fields : IntDict Value → Dict Value
lifecycle_fields m =
    ("task_id", value_or_null (get m 1))
    ∷ ("sequence", value_or_null (get m 2))
    ∷ ("event", value_or_null (get m 3))
    ∷ ("is_final", value_or_null (get m 4))
    ∷ []

module _ (class_of : IntDict Value → ℕ) where
  -- a map that is looked at as a value is an object, known by its equality class
  abbrev pub value_of : Option Item → Value
  value_of none = null
  value_of (some (atom v)) = v
  value_of (some (submap m)) = object (class_of m)

  abbrev pub error_of : Option Item → Option (Value × Value)
  error_of (some (submap e)) = some (value_or_null (get e 1), value_or_null (get e 2))
  error_of _ = none

  unfoldable pub frame_fields : IntDict Item → Dict Value
  frame_fields raw =
      ("session_id", value_of (get raw 2))
      ∷ ("call_id", value_of (get raw 3))
      ∷ ("status", value_of (get raw 4))
      ∷ ("result", value_of (get raw 5))
      ∷ ("tokens_used", value_of (get raw 7))
      ∷ ("is_final", value_of (get raw 12))
      ∷ []

  abbrev decode_map : IntDict Item → Option Item → Result DecodeError Decoded
  decode_map raw (some (submap m)) = ok (record {
    frame = record { fields = frame_fields raw; lifecycle = some (lifecycle_fields m) };
    error = error_of (get raw 6);
  })
  decode_map raw _ = err missing_lifecycle

  unfoldable pub decode_lifecycle_response : Body → Result DecodeError Decoded
  decode_lifecycle_response (mapping raw) = decode_map raw (get raw 13)
  decode_lifecycle_response no_mapping = err body_not_a_map
