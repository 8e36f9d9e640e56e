-- ===== src/Native/Client/Tests.antt =====
-- A CALL whose handler yields nothing, with a codec for its two possible replies.
use iicp_client_python.Prelude.{
  ℕ, zero, suc, inl, inr, Bool-cases, ◌≡◌, refl, ◌≢◌, Option, none, some, List, [], ◌∷◌, ◌++◌, pos,
  arith, length, join, if◌then◌else◌,
}
use iicp_client_python.Prelude.Exec.{ok, err}
use iicp_client_python.Prelude.Dict
use iicp_client_python.Prelude.Dict.{Dict}
use iicp_client_python.Native.Values.{Value, int}
use iicp_client_python.Native.Payloads.{
  IntDict, Item, submap, Body, mapping, Decoded, get, lifecycle_entries, base_payload,
  lifecycle_map, error_item,
}
use iicp_client_python.Native.Payloads.Equality.{
  same_map, same_item, same_map_sound, same_item_sound,
}
use iicp_client_python.Native.Streaming.{
  drained, cancelled, Call, returns, Emitter, fresh, on_stream_call, incomplete_event,
  backend_error_event, details, event_of,
}
use iicp_client_python.Native.Streaming.Replies.{Faithful}
use iicp_client_python.Native.Streaming.Terminal.{Encodable}
use iicp_client_python.Native.Client.{out_of_fuel, stream_call}
use iicp_client_python.Native.Client.Streams.{stream_received, frames}
use iicp_client_python.Native.Responses.Histories.{Legal}
use iicp_client_python.Native.Client.Fuel.{stream_call-terminates}

-- the reply that is number `n`
abbrev reply : Dict Value → ℕ → IntDict Item
reply event n =
    lifecycle_entries "s" "c" "t" n "error" (details (λ _. none) (λ _. "") (λ _. none) event none)
      "failed"

abbrev number : Option Item → ℕ
number (some (submap m)) = elim (get m 2) [ some (int (pos n)) ↦ n | _ ↦ 0 ]
number _ = 0

abbrev codec : IntDict Item → Option (List ℕ)
codec m =
    let n = number (get m 13) in
    if same_map same_item m (reply incomplete_event n)
    then some (0 ∷ n ∷ [])
    else if same_map same_item m (reply backend_error_event n)
    then some (1 ∷ n ∷ [])
    else none

abbrev decoded : List ℕ → Option Body
decoded (zero ∷ n ∷ []) = some (mapping (reply incomplete_event n))
decoded (suc tag ∷ n ∷ []) = some (mapping (reply backend_error_event n))
decoded _ = none

codec_decodes : (m : IntDict Item) (b : List ℕ) → codec m ≡ some b → decoded b ≡ some (mapping m)
codec_decodes m b h =
    let n : ℕ = number (get m 13) in
    elim (Bool-cases (same_map same_item m (reply incomplete_event n))) [
      | inl e ↦
          ground (arith, same_map_sound same_item same_item_sound m (reply incomplete_event n) e)
      | inr e ↦ elim (Bool-cases (same_map same_item m (reply backend_error_event n))) [
        | inl f ↦
            ground
              (arith, same_map_sound same_item same_item_sound m (reply backend_error_event n) f)
        | inr f ↦ ground arith
      ]
    ]

codec-Faithful : Faithful codec decoded
codec-Faithful m b h = (m, codec_decodes m b h, λ k i e _. e)

abbrev call : Call
call = record { session_id = "s"; call_id = "c"; task_id = "t" }

incomplete-Encodable : Encodable codec (λ _. "") (λ _. none) (λ n. drained) call incomplete_event
unfolding lifecycle_entries base_payload lifecycle_map error_item incomplete_event
    backend_error_event details event_of Dict.get
incomplete-Encodable n = (0 ∷ n ∷ [], ground arith, ground arith)

backend-Encodable : Encodable codec (λ _. "") (λ _. none) (λ n. drained) call backend_error_event
unfolding lifecycle_entries base_payload lifecycle_map error_item incomplete_event
    backend_error_event details event_of Dict.get
backend-Encodable n = (1 ∷ n ∷ [], ground arith, ground arith)

abbrev served : Emitter
served = (on_stream_call codec (λ _. "") (λ _. none) (λ n. drained) call none [] returns fresh).1

returns-whole : returns ≢ cancelled
returns-whole h = cc

stream_received_example :
    (ds : List Decoded) × (stream_call decoded (λ _. 0) "s" "c" "t" (join served.written ++ 7 ∷ [])
      ≡ record { yielded = ds; outcome = ok tt; unread = 7 ∷ [] })
    × (length ds ≡ served.sequence)
    × Legal "s" "c" "t" 0 (frames ds)
stream_received_example =
    stream_received codec decoded (λ _. 0) codec-Faithful refl (λ _. "") (λ _. none) (λ n. drained)
      call (λ n. refl) incomplete-Encodable backend-Encodable none [] returns (7 ∷ []) returns-whole
      tt

stream_call-terminates_example :
    (stream_call decoded (λ _. 0) "s" "c" "t" (1 ∷ 2 ∷ [])).outcome ≢ err out_of_fuel
stream_call-terminates_example = stream_call-terminates decoded (λ _. 0) "s" "c" "t" (1 ∷ 2 ∷ [])
