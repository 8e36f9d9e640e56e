-- ===== src/Native/Server/Tests.antt =====
-- A handshake with a server named "n", and a codec for its ACK.
use iicp_client_python.Prelude.{
  ℕ, zero, suc, ◌≡◌, refl, true, Option, none, some, List, [], ◌∷◌, ◌++◌, arith, pos, if◌then◌else◌,
  Bool-cases, inl, inr,
}
use iicp_client_python.Prelude.Exec.{ok}
use iicp_client_python.Native.Values.{int}
use iicp_client_python.Native.Frames.{IicpFrame, init_type}
use iicp_client_python.Native.Payloads.{IntDict, Item, atom, Body, mapping, empty, put}
use iicp_client_python.Native.Payloads.Equality.{
  same_map, same_item, same_map_sound, same_item_sound,
}
use iicp_client_python.Native.Streaming.Replies.{Faithful}
use iicp_client_python.Native.Server.{ack_payload, on_init, handshake}
use iicp_client_python.Native.Server.Handshakes.{handshake_succeeds}

abbrev codec : IntDict Item → Option (List ℕ)
codec m = if same_map same_item m (ack_payload (some "n")) then some (0 ∷ []) else none

abbrev decoded : List ℕ → Option Body
decoded [] = none
decoded (zero ∷ bs) = some (mapping (ack_payload (some "n")))
decoded (suc n ∷ bs) = some (mapping (put empty 1 (atom (int (pos 1)))))

codec-Faithful : Faithful codec decoded
codec-Faithful m b h = elim (Bool-cases (same_map same_item m (ack_payload (some "n")))) [
  | inl e ↦ (
    m,
    ground (arith, same_map_sound same_item same_item_sound m (ack_payload (some "n")) e),
    λ k i q _. q,
  )
  | inr e ↦ absurd (ground arith)
]

abbrev init_frame : IicpFrame
init_frame = record { version = 1; msg_type = init_type; flags = 0; payload = 1 ∷ [] }

handshake_succeeds_example :
    (bytes : List ℕ) × (on_init codec decoded (λ _. 0) (some "n") init_frame []
      ≡ (some true, [] ++ bytes ∷ []))
    × (handshake codec decoded (λ _. 0) (bytes ++ 7 ∷ []) ≡ (ok (some "n"), 7 ∷ []))
handshake_succeeds_example =
    handshake_succeeds codec decoded (λ _. 0) codec-Faithful refl "n" init_frame
      (mapping (put empty 1 (atom (int (pos 1))))) (0 ∷ []) (7 ∷ []) [] refl refl refl (omega arith)
