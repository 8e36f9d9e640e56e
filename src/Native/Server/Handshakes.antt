-- ===== src/Native/Server/Handshakes.antt =====
-- `_on_init` of the server and `handshake` of the client of iicp_tcp.py.
use iicp_client_python.Prelude.{
  ℕ, ◌≤◌, ◌≡◌, refl, ap, true, String, Option, none, some, List, [], ◌∷◌, ◌++◌, arith, length, pos,
}
use iicp_client_python.Prelude.Exec.{ok}
use iicp_client_python.Native.Values.{Value, int, text}
use iicp_client_python.Native.Frames.{
  IicpFrame, max_frame_payload, ack_type, make, encode, stable_task_message_type_error, pack_header,
}
use iicp_client_python.Native.Payloads.{IntDict, Item, atom, Body, mapping, get}
use iicp_client_python.Native.Streaming.Replies.{Faithful}
use iicp_client_python.Native.Client.{read_frame, body_of}
use iicp_client_python.Native.Client.Reading.{read_frame-encode}
use iicp_client_python.Native.Server.{
  Written, ack_payload, names_version, on_init, handshake, ack_body,
}

encode-ack :
    (b : List ℕ)
    → length b ≤ max_frame_payload
    → (bytes : List ℕ) × (encode (make ack_type b 0) ≡ ok bytes)
unfolding encode make
encode-ack b h = (pack_header 1 ack_type 0 (length b) ++ b, ground arith)

module _ (encode_cbor : IntDict Item → Option (List ℕ)) (decode_cbor : List ℕ → Option Body)
    (class_of : IntDict Value → ℕ) (faithful : Faithful encode_cbor decode_cbor)
    (decodes_empty : decode_cbor [] ≡ none) where
  body_of-decoded :
      (e : List ℕ) (body : Body)
      → decode_cbor e ≡ some body
      → body_of decode_cbor class_of e ≡ some body
  body_of-decoded [] body h = cc
  body_of-decoded (x ∷ e) body h = h

  ack-version : (node_id : Option String) → get (ack_payload node_id) 1 ≡ some (atom (int (pos 1)))
  ack-version none = refl
  ack-version (some s) = refl

  -- what the client makes of the body of an ACK
  ack_body-decoded :
      (node_id : String) (m : IntDict Item)
      → get m 1 ≡ some (atom (int (pos 1)))
      → get m 2 ≡ some (atom (text node_id))
      → ack_body encode_cbor decode_cbor class_of (some (mapping m)) ≡ ok (some node_id)
  ack_body-decoded node_id m h k = rw (h, k) refl

  -- A handshake succeeds on both sides: if an INIT's body names the framing version and the ACK of a server with
  -- an identifier can be encoded and fits into a frame, then the server writes one frame and keeps the
  -- connection, and the client that reads it learns the server's identifier and reads nothing of what
  -- follows. CBOR decodes what it encoded, as far as the entries are plain, and nothing from no bytes.
  pub handshake_succeeds :
      (node_id : String) (frame : IicpFrame) (body : Body) (b rest : List ℕ) (s : Written)
      → decode_cbor frame.payload ≡ some body
      → names_version encode_cbor decode_cbor class_of body ≡ true
      → encode_cbor (ack_payload (some node_id)) ≡ some b
      → length b ≤ max_frame_payload
      → (bytes : List ℕ) × (on_init encode_cbor decode_cbor class_of (some node_id) frame s
          ≡ (some true, s ++ bytes ∷ []))
        × (handshake encode_cbor decode_cbor class_of (bytes ++ rest) ≡ (ok (some node_id), rest))
  unfolding on_init handshake stable_task_message_type_error
  handshake_succeeds node_id frame body b rest s hd hv he small =
      let (bytes, framed) = encode-ack b small in
      let (m, decoded, same) = faithful (ack_payload (some node_id)) b he in
      let read : read_frame (bytes ++ rest) ≡ (ok (ack_type, b), rest) =
        read_frame-encode ack_type b bytes rest framed refl in
      (
        bytes,
        rw (hd, hv, he, framed) refl,
        rw (read, body_of-decoded b (mapping m) decoded)
            (ap (λ r. (r, rest))
              (ack_body-decoded node_id m (same 1 (atom (int (pos 1))) refl refl)
                (same 2 (atom (text node_id)) refl refl))),
      )
