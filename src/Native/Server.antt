-- ===== src/Native/Server.antt =====
-- `IicpTcpServer._dispatch` of iicp_tcp.py with its handlers for INIT, PING, DISCOVER, CLOSE, FEEDBACK and
-- RELAY_BIND, and `IicpTcpClient.handshake`. The handler of CALL is an argument, as are `cbor2`, `str` and `bool` of other
-- objects, and the lookup of nodes; the writer takes every frame and each `drain` returns, so the server's state is what was written.
pub mod Handshakes
mod Tests
use iicp_client_python.Prelude.{
  ℕ, Bool, true, false, not, String, Option, none, some, List, [], ◌∷◌, ◌++◌, pos, str_eq, ◌==◌,
  if◌then◌else◌,
}
use iicp_client_python.Prelude.Exec.{Result, ok, err, guard, or_raise, ◌>>=◌, ◌>>◌, pure}
use iicp_client_python.Native.Values.{Value, null, flag, int, text, object, value_eq}
use iicp_client_python.Native.Frames.{
  IicpFrame, FrameError, framing_version, init_type, ack_type, discover_type, call_type,
  response_type, close_type, feedback_type, ping_type, pong_type, relay_bind_type, make, encode,
}
use iicp_client_python.Native.Payloads.{
  IntDict, Item, atom, submap, Body, mapping, no_mapping, empty, put, get, value_of,
}
use iicp_client_python.Native.Client.{Reader, ReadError, read_frame, body_of}

abbrev pub Written : Type 0
Written = List (List ℕ)

-- encodes a frame and writes it; an exception of either encoding leaves the handler
abbrev pub write_bytes : Result FrameError (List ℕ) → Bool → Written → Option Bool × Written
write_bytes (err e) keep s = (none, s)
write_bytes (ok bytes) keep s = (some keep, s ++ bytes ∷ [])

abbrev pub write_frame : ℕ → Option (List ℕ) → Bool → Written → Option Bool × Written
write_frame msg_type none keep s = (none, s)
write_frame msg_type (some payload) keep s = write_bytes (encode (make msg_type payload 0)) keep s

-- What `IicpTcpClient.handshake` raises.
pub data HandshakeError : Type 0 where
  ack_unread : ReadError → HandshakeError
  expected_ack : ℕ → HandshakeError
  ack_undecodable unsupported_version_named : HandshakeError

abbrev pub reading_ack : {A : Type 0} → Result ReadError A → Result HandshakeError A
reading_ack (ok a) = ok a
reading_ack (err e) = err (ack_unread e)

-- `{1: framing_version}`, and the identifier of the node if there is one
abbrev pub ack_payload : Option String → IntDict Item
ack_payload none = put empty 1 (atom (int (pos framing_version)))
ack_payload (some node_id) =
    put (put empty 1 (atom (int (pos framing_version)))) 2 (atom (text node_id))

module _ (encode_cbor : IntDict Item → Option (List ℕ)) (decode_cbor : List ℕ → Option Body)
    (class_of : IntDict Value → ℕ) where
  -- `isinstance(body, dict) and body.get(1) == FRAMING_VERSION`
  abbrev pub names_version : Body → Bool
  names_version no_mapping = false
  names_version (mapping m) = value_eq (value_of class_of (get m 1)) (int (pos framing_version))

  abbrev pub answers_init : Option String → Option Body → Written → Option Bool × Written
  answers_init node_id none s = (some false, s)
  answers_init node_id (some body) s =
      if names_version body
      then write_frame ack_type (encode_cbor (ack_payload node_id)) true s
      else (some false, s)

  unfoldable pub on_init : Option String → IicpFrame → Written → Option Bool × Written
  on_init node_id frame s = answers_init node_id (decode_cbor frame.payload) s

  -- `IicpTcpClient.handshake`: what comes of the ACK's body is the node's identifier, if it is a text
  abbrev pub text_or_none : Option Item → Option String
  text_or_none (some (atom (text s))) = some s
  text_or_none _ = none

  abbrev pub node_of : Body → Option String
  node_of no_mapping = none
  node_of (mapping m) = text_or_none (get m 2)

  abbrev pub ack_body : Option Body → Result HandshakeError (Option String)
  ack_body none = err ack_undecodable
  ack_body (some body) =
      if names_version body then ok (node_of body) else err unsupported_version_named

  abbrev pub ack_received :
      Result HandshakeError (ℕ × List ℕ) → Result HandshakeError (Option String)
  ack_received (err e) = err e
  ack_received (ok (mt, payload)) =
      if not (mt == ack_type)
      then err (expected_ack mt)
      else ack_body (body_of decode_cbor class_of payload)

  unfoldable pub handshake : List ℕ → Result HandshakeError (Option String) × List ℕ
  handshake data' = let (r, rest) = read_frame data' in (ack_received (reading_ack r), rest)

  module _ (truth : Item → Bool) where
    abbrev pub pong_payload : Option Item → IntDict Item
    pong_payload none = empty
    pong_payload (some echo) = if truth echo then put empty 1 echo else empty

    -- the echo of a payload; a payload that cannot be decoded has none
    abbrev pub echo_of : Option Body → Option Item
    echo_of (some (mapping m)) = get m 1
    echo_of _ = none

    abbrev pub echo_in : List ℕ → Option Item
    echo_in [] = none
    echo_in (b ∷ bs) = echo_of (decode_cbor (b ∷ bs))

    unfoldable pub on_ping : IicpFrame → Written → Option Bool × Written
    on_ping frame s =
        write_frame pong_type (encode_cbor (pong_payload (echo_in frame.payload))) true s

    module _ (to_str : Item → String) (no_nodes : Item)
        (discover_lookup : Option (String → Option Item)) where
      abbrev pub str_or : String → Option Item → String
      str_or default none = default
      str_or default (some i) = to_str i

      -- `session_id` and `intent`
      abbrev pub discover_fields : Option Body → String × String
      discover_fields (some (mapping m)) = (str_or "unknown" (get m 2), str_or "" (get m 3))
      discover_fields _ = ("unknown", "")

      abbrev pub found_or : Option Item → Item
      found_or none = no_nodes
      found_or (some nodes) = nodes

      -- the nodes, none without a lookup or an intent or when the lookup raises
      abbrev pub look_up : Option (String → Option Item) → String → Item
      look_up none intent = no_nodes
      look_up (some lookup) intent = if str_eq intent "" then no_nodes else found_or (lookup intent)

      unfoldable pub on_discover : IicpFrame → Written → Option Bool × Written
      on_discover frame s =
          let (session_id, intent) = discover_fields (decode_cbor frame.payload) in
          let nodes = look_up discover_lookup intent in
          write_frame response_type
            (encode_cbor
              (put (put (put empty 2 (atom (text session_id))) 3 (atom (text intent))) 20 nodes))
            true s

      unfoldable pub on_relay_bind : Written → Option Bool × Written
      on_relay_bind s = write_frame close_type (some []) false s

      -- other types, known or unknown, are ignored
      unfoldable pub dispatch :
          Option String
          → (IicpFrame → Written → Option Bool × Written)
          → IicpFrame
          → Written
          → Option Bool × Written
      unfolding on_init on_ping on_discover on_relay_bind
      dispatch node_id on_call frame s =
          let mt = frame.msg_type in
          if mt == init_type
          then on_init node_id frame s
          else if mt == ping_type
          then on_ping frame s
          else if mt == discover_type
          then on_discover frame s
          else if mt == call_type
          then on_call frame s
          else if mt == close_type
          then (some false, s)
          else if mt == feedback_type
          then (some true, s)
          else if mt == relay_bind_type
          then on_relay_bind s
          else (some true, s)
