-- ===== src/Native/Frames.antt =====
-- `IicpFrame` of iicp_tcp.py: the 12-byte header and the payload. A byte string is a list of numbers
-- below 256.
pub mod RoundTrip
mod Tests
use iicp_client_python.Prelude.{
  ℕ, suc, ◌+◌, ◌*◌, ◌/◌, ◌%◌, Bool, true, false, not, ◌&&◌, ◌||◌, Option, none, some, List, [], ◌∷◌,
  ◌++◌, ltb, leb, ◌==◌, if◌then◌else◌, length, take, String,
}
use iicp_client_python.Prelude.Exec.{Result, ok, err}

pub record IicpFrame : Type 0 where
  pub version : ℕ
  pub msg_type : ℕ
  pub flags : ℕ
  pub payload : List ℕ

-- `struct_error` is raised by `struct.pack` for a field that is no byte.
pub data FrameError : Type 0 where
  unsupported_version payload_too_large struct_error : FrameError
  frame_too_short invalid_magic payload_truncated : FrameError

abbrev pub framing_version : ℕ
framing_version = 1

-- the members of `MsgType`
abbrev pub init_type : ℕ
init_type = 1

abbrev pub response_type : ℕ
response_type = 6

abbrev pub close_type : ℕ
close_type = 7

abbrev pub ack_type : ℕ
ack_type = 2

abbrev pub discover_type : ℕ
discover_type = 3

abbrev pub call_type : ℕ
call_type = 5

abbrev pub feedback_type : ℕ
feedback_type = 8

abbrev pub ping_type : ℕ
ping_type = 9

abbrev pub pong_type : ℕ
pong_type = 10

abbrev pub relay_bind_type : ℕ
relay_bind_type = 11

abbrev pub header_len : ℕ
header_len = 12

abbrev pub max_frame_payload : ℕ
max_frame_payload = 16777216

-- `struct.pack("!I", n)`
unfoldable pub be32 : ℕ → List ℕ
be32 n = n / 16777216 % 256 ∷ n / 65536 % 256 ∷ n / 256 % 256 ∷ n % 256 ∷ []

-- `struct.unpack("!I", ...)`
unfoldable pub of_be32 : ℕ → ℕ → ℕ → ℕ → ℕ
of_be32 a b c d = a * 16777216 + b * 65536 + c * 256 + d

-- `_HEADER_STRUCT.pack(IICP_MAGIC, version, msg_type, flags, 0, length)`
unfoldable pub pack_header : ℕ → ℕ → ℕ → ℕ → List ℕ
unfolding be32
pack_header version msg_type flags len =
    b'I' ∷ b'I' ∷ b'C' ∷ b'P' ∷ version ∷ msg_type ∷ flags ∷ 0 ∷ be32 len

unfoldable pub encode : IicpFrame → Result FrameError (List ℕ)
unfolding pack_header
encode f =
    if not (f.version == framing_version)
    then err unsupported_version
    else if ltb max_frame_payload (length f.payload)
    then err payload_too_large
    else if not (ltb f.msg_type 256 && ltb f.flags 256)
    then err struct_error
    else ok (pack_header f.version f.msg_type f.flags (length f.payload) ++ f.payload)

abbrev pub is_magic : ℕ → ℕ → ℕ → ℕ → Bool
is_magic a b c d = a == b'I' && b == b'I' && c == b'C' && d == b'P'

-- the checks of `decode` after `unpack_from`; `rest` is what follows the header
unfoldable pub decode_body : Bool → ℕ → ℕ → ℕ → ℕ → List ℕ → Result FrameError (IicpFrame × ℕ)
decode_body magic version msg_type flags payload_len rest =
    if not magic
    then err invalid_magic
    else if not (version == framing_version)
    then err unsupported_version
    else if ltb max_frame_payload payload_len
    then err payload_too_large
    else if ltb (length rest) payload_len
    then err payload_truncated
    else ok (
      record {
        version = version;
        msg_type = msg_type;
        flags = flags;
        payload = take payload_len rest;
      },
      header_len + payload_len,
    )

-- the reserved byte is read and ignored
unfoldable pub decode : List ℕ → Result FrameError (IicpFrame × ℕ)
unfolding decode_body of_be32
decode (m₀ ∷ m₁ ∷ m₂ ∷ m₃ ∷ version ∷ msg_type ∷ flags ∷ reserved ∷ l₀ ∷ l₁ ∷ l₂ ∷ l₃ ∷ rest) =
    decode_body (is_magic m₀ m₁ m₂ m₃) version msg_type flags (of_be32 l₀ l₁ l₂ l₃) rest
decode _ = err frame_too_short

unfoldable pub make : ℕ → List ℕ → ℕ → IicpFrame
make msg_type payload flags = record {
  version = framing_version;
  msg_type = msg_type;
  flags = flags;
  payload = payload;
}

-- `stable_task_message_type_error`: `none` for a type of the stable task profile
unfoldable pub stable_task_message_type_error : ℕ → Option String
stable_task_message_type_error t =
    if (leb 1 t && ltb t 11) || t == 13 || t == 14
    then none
    else if t == 0 || t == 255
    then some "invalid_type"
    else if t == 11 || t == 12
    then some "conflicted_type"
    else if leb 240 t && leb t 254
    then some "unsupported_extension"
    else some "unknown_type"
