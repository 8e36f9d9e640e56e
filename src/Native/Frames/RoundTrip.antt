-- ===== src/Native/Frames/RoundTrip.antt =====
-- `IicpFrame.encode` and `decode` of iicp_tcp.py, one after the other.
use iicp_client_python.Prelude.{
  ℕ, suc, ◌+◌, ◌≤◌, ◌<◌, ◌≡◌, refl, true, List, [], ◌∷◌, ◌++◌, arith, All, ap, ◌∙◌, length, take,
  length-append, length-take, take-length-append, ◌%◌, ◌/◌,
}
use mathlib.Core.List.{append_assoc}
use iicp_client_python.Prelude.Exec.{ok}
use iicp_client_python.Native.Frames.{
  IicpFrame, framing_version, header_len, max_frame_payload, be32, of_be32, pack_header, encode,
  decode, is_magic, decode_body,
}

pub be32_inverse :
    (n : ℕ)
    → n ≤ max_frame_payload
    → of_be32 (n / 16777216 % 256) (n / 65536 % 256) (n / 256 % 256) (n % 256) ≡ n
unfolding of_be32
be32_inverse n h = omega arith

of_be32_inverse :
    (a b c d : ℕ)
    → a < 256
    → b < 256
    → c < 256
    → d < 256
    → be32 (of_be32 a b c d) ≡ a ∷ b ∷ c ∷ d ∷ []
unfolding be32 of_be32
of_be32_inverse a b c d ha hb hc hd = ground arith

decode_body-append :
    (f : IicpFrame) (rest : List ℕ)
    → f.version ≡ framing_version
    → length f.payload ≤ max_frame_payload
    → decode_body true f.version f.msg_type f.flags (length f.payload) (f.payload ++ rest)
      ≡ ok (f, header_len + length f.payload)
unfolding decode_body
decode_body-append f rest v h =
    ground (arith, length-append f.payload rest, take-length-append f.payload rest)

decode_pack :
    (version msg_type flags n : ℕ) (rest : List ℕ)
    → n ≤ max_frame_payload
    → decode (pack_header version msg_type flags n ++ rest)
      ≡ decode_body true version msg_type flags n rest
unfolding decode pack_header be32
decode_pack version msg_type flags n rest h =
    ap (λ k. decode_body true version msg_type flags k rest) (be32_inverse n h)

pub encode_ok :
    (f : IicpFrame) (bytes : List ℕ)
    → encode f ≡ ok bytes
    → (f.version ≡ framing_version)
      × (length f.payload ≤ max_frame_payload)
      × (f.msg_type < 256)
      × (f.flags < 256)
      × (bytes ≡ pack_header f.version f.msg_type f.flags (length f.payload) ++ f.payload)
unfolding encode
encode_ok f bytes h = ground arith

length_frame :
    (version msg_type flags n : ℕ) (payload : List ℕ)
    → header_len + length payload ≡ length (pack_header version msg_type flags n ++ payload)
unfolding pack_header be32
length_frame version msg_type flags n payload = omega arith

-- A frame that can be encoded is decoded again, whatever follows it on the wire, and exactly the
-- bytes of the frame are consumed.
pub decode-encode :
    (f : IicpFrame) (bytes rest : List ℕ)
    → encode f ≡ ok bytes
    → decode (bytes ++ rest) ≡ ok (f, length bytes)
decode-encode f bytes rest h =
    let (v, len, _, _, same) = encode_ok f bytes h in
    let size : header_len + length f.payload ≡ length bytes =
      rw same (length_frame f.version f.msg_type f.flags (length f.payload) f.payload) in
    ap (λ (b : List ℕ). decode (b ++ rest)) same
    ∙ ap decode
        (append_assoc (pack_header f.version f.msg_type f.flags (length f.payload)) f.payload rest)
    ∙ decode_pack f.version f.msg_type f.flags (length f.payload) (f.payload ++ rest) len
    ∙ decode_body-append f rest v len
    ∙ ap (λ (k : ℕ). ok (f, k)) size

-- What `decode` returns is a frame of the supported version within the size limit, and its bytes
-- are a prefix of the data: the data was long enough, and nothing beyond the frame was consumed.
pub decode_bounds :
    (data' : List ℕ) (f : IicpFrame) (n : ℕ)
    → decode data' ≡ ok (f, n)
    → (f.version ≡ framing_version)
      × (length f.payload ≤ max_frame_payload)
      × (n ≡ header_len + length f.payload)
      × (n ≤ length data')
unfolding decode decode_body
decode_bounds (m₀ ∷ m₁ ∷ m₂ ∷ m₃ ∷ v ∷ t ∷ fl ∷ r ∷ l₀ ∷ l₁ ∷ l₂ ∷ l₃ ∷ rest) f n h =
    ground (arith, length-take (of_be32 l₀ l₁ l₂ l₃) rest)
decode_bounds _ f n h = cc

take_header :
    (b₀ b₁ b₂ b₃ b₄ b₅ b₆ b₇ b₈ b₉ b₁₀ b₁₁ k : ℕ) (rest : List ℕ)
    → take (header_len + k) (b₀ ∷ b₁ ∷ b₂ ∷ b₃ ∷ b₄ ∷ b₅ ∷ b₆ ∷ b₇ ∷ b₈ ∷ b₉ ∷ b₁₀ ∷ b₁₁ ∷ rest)
      ≡ b₀ ∷ b₁ ∷ b₂ ∷ b₃ ∷ b₄ ∷ b₅ ∷ b₆ ∷ b₇ ∷ b₈ ∷ b₉ ∷ b₁₀ ∷ b₁₁ ∷ take k rest
take_header b₀ b₁ b₂ b₃ b₄ b₅ b₆ b₇ b₈ b₉ b₁₀ b₁₁ k rest =
    let twelve : header_len + k
        ≡ suc (suc (suc (suc (suc (suc (suc (suc (suc (suc (suc (suc k))))))))))) =
      omega arith in
    rw twelve refl

-- What the checks of `decode` say about the header.
record Header (m₀ m₁ m₂ m₃ version msg_type flags k : ℕ) (rest : List ℕ) (f : IicpFrame) (n : ℕ)
    : Type 0 where
  magic : (m₀ ≡ b'I') × (m₁ ≡ b'I') × (m₂ ≡ b'C') × (m₃ ≡ b'P')
  supported : version ≡ framing_version
  small : k ≤ max_frame_payload
  complete : k ≤ length rest
  frame :
      f ≡ record { version = version; msg_type = msg_type; flags = flags; payload = take k rest }
  consumed : n ≡ header_len + k

decode-Header :
    (m₀ m₁ m₂ m₃ version msg_type flags k : ℕ) (rest : List ℕ) (f : IicpFrame) (n : ℕ)
    → decode_body (is_magic m₀ m₁ m₂ m₃) version msg_type flags k rest ≡ ok (f, n)
    → Header m₀ m₁ m₂ m₃ version msg_type flags k rest f n
unfolding decode_body
decode-Header m₀ m₁ m₂ m₃ version msg_type flags k rest f n h = ground arith

encode_header :
    (msg_type flags k : ℕ) (rest : List ℕ)
    → msg_type < 256
    → flags < 256
    → k ≤ max_frame_payload
    → k ≤ length rest
    → encode (record { version = 1; msg_type = msg_type; flags = flags; payload = take k rest })
      ≡ ok (pack_header 1 msg_type flags k ++ take k rest)
unfolding encode
encode_header msg_type flags k rest t fl small complete =
    ground (arith, length-take k rest complete)

-- A frame that was decoded from bytes can be encoded, and this gives back the bytes that were
-- consumed, if the reserved byte of the header was 0.
pub encode-decode :
    (m₀ m₁ m₂ m₃ version msg_type flags l₀ l₁ l₂ l₃ : ℕ) (rest : List ℕ) (f : IicpFrame) (n : ℕ)
    → All
        (λ b. b < 256)
        (m₀ ∷ m₁ ∷ m₂ ∷ m₃ ∷ version ∷ msg_type ∷ flags ∷ 0 ∷ l₀ ∷ l₁ ∷ l₂ ∷ l₃ ∷ rest)
    → decode (m₀ ∷ m₁ ∷ m₂ ∷ m₃ ∷ version ∷ msg_type ∷ flags ∷ 0 ∷ l₀ ∷ l₁ ∷ l₂ ∷ l₃ ∷ rest)
      ≡ ok (f, n)
    → encode f
      ≡ ok (take n (m₀ ∷ m₁ ∷ m₂ ∷ m₃ ∷ version ∷ msg_type ∷ flags ∷ 0 ∷ l₀ ∷ l₁ ∷ l₂ ∷ l₃ ∷ rest))
unfolding pack_header
encode-decode m₀ m₁ m₂ m₃ version msg_type flags l₀ l₁ l₂ l₃ rest f n bytes h =
    let k : ℕ = of_be32 l₀ l₁ l₂ l₃ in
    let head : Header m₀ m₁ m₂ m₃ version msg_type flags k rest f n =
      unfold decode in decode-Header m₀ m₁ m₂ m₃ version msg_type flags k rest f n h in
    ground (
      arith,
      encode_header msg_type flags k rest,
      take_header m₀ m₁ m₂ m₃ version msg_type flags 0 l₀ l₁ l₂ l₃ k rest,
      of_be32_inverse l₀ l₁ l₂ l₃,
    )
