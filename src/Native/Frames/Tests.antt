-- ===== src/Native/Frames/Tests.antt =====
-- A frame in bytes.
use iicp_client_python.Prelude.{◌≡◌, refl, [], ◌∷◌}
use iicp_client_python.Prelude.Exec.{ok}
use iicp_client_python.Native.Frames.{IicpFrame, encode, decode}
use iicp_client_python.Native.Frames.RoundTrip.{decode-encode}

abbrev ping : IicpFrame
ping = record { version = 1; msg_type = 9; flags = 0; payload = 7 ∷ [] }

decode-encode_example :
    decode (b'I' ∷ b'I' ∷ b'C' ∷ b'P' ∷ 1 ∷ 9 ∷ 0 ∷ 0 ∷ 0 ∷ 0 ∷ 0 ∷ 1 ∷ 7 ∷ 8 ∷ []) ≡ ok (ping, 13)
unfolding encode
decode-encode_example =
    decode-encode ping (b'I' ∷ b'I' ∷ b'C' ∷ b'P' ∷ 1 ∷ 9 ∷ 0 ∷ 0 ∷ 0 ∷ 0 ∷ 0 ∷ 1 ∷ 7 ∷ []) (8 ∷ [])
      refl
