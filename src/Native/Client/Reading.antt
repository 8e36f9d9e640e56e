-- ===== src/Native/Client/Reading.antt =====
-- `_read_frame` of iicp_tcp.py on the bytes of `IicpFrame.encode`.
use iicp_client_python.Prelude.{
  ℕ, ◌≤◌, ◌≡◌, refl, ap, ◌∙◌, none, List, ◌++◌, arith, length, take-length-append,
  drop-length-append, length-append,
}
use mathlib.Core.List.{append_assoc}
use iicp_client_python.Prelude.Exec.{ok}
use iicp_client_python.Native.Frames.{
  max_frame_payload, header_len, make, encode, pack_header, be32, stable_task_message_type_error,
}
use iicp_client_python.Native.Frames.RoundTrip.{encode_ok, be32_inverse}
use iicp_client_python.Native.Client.{readexactly, check_header, read_frame, read_body}

check_header-pack :
    (t n : ℕ)
    → n ≤ max_frame_payload
    → stable_task_message_type_error t ≡ none
    → check_header (pack_header 1 t 0 n) ≡ ok (t, n)
unfolding check_header pack_header be32
check_header-pack t n h k = ground (arith, be32_inverse n h)

readexactly-append : (xs rest : List ℕ) → readexactly (length xs) (xs ++ rest) ≡ (ok xs, rest)
unfolding readexactly
readexactly-append xs rest =
    ground (arith, length-append xs rest, take-length-append xs rest, drop-length-append xs rest)

read_frame_parts :
    (data' head r payload rest : List ℕ) (mt n : ℕ)
    → readexactly header_len data' ≡ (ok head, r)
    → check_header head ≡ ok (mt, n)
    → readexactly n r ≡ (ok payload, rest)
    → read_frame data' ≡ (ok (mt, payload), rest)
unfolding read_frame read_body
read_frame_parts data' head r payload rest mt n h k l = rw (h, k, l) refl

-- The client reads a written frame of a stable type, and nothing of what follows.
pub read_frame-encode :
    (t : ℕ) (encoded b rest : List ℕ)
    → encode (make t encoded 0) ≡ ok b
    → stable_task_message_type_error t ≡ none
    → read_frame (b ++ rest) ≡ (ok (t, encoded), rest)
unfolding make
read_frame-encode t encoded b rest h k =
    let (_, small, _, _, same) = encode_ok (make t encoded 0) b h in
    let head : List ℕ = pack_header 1 t 0 (length encoded) in
    let split : b ++ rest ≡ head ++ (encoded ++ rest) =
      ap (λ (c : List ℕ). c ++ rest) same ∙ append_assoc head encoded rest in
    let twelve : readexactly (length head) (head ++ (encoded ++ rest))
        ≡ (ok head, encoded ++ rest) =
      readexactly-append head (encoded ++ rest) in
    read_frame_parts (b ++ rest) head (encoded ++ rest) encoded rest t (length encoded)
      (ap (readexactly header_len) split ∙ unfold pack_header be32 in twelve)
      (check_header-pack t (length encoded) small k) (readexactly-append encoded rest)
