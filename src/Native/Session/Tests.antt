-- ===== src/Native/Session/Tests.antt =====
-- A session of an INIT and a PING, with a server that counts frames.
use iicp_client_python.Prelude.{
  ℕ, ◌+◌, ◌≡◌, ◌≢◌, refl, false, not, some, List, [], ◌∷◌, ◌++◌, arith, All, ◌==◌, take, drop,
}
use iicp_client_python.Native.Frames.{
  IicpFrame, close_type, encode, pack_header, be32, stable_task_message_type_error,
}
use iicp_client_python.Native.Session.{Dispatch, session, connection_ended, out_of_turns}
use iicp_client_python.Native.Session.Chunks.{session_chunks}
use iicp_client_python.Native.Session.Handshake.{
  Valid, Opens, session_dispatches, session_terminates,
}
use iicp_client_python.Native.Session.Delivery.{frames_delivered}

abbrev counting : Dispatch ℕ
counting f s = (some (not (f.msg_type == close_type)), s + 1)

abbrev init_frame : IicpFrame
init_frame = record { version = 1; msg_type = 1; flags = 0; payload = 7 ∷ [] }

abbrev ping_frame : IicpFrame
ping_frame = record { version = 1; msg_type = 9; flags = 0; payload = [] }

abbrev init_bytes : List ℕ
init_bytes = b'I' ∷ b'I' ∷ b'C' ∷ b'P' ∷ 1 ∷ 1 ∷ 0 ∷ 0 ∷ 0 ∷ 0 ∷ 0 ∷ 1 ∷ 7 ∷ []

abbrev ping_bytes : List ℕ
ping_bytes = b'I' ∷ b'I' ∷ b'C' ∷ b'P' ∷ 1 ∷ 9 ∷ 0 ∷ 0 ∷ 0 ∷ 0 ∷ 0 ∷ 0 ∷ []

-- cut inside both headers
abbrev three_chunks : List (List ℕ)
three_chunks = take 5 init_bytes ∷ (drop 5 init_bytes ++ take 3 ping_bytes) ∷ drop 3 ping_bytes ∷ []

abbrev one_chunk : List (List ℕ)
one_chunk = (init_bytes ++ ping_bytes) ∷ []

frames_delivered_example :
    session counting three_chunks 0
    ≡ record { dispatched = init_frame ∷ ping_frame ∷ []; server = 2; closing = connection_ended }
unfolding encode pack_header be32 stable_task_message_type_error
frames_delivered_example =
    frames_delivered counting (init_frame ∷ ping_frame ∷ []) (init_bytes ∷ ping_bytes ∷ [])
      three_chunks 0 2 (refl, (refl, tt)) (refl, (refl, tt)) (refl, ((λ e. ground arith), tt)) refl
      (omega arith, (omega arith, (omega arith, tt))) refl

session_chunks_example : session counting three_chunks 0 ≡ session counting one_chunk 0
session_chunks_example =
    session_chunks counting three_chunks one_chunk 0 (omega arith, (omega arith, (omega arith, tt)))
      (omega arith, tt) refl

session_dispatches_example :
    All Valid (session counting one_chunk 0).dispatched
    × Opens false (session counting one_chunk 0).dispatched
session_dispatches_example = session_dispatches counting one_chunk 0 (omega arith, tt)

session_terminates_example : (session counting one_chunk 0).closing ≢ out_of_turns
session_terminates_example = session_terminates counting one_chunk 0 (omega arith, tt)
