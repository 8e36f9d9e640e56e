-- ===== src/Native/Session.antt =====
-- `IicpTcpServer._session` of iicp_tcp.py: from the chunks that the socket delivers to the frames
-- that are dispatched. The list of the chunks ends where the peer ends the connection. What
-- `_dispatch` does is a parameter.
pub mod Buffers
pub mod Chunks
pub mod Handshake
pub mod Delivery
mod Tests
use iicp_client_python.Prelude.{
  ℕ, zero, suc, ◌+◌, ◌-◌, Bool, true, false, not, ◌&&◌, ◌||◌, Option, none, some, List, [], ◌∷◌,
  ◌++◌, ◌==◌, ltb, leb, length, take, drop, join, if◌then◌else◌, is_some,
}
use iicp_client_python.Prelude.Exec.{Result, ok, err}
use iicp_client_python.Native.Frames.{
  IicpFrame, FrameError, framing_version, header_len, max_frame_payload, init_type, is_magic,
  of_be32, decode, stable_task_message_type_error,
}

-- Why a session ended; `session_error` is an exception inside `_dispatch`.
pub data Closing : Type 0 where
  connection_ended invalid_magic_close version_close type_close size_close decode_close : Closing
  handshake_close dispatch_close session_error out_of_turns : Closing

-- What `_dispatch` does to the server: the answer says whether the connection is kept.
abbrev pub Dispatch : Type 0 → Type 0
Dispatch S = IicpFrame → S → Option Bool × S

pub record Session (S : Type 0) : Type 0 where
  pub dispatched : List IicpFrame
  pub server : S
  pub closing : Closing

-- `reader.readexactly(n)`: the bytes, and the chunks behind them
abbrev pub grown : List ℕ → Option (List ℕ × List (List ℕ)) → Option (List ℕ × List (List ℕ))
grown c none = none
grown c (some (bytes, rest)) = some (c ++ bytes, rest)

unfoldable pub readexactly : ℕ → List (List ℕ) → Option (List ℕ × List (List ℕ))
readexactly n [] = if n == 0 then some ([], []) else none
readexactly n (c ∷ cs) =
    let rest = readexactly (n - length c) cs in
    if ltb n (length c) then some (take n c, drop n c ∷ cs) else grown c rest

-- `while len(buf) < n`: reads until the buffer has n bytes; `none` is the return at the end
unfoldable pub fill : ℕ → List ℕ → List (List ℕ) → Option (List ℕ × List (List ℕ))
fill n buf [] = if leb n (length buf) then some (buf, []) else none
fill n buf (c ∷ cs) =
    let more = fill n (buf ++ c) cs in
    if leb n (length buf) then some (buf, c ∷ cs) else if length c == 0 then none else more

-- the checks on the header, and the number of bytes of the frame
unfoldable pub peek : List ℕ → Result Closing (ℕ × ℕ)
peek (m₀ ∷ m₁ ∷ m₂ ∷ m₃ ∷ version ∷ msg_type ∷ flags ∷ reserved ∷ l₀ ∷ l₁ ∷ l₂ ∷ l₃ ∷ rest) =
    let payload_len = of_be32 l₀ l₁ l₂ l₃ in
    if not (is_magic m₀ m₁ m₂ m₃)
    then err invalid_magic_close
    else if not (version == framing_version)
    then err version_close
    else if is_some (stable_task_message_type_error msg_type)
    then err type_close
    else if ltb max_frame_payload payload_len
    then err size_close
    else ok (msg_type, header_len + payload_len)
peek _ = err connection_ended

-- before the first INIT nothing else is taken, and after it no second one
unfoldable pub handshake_fails : Bool → ℕ → Bool
handshake_fails initialized msg_type =
    (not initialized && not (msg_type == init_type)) || (initialized && msg_type == init_type)

-- `magic == IICP_MAGIC`, for four bytes
abbrev pub magic_matches : List ℕ → Bool
magic_matches (a ∷ b ∷ c ∷ d ∷ []) = is_magic a b c d
magic_matches _ = false

module _ {S : Type 0} (dispatch : Dispatch S) where
  abbrev pub closed : Closing → S → Session S
  closed why s = record { dispatched = []; server = s; closing = why }

  abbrev pub logged : IicpFrame → Session S → Session S
  logged f r = record r { dispatched = f ∷ r.dispatched }

  -- what follows a dispatched frame
  abbrev pub keep_open : (S → Session S) → Option Bool × S → Session S
  keep_open again (none, s) = closed session_error s
  keep_open again (some true, s) = again s
  keep_open again (some false, s) = closed dispatch_close s

  abbrev pub Again : Type 0
  Again = List ℕ → List (List ℕ) → S → Session S

  -- after `decode`: the buffer without the frame, the handshake, the dispatch
  abbrev pub with_frame :
      Again → Bool → ℕ → List ℕ → List (List ℕ) → Result FrameError (IicpFrame × ℕ) → S → Session S
  with_frame again initialized msg_type buf chunks (err e) s = closed decode_close s
  with_frame again initialized msg_type buf chunks (ok (f, consumed)) s =
      if handshake_fails initialized msg_type
      then closed handshake_close s
      else logged f (keep_open (again (drop consumed buf) chunks) (dispatch f s))

  abbrev pub with_body : Again → Bool → ℕ → Option (List ℕ × List (List ℕ)) → S → Session S
  with_body again initialized msg_type none s = closed connection_ended s
  with_body again initialized msg_type (some (buf, chunks)) s =
      with_frame again initialized msg_type buf chunks (decode buf) s

  abbrev pub with_length :
      Again → Bool → List ℕ → List (List ℕ) → Result Closing (ℕ × ℕ) → S → Session S
  with_length again initialized buf chunks (err why) s = closed why s
  with_length again initialized buf chunks (ok (msg_type, total)) s =
      with_body again initialized msg_type (fill total buf chunks) s

  abbrev pub with_header : Again → Bool → Option (List ℕ × List (List ℕ)) → S → Session S
  with_header again initialized none s = closed connection_ended s
  with_header again initialized (some (buf, chunks)) s =
      with_length again initialized buf chunks (peek buf) s

  -- the first argument bounds the turns of the loop
  unfoldable pub session_loop : ℕ → Bool → List ℕ → List (List ℕ) → S → Session S
  session_loop zero initialized buf chunks s = closed out_of_turns s
  session_loop (suc turns) initialized buf chunks s =
      with_header (session_loop turns true) initialized (fill header_len buf chunks) s

  abbrev pub with_rest : ℕ → List ℕ → Option (List ℕ × List (List ℕ)) → S → Session S
  with_rest turns magic none s = closed connection_ended s
  with_rest turns magic (some (rest, chunks)) s = session_loop turns false (magic ++ rest) chunks s

  abbrev pub with_magic : ℕ → Option (List ℕ × List (List ℕ)) → S → Session S
  with_magic turns none s = closed connection_ended s
  with_magic turns (some (magic, chunks)) s =
      if magic_matches magic
      then with_rest turns magic (readexactly (header_len - 4) chunks) s
      else closed invalid_magic_close s

  -- every turn takes a header of 12 bytes at least
  unfoldable pub session : List (List ℕ) → S → Session S
  session chunks s = with_magic (suc (length (join chunks))) (readexactly 4 chunks) s
