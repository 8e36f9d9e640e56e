-- ===== src/Native/Session/Chunks.antt =====
-- `IicpTcpServer._session` of iicp_tcp.py, for the same bytes in other chunks.
use iicp_client_python.Prelude.{
  ℕ, zero, suc, ◌≤◌, ◌≡◌, refl, ap, sym, ◌∙◌, inl, inr, Bool, true, false, Option, none, some, List,
  [], ◌++◌, arith, All, length, take, drop, join, ltb, take-length-append, drop-length-append,
  drop-append, if◌then◌else◌, Option-cases, Bool-cases,
}
use mathlib.Core.List.{append_assoc, append-nil}
use iicp_client_python.Prelude.Exec.{Result, ok, err}
use iicp_client_python.Native.Frames.{IicpFrame, FrameError, header_len, decode}
use iicp_client_python.Native.Session.{
  logged, keep_open, with_body, with_length, with_header, with_frame, Closing, Dispatch, Session,
  readexactly, fill, peek, handshake_fails, session_loop, session, closed, with_rest, with_magic,
  magic_matches, connection_ended, invalid_magic_close,
}
use iicp_client_python.Native.Session.Buffers.{
  Chunk, Filled, fill_enough, fill-some, fill-none, fill_short, Filled-join, peek-append, Arrived,
  peek-Arrived, Taken, readexactly_short, readexactly-Taken,
}

module _ {S : Type 0} (dispatch : Dispatch S) where
  -- a loop that looks only at the bytes
  abbrev Steady : (List ℕ → List (List ℕ) → S → Session S) → Type 0
  Steady again =
      (buf : List ℕ) (cs : List (List ℕ)) (s : S)
      → All Chunk cs
      → again buf cs s ≡ again (buf ++ join cs) [] s

  keep_open-Steady :
      (again : List ℕ → List (List ℕ) → S → Session S) (buf : List ℕ) (cs : List (List ℕ))
      (f : IicpFrame) (r : Option Bool × S)
      → Steady again
      → All Chunk cs
      → logged dispatch f (keep_open dispatch (again buf cs) r)
        ≡ logged dispatch f (keep_open dispatch (again (buf ++ join cs) []) r)
  keep_open-Steady again buf cs f (none, s) steady h = refl
  keep_open-Steady again buf cs f (some true, s) steady h =
      ap (logged dispatch f) (steady buf cs s h)
  keep_open-Steady again buf cs f (some false, s) steady h = refl

  -- a frame that has arrived
  with_frame-join :
      (again : List ℕ → List (List ℕ) → S → Session S) (initialized : Bool) (msg_type total : ℕ)
      (buf : List ℕ) (cs : List (List ℕ)) (f : IicpFrame) (s : S)
      → Steady again
      → All Chunk cs
      → total ≤ length buf
      → with_frame dispatch again initialized msg_type buf cs (ok (f, total)) s
        ≡ with_frame dispatch again initialized msg_type (buf ++ join cs) [] (ok (f, total)) s
  with_frame-join again initialized msg_type total buf cs f s steady h k =
      elim (Bool-cases (handshake_fails initialized msg_type)) [
        | inl e ↦ rw e refl
        | inr e ↦ rw e (
            keep_open-Steady again (drop total buf) cs f (dispatch f s) steady h
            ∙ ap (λ b. logged dispatch f (keep_open dispatch (again b []) (dispatch f s)))
                (sym (drop-append total buf (join cs) k)))
      ]

  -- a frame whose header was read
  with_body-join :
      (again : List ℕ → List (List ℕ) → S → Session S) (initialized : Bool) (msg_type total : ℕ)
      (buf : List ℕ) (cs : List (List ℕ)) (s : S)
      → Steady again
      → All Chunk cs
      → peek buf ≡ ok (msg_type, total)
      → header_len ≤ length buf
      → with_body dispatch again initialized msg_type (fill total buf cs) s
        ≡ with_body dispatch again initialized msg_type (fill total (buf ++ join cs) []) s
  with_body-join again initialized msg_type total buf cs s steady h k l =
      elim (Option-cases (fill total buf cs)) [
        | inl e ↦
            ap (λ r. with_body dispatch again initialized msg_type r s)
              (e ∙ sym (fill_short total (buf ++ join cs) (fill-none total buf cs h e)))
        | inr ((buf', cs'), e) ↦
            let r : Filled total buf cs (buf', cs') = fill-some total buf cs (buf', cs') h e in
            let (all, same) = Filled-join total buf cs (buf', cs') r in
            let arrived : Arrived msg_type total buf' =
              peek-Arrived buf' msg_type total (ap peek r.more.1 ∙ peek-append buf r.more.0 l ∙ k)
                r.enough in
            let go = λ (o : Option (List ℕ × List (List ℕ))).
              with_body dispatch again initialized msg_type o s in
            let frame = λ (b : List ℕ) (c : List (List ℕ)) (d : Result FrameError (IicpFrame × ℕ)).
              with_frame dispatch again initialized msg_type b c d s in
            ap go e
            ∙ ap (frame buf' cs') (ap decode (sym (append-nil buf')) ∙ arrived.decodes [])
            ∙ with_frame-join again initialized msg_type total buf' cs' arrived.frame s steady
                r.chunks r.enough
            ∙ ap (frame (buf' ++ join cs') []) (sym (arrived.decodes (join cs')))
            ∙ ap (λ (b : List ℕ). go (some (b, []))) same
            ∙ ap go (sym (fill_enough total (buf ++ join cs) [] all))
      ]

  with_length-join :
      (again : List ℕ → List (List ℕ) → S → Session S) (initialized : Bool) (buf : List ℕ)
      (cs : List (List ℕ)) (s : S) (p : Result Closing (ℕ × ℕ))
      → peek buf ≡ p
      → Steady again
      → All Chunk cs
      → header_len ≤ length buf
      → with_length dispatch again initialized buf cs p s
        ≡ with_length dispatch again initialized (buf ++ join cs) [] p s
  with_length-join again initialized buf cs s (err why) e steady h l = refl
  with_length-join again initialized buf cs s (ok (msg_type, total)) e steady h l =
      with_body-join again initialized msg_type total buf cs s steady h e l

  with_header-join :
      (again : List ℕ → List (List ℕ) → S → Session S) (initialized : Bool) (buf : List ℕ)
      (cs : List (List ℕ)) (s : S)
      → Steady again
      → All Chunk cs
      → with_header dispatch again initialized (fill header_len buf cs) s
        ≡ with_header dispatch again initialized (fill header_len (buf ++ join cs) []) s
  with_header-join again initialized buf cs s steady h =
      elim (Option-cases (fill header_len buf cs)) [
        | inl e ↦
            ap (λ r. with_header dispatch again initialized r s)
              (e ∙ sym (fill_short header_len (buf ++ join cs) (fill-none header_len buf cs h e)))
        | inr ((buf', cs'), e) ↦
            let r : Filled header_len buf cs (buf', cs') =
              fill-some header_len buf cs (buf', cs') h e in
            let (all, same) = Filled-join header_len buf cs (buf', cs') r in
            let go =
              λ (o : Option (List ℕ × List (List ℕ))). with_header dispatch again initialized o s in
            ap go e
            ∙ with_length-join again initialized buf' cs' s (peek buf') refl steady r.chunks
                r.enough
            ∙ ap (λ o. with_length dispatch again initialized (buf' ++ join cs') [] o s)
                (sym (peek-append buf' (join cs') r.enough))
            ∙ ap (λ (b : List ℕ). go (some (b, []))) same
            ∙ ap go (sym (fill_enough header_len (buf ++ join cs) [] all))
      ]

  session_loop-join :
      (turns : ℕ) (initialized : Bool) → Steady (session_loop dispatch turns initialized)
  unfolding session_loop
  session_loop-join zero initialized buf cs s h = refl
  session_loop-join (suc turns) initialized buf cs s h =
      with_header-join (session_loop dispatch turns true) initialized buf cs s
        (session_loop-join turns true) h

  -- the first four bytes and the others, as one chunk
  abbrev pub from_magic : ℕ → List ℕ → List ℕ → S → Session S
  from_magic turns magic rest s =
      if magic_matches magic
      then (if ltb (length rest) 8
          then closed dispatch connection_ended s
          else session_loop dispatch turns false (magic ++ rest) [] s)
      else closed dispatch invalid_magic_close s

  abbrev pub at_once : List ℕ → S → Session S
  at_once bytes s =
      if ltb (length bytes) 4
      then closed dispatch connection_ended s
      else from_magic (suc (length bytes)) (take 4 bytes) (drop 4 bytes) s

  with_rest-join :
      (turns : ℕ) (magic : List ℕ) (cs : List (List ℕ)) (s : S)
      → All Chunk cs
      → with_rest dispatch turns magic (readexactly 8 cs) s ≡ (
          if ltb (length (join cs)) 8
          then closed dispatch connection_ended s
          else session_loop dispatch turns false (magic ++ join cs) [] s)
  with_rest-join turns magic cs s h = elim (Bool-cases (ltb (length (join cs)) 8)) [
    | inl e ↦ rw (readexactly_short 8 cs (ground arith), e) refl
    | inr e ↦
        let (r, f, t) = readexactly-Taken 8 cs h (ground arith) in
        rw (f, e)
          (session_loop-join turns false (magic ++ r.0) r.1 s t.chunks
            ∙ ap (λ (b : List ℕ). session_loop dispatch turns false b [] s)
                (append_assoc magic r.0 (join r.1) ∙ ap (λ (b : List ℕ). magic ++ b) t.same))
  ]

  with_magic-join :
      (turns : ℕ) (cs : List (List ℕ)) (r : List ℕ × List (List ℕ)) (s : S)
      → Taken 4 cs r
      → with_magic dispatch turns (some r) s
        ≡ from_magic turns (take 4 (join cs)) (drop 4 (join cs)) s
  with_magic-join turns cs r s t =
      let first : r.0 ≡ take 4 (join cs) =
        sym (ap (λ n. take n (r.0 ++ join r.1)) (sym t.size) ∙ take-length-append r.0 (join r.1))
        ∙ ap (take 4) t.same in
      let others : join r.1 ≡ drop 4 (join cs) =
        sym (ap (λ n. drop n (r.0 ++ join r.1)) (sym t.size) ∙ drop-length-append r.0 (join r.1))
        ∙ ap (drop 4) t.same in
      elim (Bool-cases (magic_matches r.0)) [
        | inl e ↦ rw e (with_rest-join turns r.0 r.1 s t.chunks)
        | inr e ↦ rw e refl
      ]
      ∙ ap (λ (m : List ℕ). from_magic turns m (join r.1) s) first
      ∙ ap (λ (b : List ℕ). from_magic turns (take 4 (join cs)) b s) others

  pub session-join :
      (cs : List (List ℕ)) (s : S) → All Chunk cs → session dispatch cs s ≡ at_once (join cs) s
  unfolding session
  session-join cs s h = elim (Bool-cases (ltb (length (join cs)) 4)) [
    | inl e ↦ rw (readexactly_short 4 cs (ground arith), e) refl
    | inr e ↦
        let (r, f, t) = readexactly-Taken 4 cs h (ground arith) in
        ap (λ o. with_magic dispatch (suc (length (join cs))) o s) f
        ∙ with_magic-join (suc (length (join cs))) cs r s t
        ∙ rw e refl
  ]

  -- A session depends on the bytes alone, not on how the socket cuts them into chunks: for two
  -- deliveries of the same bytes, in chunks that are not empty, the same frames are dispatched, the server ends in the
  -- same state, and the session is closed for the same reason.
  pub session_chunks :
      (cs ds : List (List ℕ)) (s : S)
      → All Chunk cs
      → All Chunk ds
      → join cs ≡ join ds
      → session dispatch cs s ≡ session dispatch ds s
  session_chunks cs ds s h k e =
      session-join cs s h ∙ ap (λ (b : List ℕ). at_once b s) e ∙ sym (session-join ds s k)
