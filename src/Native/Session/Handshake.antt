-- ===== src/Native/Session/Handshake.antt =====
-- The frames that `IicpTcpServer._session` of iicp_tcp.py dispatches.
use iicp_client_python.Prelude.{
  ℕ, zero, suc, ◌≤◌, ◌<◌, ◌≡◌, ◌≢◌, refl, ap, sym, ◌∙◌, inl, inr, Bool, true, false, Option, none,
  some, List, [], ◌∷◌, ◌++◌, arith, All, length, take, drop, join, leb, ltb, length-drop, take-drop,
  Bool-cases,
}
use mathlib.Core.List.{append-nil}
use iicp_client_python.Prelude.Exec.{Result, ok, err}
use iicp_client_python.Native.Frames.{
  IicpFrame, header_len, max_frame_payload, framing_version, init_type, decode,
  stable_task_message_type_error,
}
use iicp_client_python.Native.Frames.RoundTrip.{decode_bounds}
use iicp_client_python.Native.Session.{
  Closing, Dispatch, Session, closed, logged, keep_open, with_frame, with_length, peek,
  handshake_fails, session_loop, session, out_of_turns, connection_ended, invalid_magic_close,
  magic_matches, dispatch_close, session_error, handshake_close,
}
use iicp_client_python.Native.Session.Chunks.{session-join}
use iicp_client_python.Native.Session.Buffers.{
  Chunk, Arrived, peek-Arrived, fill_enough, fill_short,
}

peek-why : (bytes : List ℕ) (why : Closing) → peek bytes ≡ err why → why ≢ out_of_turns
unfolding peek
peek-why bytes why h k = ground arith

module _ {κ} {S : Type 0} (dispatch : Dispatch S) (P : Bool → List ℕ → Session S → Type κ)
    (ended : (initialized : Bool) (bytes : List ℕ) (why : Closing) (s : S)
      → why ≢ out_of_turns
      → P initialized bytes (closed dispatch why s))
    (served : (initialized : Bool) (bytes : List ℕ) (msg_type total : ℕ)
        (a : Arrived msg_type total bytes) (r : Session S)
      → handshake_fails initialized msg_type ≡ false
      → total ≤ length bytes
      → P true (drop total bytes) r
      → P initialized bytes (logged dispatch a.frame r)) where
  keep_open-induct :
      (initialized : Bool) (bytes : List ℕ) (msg_type total : ℕ) (a : Arrived msg_type total bytes)
      (again : S → Session S) (r : Option Bool × S)
      → handshake_fails initialized msg_type ≡ false
      → total ≤ length bytes
      → ((s : S) → P true (drop total bytes) (again s))
      → P initialized bytes (logged dispatch a.frame (keep_open dispatch again r))
  keep_open-induct initialized bytes msg_type total a again (none, s) h k more =
      served initialized bytes msg_type total a _ h k (ended true _ session_error s (λ e. cc))
  keep_open-induct initialized bytes msg_type total a again (some false, s) h k more =
      served initialized bytes msg_type total a _ h k (ended true _ dispatch_close s (λ e. cc))
  keep_open-induct initialized bytes msg_type total a again (some true, s) h k more =
      served initialized bytes msg_type total a _ h k (more s)

  with_frame-induct :
      (again : List ℕ → List (List ℕ) → S → Session S) (initialized : Bool) (bytes : List ℕ)
      (msg_type total : ℕ) (a : Arrived msg_type total bytes) (s : S)
      → total ≤ length bytes
      → ((t : S) → P true (drop total bytes) (again (drop total bytes) [] t))
      → P initialized bytes
          (with_frame dispatch again initialized msg_type bytes [] (ok (a.frame, total)) s)
  with_frame-induct again initialized bytes msg_type total a s k more =
      elim (Bool-cases (handshake_fails initialized msg_type)) [
        | inl e ↦ rw e (ended initialized bytes handshake_close s (λ l. cc))
        | inr e ↦ rw e (
            keep_open-induct initialized bytes msg_type total a (again (drop total bytes) [])
              (dispatch a.frame s) e k more)
      ]

  with_length-induct :
      (again : List ℕ → List (List ℕ) → S → Session S) (initialized : Bool) (bytes : List ℕ) (s : S)
      (p : Result Closing (ℕ × ℕ))
      → peek bytes ≡ p
      → ((n : ℕ) (t : S)
          → header_len ≤ n
          → n ≤ length bytes
          → P true (drop n bytes) (again (drop n bytes) [] t))
      → P initialized bytes (with_length dispatch again initialized bytes [] p s)
  with_length-induct again initialized bytes s (err why) e more =
      ended initialized bytes why s (peek-why bytes why e)
  with_length-induct again initialized bytes s (ok (msg_type, total)) e more =
      elim (Bool-cases (leb total (length bytes))) [
        | inl k ↦
            let a : Arrived msg_type total bytes =
              peek-Arrived bytes msg_type total e (ground arith) in
            let whole : decode bytes ≡ ok (a.frame, total) =
              ap decode (sym (append-nil bytes)) ∙ a.decodes [] in
            rw (fill_enough total bytes [] (ground arith), whole)
              (with_frame-induct again initialized bytes msg_type total a s (ground arith)
                (λ t. more total t a.header (ground arith)))
        | inr k ↦
            rw (fill_short total bytes (ground arith))
              (ended initialized bytes connection_ended s (λ l. cc))
      ]

  -- Enough turns, and what holds at every end and before every frame holds of the session.
  pub session_loop-induct :
      (turns : ℕ) (initialized : Bool) (bytes : List ℕ) (s : S)
      → length bytes < turns
      → P initialized bytes (session_loop dispatch turns initialized bytes [] s)
  unfolding session_loop
  session_loop-induct zero initialized bytes s h = absurd (omega arith)
  session_loop-induct (suc turns) initialized bytes s h =
      elim (Bool-cases (leb header_len (length bytes))) [
        | inl k ↦ rw (fill_enough header_len bytes [] (ground arith)) (
            with_length-induct (session_loop dispatch turns true) initialized bytes s (peek bytes)
              refl
              (λ n t small here.
                session_loop-induct turns true (drop n bytes) t
                  (omega (arith, length-drop n bytes))))
        | inr k ↦
            rw (fill_short header_len bytes (ground arith))
              (ended initialized bytes connection_ended s (λ l. cc))
      ]

  session-induct :
      (cs : List (List ℕ)) (s : S) → All Chunk cs → P false (join cs) (session dispatch cs s)
  session-induct cs s h =
      rw (session-join dispatch cs s h) (elim (Bool-cases (ltb (length (join cs)) 4)) [
        | inl e ↦ rw e (ended false (join cs) connection_ended s (λ l. cc))
        | inr e ↦ rw e (elim (Bool-cases (magic_matches (take 4 (join cs)))) [
          | inl m ↦ rw m (elim (Bool-cases (ltb (length (drop 4 (join cs))) 8)) [
            | inl k ↦ rw k (ended false (join cs) connection_ended s (λ l. cc))
            | inr k ↦
                rw (k, take-drop)
                  (session_loop-induct (suc (length (join cs))) false (join cs) s (omega arith))
          ])
          | inr m ↦ rw m (ended false (join cs) invalid_magic_close s (λ l. cc))
        ])
      ])

-- What is known of a frame that is dispatched.
pub record Valid (f : IicpFrame) : Type 0 where
  pub version : f.version ≡ framing_version
  pub size : length f.payload ≤ max_frame_payload
  pub kind : stable_task_message_type_error f.msg_type ≡ none

-- INIT stands first, and nowhere else; after the start nowhere at all.
abbrev pub Opens : Bool → List IicpFrame → Type 0
Opens initialized [] = Unit
Opens true (f ∷ fs) = (f.msg_type ≢ init_type) × Opens true fs
Opens false (f ∷ fs) = (f.msg_type ≡ init_type) × Opens true fs

Opens-cons :
    (initialized : Bool) (f : IicpFrame) (fs : List IicpFrame)
    → handshake_fails initialized f.msg_type ≡ false
    → Opens true fs
    → Opens initialized (f ∷ fs)
unfolding handshake_fails
Opens-cons true f fs h k = (λ e. ground arith, k)
Opens-cons false f fs h k = (ground arith, k)

Arrived-Valid :
    (bytes : List ℕ) (msg_type total : ℕ) (a : Arrived msg_type total bytes) → Valid a.frame
Arrived-Valid bytes msg_type total a =
    let (v, small, _, _) = decode_bounds (bytes ++ []) a.frame total (a.decodes []) in
    record { version = v; size = small; kind = ap stable_task_message_type_error a.kind ∙ a.stable }

-- Whatever the peer sends, in chunks that are not empty: every frame that is dispatched has the supported version, a payload
-- within the limit and a type of the stable task profile, the first of them is an INIT, and no
-- later one is.
pub session_dispatches :
    {S : Type 0} (dispatch : Dispatch S) (cs : List (List ℕ)) (s : S)
    → All Chunk cs
    → All Valid (session dispatch cs s).dispatched × Opens false (session dispatch cs s).dispatched
session_dispatches dispatch cs s h =
    session-induct dispatch
      (λ initialized _ r. All Valid r.dispatched × Opens initialized r.dispatched)
      (λ _ _ _ _ _. (tt, tt))
      (λ initialized bytes msg_type total a r e _ more. (
        (Arrived-Valid bytes msg_type total a, more.0),
        Opens-cons initialized a.frame r.dispatched (ap (handshake_fails initialized) a.kind ∙ e)
            more.1,
      ))
      cs s h

-- A session comes to an end for whatever the peer sends, in chunks that are not empty: it never needs more turns than the
-- model of the loop is given, one more than there are bytes.
pub session_terminates :
    {S : Type 0} (dispatch : Dispatch S) (cs : List (List ℕ)) (s : S)
    → All Chunk cs
    → (session dispatch cs s).closing ≢ out_of_turns
session_terminates dispatch cs s h =
    session-induct dispatch (λ _ _ r. r.closing ≢ out_of_turns) (λ _ _ why _ k. k)
      (λ _ _ _ _ _ r _ _ more. more) cs s h
