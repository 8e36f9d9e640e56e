-- ===== src/Native/Session/Delivery.antt =====
-- Frames of `IicpFrame.encode` that reach `IicpTcpServer._session` of iicp_tcp.py.
use iicp_client_python.Prelude.{
  ℕ, zero, suc, ◌+◌, ◌≤◌, ◌<◌, ◌≡◌, refl, ap, sym, ◌∙◌, Bool, true, false, Option, none, some, List,
  [], ◌∷◌, ◌++◌, arith, All, length, take, drop, join, ltb, length-append, length-drop, take-drop,
  drop-length-append,
}
use mathlib.Core.List.{append_assoc}
use mathlib.Core.Option.{some-injective}
use iicp_client_python.Prelude.Exec.{ok}
use iicp_client_python.Native.Frames.{
  IicpFrame, header_len, max_frame_payload, encode, pack_header, be32,
  stable_task_message_type_error,
}
use iicp_client_python.Native.Frames.RoundTrip.{decode-encode, encode_ok, be32_inverse}
use iicp_client_python.Native.Session.{
  Dispatch, Session, logged, keep_open, peek, handshake_fails, session_loop, session,
  connection_ended, magic_matches,
}
use iicp_client_python.Native.Session.Chunks.{session-join, at_once}
use iicp_client_python.Native.Session.Buffers.{Chunk, fill_enough, fill_short}
use iicp_client_python.Native.Session.Handshake.{Opens}

-- the frames and their bytes
abbrev pub Encoded : List IicpFrame → List (List ℕ) → Type 0
Encoded [] [] = Unit
Encoded (f ∷ fs) (b ∷ bs) = (encode f ≡ ok b) × Encoded fs bs
Encoded _ _ = ⊥

abbrev pub Stable : IicpFrame → Type 0
Stable f = stable_task_message_type_error f.msg_type ≡ none

-- A dispatch of all the frames that keeps the connection open.
abbrev pub if_open : {S : Type 0} → (S → Option S) → Option Bool × S → Option S
if_open next (some true, t) = next t
if_open next (some false, t) = none
if_open next (none, t) = none

abbrev pub serve_all : {S : Type 0} → Dispatch S → List IicpFrame → S → Option S
serve_all dispatch [] s = some s
serve_all dispatch (f ∷ fs) s = if_open (serve_all dispatch fs) (dispatch f s)

peek-pack :
    (t fl n : ℕ) (ys : List ℕ)
    → n ≤ max_frame_payload
    → stable_task_message_type_error t ≡ none
    → peek (pack_header 1 t fl n ++ ys) ≡ ok (t, header_len + n)
unfolding peek pack_header be32
peek-pack t fl n ys h k = ground (arith, be32_inverse n h)

-- the header that `_session` sees at the front of an encoded frame
record Front (f : IicpFrame) (b : List ℕ) : Type 0 where
  peeks : (rest : List ℕ) → peek (b ++ rest) ≡ ok (f.msg_type, length b)
  long : header_len ≤ length b
  magic : (rest : List ℕ) → magic_matches (take 4 (b ++ rest)) ≡ true

encode-Front : (f : IicpFrame) (b : List ℕ) → encode f ≡ ok b → Stable f → Front f b
encode-Front f b h k =
    let (v, small, _, _, same) = encode_ok f b h in
    let n : ℕ = length f.payload in
    let version : pack_header f.version f.msg_type f.flags n ≡ pack_header 1 f.msg_type f.flags n =
      ap (λ k. pack_header k f.msg_type f.flags n) v in
    let whole : (rest : List ℕ)
        → b ++ rest ≡ pack_header 1 f.msg_type f.flags n ++ (f.payload ++ rest) =
      λ rest.
        ap (λ (c : List ℕ). c ++ rest) same
        ∙ append_assoc (pack_header f.version f.msg_type f.flags n) f.payload rest
        ∙ ap (λ (c : List ℕ). c ++ (f.payload ++ rest)) version in
    let size : header_len + n ≡ length b =
      sym (ap length same ∙ unfold pack_header be32 in omega arith) in
    record {
      peeks = λ rest.
          ap peek (whole rest)
          ∙ peek-pack f.msg_type f.flags n (f.payload ++ rest) small k
          ∙ ap (λ (l : ℕ). ok (f.msg_type, l)) size;
      long = omega (arith, size);
      magic = λ rest.
          ap (λ (c : List ℕ). magic_matches (take 4 c)) (whole rest) ∙ unfold pack_header in refl;
    }

Opens-open :
    (initialized : Bool) (f : IicpFrame) (fs : List IicpFrame)
    → Opens initialized (f ∷ fs)
    → handshake_fails initialized f.msg_type ≡ false
unfolding handshake_fails
Opens-open true f fs o = ground (arith, o.0)
Opens-open false f fs o = ground (arith, o.0)

Opens-true :
    (initialized : Bool) (f : IicpFrame) (fs : List IicpFrame)
    → Opens initialized (f ∷ fs)
    → Opens true fs
Opens-true true f fs o = o.1
Opens-true false f fs o = o.1

ltb-false : (a b : ℕ) → b ≤ a → ltb a b ≡ false
ltb-false a b h = ground arith

Encoded-length :
    (fs : List IicpFrame) (bs : List (List ℕ))
    → Encoded fs bs
    → All Stable fs
    → length fs ≤ length (join bs)
Encoded-length [] [] e k = omega arith
Encoded-length (f ∷ fs) (b ∷ bs) e k =
    let front : Front f b = encode-Front f b e.0 k.0 in
    omega (arith, front.long, length-append b (join bs), Encoded-length fs bs e.1 k.1)
Encoded-length [] (b ∷ bs) e k = absurd e
Encoded-length (f ∷ fs) [] e k = absurd e

module _ {S : Type 0} (dispatch : Dispatch S) where
  abbrev all_served : List IicpFrame → S → Session S
  all_served fs t = record { dispatched = fs; server = t; closing = connection_ended }

  step_kept :
      (f : IicpFrame) (fs : List IicpFrame) (r : Option Bool × S) (t : S) (again : S → Session S)
      → if_open (serve_all dispatch fs) r ≡ some t
      → ((u : S) → serve_all dispatch fs u ≡ some t → again u ≡ all_served fs t)
      → logged dispatch f (keep_open dispatch again r) ≡ all_served (f ∷ fs) t
  step_kept f fs (some true, u) t again h more = ap (logged dispatch f) (more u h)
  step_kept f fs (some false, u) t again h more = cc
  step_kept f fs (none, u) t again h more = cc

  loop_serves :
      (fs : List IicpFrame) (bs : List (List ℕ)) (turns : ℕ) (initialized : Bool) (s t : S)
      → length fs < turns
      → Encoded fs bs
      → All Stable fs
      → Opens initialized fs
      → serve_all dispatch fs s ≡ some t
      → session_loop dispatch turns initialized (join bs) [] s ≡ all_served fs t
  unfolding session_loop
  loop_serves fs bs zero initialized s t h e k o r = absurd (omega arith)
  loop_serves [] [] (suc turns) initialized s t h e k o r =
      rw (fill_short header_len [] (omega arith)) (ap (all_served []) (some-injective s t r))
  loop_serves (f ∷ fs) (b ∷ bs) (suc turns) initialized s t h e k o r =
      let front : Front f b = encode-Front f b e.0 k.0 in
      let rest : List ℕ = join bs in
      let size : length b ≤ length (b ++ rest) = omega (arith, length-append b rest) in
      rw
        (
          fill_enough header_len (b ++ rest) [] (omega (arith, front.long)),
          front.peeks rest,
          fill_enough (length b) (b ++ rest) [] size,
          decode-encode f b rest e.0,
          Opens-open initialized f fs o,
          drop-length-append b rest,
        )
        (step_kept f fs (dispatch f s) t (session_loop dispatch turns true rest []) r (λ u q.
          loop_serves fs bs turns true u t (omega arith) e.1 k.1 (Opens-true initialized f fs o) q))
  loop_serves [] (b ∷ bs) turns initialized s t h e k o r = absurd e
  loop_serves (f ∷ fs) [] turns initialized s t h e k o r = absurd e

  at_once_serves :
      (fs : List IicpFrame) (bs : List (List ℕ)) (s t : S)
      → Encoded fs bs
      → All Stable fs
      → Opens false fs
      → serve_all dispatch fs s ≡ some t
      → at_once dispatch (join bs) s ≡ all_served fs t
  at_once_serves [] [] s t e k o r = ap (all_served []) (some-injective s t r)
  at_once_serves (f ∷ fs) (b ∷ bs) s t e k o r =
      let front : Front f b = encode-Front f b e.0 k.0 in
      let rest : List ℕ = join bs in
      let long : header_len ≤ length (b ++ rest) =
        omega (arith, front.long, length-append b rest) in
      rw
        (
          ltb-false (length (b ++ rest)) 4 (omega arith),
          front.magic rest,
          ltb-false (length (drop 4 (b ++ rest))) 8 (omega (arith, length-drop 4 (b ++ rest))),
          take-drop,
        )
        (loop_serves (f ∷ fs) (b ∷ bs) (suc (length (b ++ rest))) false s t
          (omega (arith, Encoded-length (f ∷ fs) (b ∷ bs) e k)) e k o r)
  at_once_serves [] (b ∷ bs) s t e k o r = absurd e
  at_once_serves (f ∷ fs) [] s t e k o r = absurd e

  -- Frames that a peer encodes are received: if the bytes of the frames arrive, in whatever chunks
  -- that are not empty, the frames are of the stable task profile and INIT is the first of them and no later
  -- one, and `_dispatch` keeps the connection open for each of them, then exactly these frames are dispatched in
  -- their order, the server ends in the state after them, and the session ends with the connection.
  pub frames_delivered :
      (fs : List IicpFrame) (bs cs : List (List ℕ)) (s t : S)
      → Encoded fs bs
      → All Stable fs
      → Opens false fs
      → serve_all dispatch fs s ≡ some t
      → All Chunk cs
      → join cs ≡ join bs
      → session dispatch cs s ≡ record { dispatched = fs; server = t; closing = connection_ended }
  frames_delivered fs bs cs s t e k o r h same =
      session-join dispatch cs s h
      ∙ ap (λ (b : List ℕ). at_once dispatch b s) same
      ∙ at_once_serves fs bs s t e k o r
