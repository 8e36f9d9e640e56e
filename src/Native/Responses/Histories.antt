-- ===== src/Native/Responses/Histories.antt =====
-- Which sequences of RESPONSE frames `NativeResponseSequence` lets through.
use iicp_client_python.Prelude.{
  ℕ, ◌+◌, ◌≡◌, refl, inl, inr, Bool, true, false, not, String, some, List, [], ◌∷◌, arith, pos,
  str_eq, eq_iff, str_eq_refl, Option-cases,
}
use iicp_client_python.Prelude.Exec.{Result, ok, err}
use iicp_client_python.Prelude.Dict.{Dict}
use iicp_client_python.Native.Values.{Value, null, flag, int, text, object, field, value_eq}
use iicp_client_python.Native.Responses.{
  Code, Frame, Sequence, start, expected, status_matches, terminal_flag_fits, accept,
  accept_lifecycle, finish, is_flag,
}

text_of : (v : Value) (s : String) → value_eq v (text s) ≡ true → v ≡ text s
text_of null s h = cc
text_of (flag b) s h = cc
text_of (int n) s h = cc
text_of (text t) s h = ground (arith, eq_iff t s)
text_of (object n) s h = cc

-- The frame is the one with number `n` of the CALL with these identifiers, and `final` says whether it ends the CALL.
pub record Fits (session_id call_id task_id : String) (n : ℕ) (final : Bool) (frame : Frame)
    : Type 0 where
  pub lifecycle : Dict Value
  pub has_lifecycle : frame.lifecycle ≡ some lifecycle
  pub session : field frame.fields "session_id" ≡ text session_id
  pub call : field frame.fields "call_id" ≡ text call_id
  pub task : field lifecycle "task_id" ≡ text task_id
  pub number : value_eq (field lifecycle "sequence") (int (pos n)) ≡ true
  pub status : String
  pub has_status : field frame.fields "status" ≡ text status
  pub has_event : expected status (field lifecycle "event") ≡ true
  pub is_final : field frame.fields "is_final" ≡ flag final
  pub agrees : value_eq (flag final) (field lifecycle "is_final") ≡ true
  pub ends : final ≡ not (str_eq status "partial")

-- the state after an accepted frame
abbrev pub advanced : Sequence → Bool → Sequence
advanced s final = record s { next_sequence = s.next_sequence + 1; terminal_seen = final }

accept_guards :
    (frame : Frame) (s : Sequence) (m : Dict Value)
    → frame.lifecycle ≡ some m
    → (accept frame s).0 ≡ ok tt
    → (s.terminal_seen ≡ false)
      × (value_eq (field frame.fields "session_id") (text s.session_id) ≡ true)
      × (value_eq (field frame.fields "call_id") (text s.call_id) ≡ true)
      × (value_eq (field m "task_id") (text s.task_id) ≡ true)
      × (value_eq (field m "sequence") (int (pos s.next_sequence)) ≡ true)
      × (value_eq (field frame.fields "is_final") (field m "is_final") ≡ true)
      × (status_matches (field frame.fields "status") (field m "event") ≡ true)
      × (terminal_flag_fits (field frame.fields "status") (field frame.fields "is_final") ≡ true)
      × ((accept frame s).1 ≡ advanced s (is_flag true (field frame.fields "is_final")))
unfolding accept accept_lifecycle
accept_guards frame s m h k = ground arith

status_text :
    (v e : Value)
    → status_matches v e ≡ true
    → (status : String) × (v ≡ text status) × (expected status e ≡ true)
unfolding status_matches
status_text null e h = cc
status_text (flag b) e h = cc
status_text (int n) e h = cc
status_text (text status) e h = (status, refl, h)
status_text (object n) e h = cc

flag_of :
    (status : String) (v : Value)
    → terminal_flag_fits (text status) v ≡ true
    → v ≡ flag (not (str_eq status "partial"))
unfolding terminal_flag_fits
flag_of status v h = ground arith

-- What an accepted frame is.
record Accepted (frame : Frame) (s : Sequence) : Type 0 where
  running : s.terminal_seen ≡ false
  final : Bool
  fits : Fits s.session_id s.call_id s.task_id s.next_sequence final frame
  result : accept frame s ≡ (ok tt, advanced s final)

accept_mapping :
    (frame : Frame) (s : Sequence)
    → (accept frame s).0 ≡ ok tt
    → (m : Dict Value) × (frame.lifecycle ≡ some m)
unfolding accept
accept_mapping frame s h = elim (Option-cases frame.lifecycle) [
  | inl e ↦ ground arith
  | inr (m, e) ↦ (m, e)
]

accept-Accepted : (frame : Frame) (s : Sequence) → (accept frame s).0 ≡ ok tt → Accepted frame s
accept-Accepted frame s h =
    let (m, e) = accept_mapping frame s h in
    let (running, session, call, task, number, agrees, status, flags, after) =
      accept_guards frame s m e h in
    let (st, is_st, event) = status_text (field frame.fields "status") (field m "event") status in
    let is_final : field frame.fields "is_final" ≡ flag (not (str_eq st "partial")) =
      flag_of st (field frame.fields "is_final") (rw is_st at flags) in
    record {
      running = running;
      final = not (str_eq st "partial");
      fits = record {
        lifecycle = m;
        has_lifecycle = e;
        session = text_of (field frame.fields "session_id") s.session_id session;
        call = text_of (field frame.fields "call_id") s.call_id call;
        task = text_of (field m "task_id") s.task_id task;
        number = number;
        status = st;
        has_status = is_st;
        has_event = event;
        is_final = is_final;
        agrees = rw is_final at agrees;
        ends = refl;
      };
      result = ground (arith, h, after, is_final);
    }

-- A frame that fits is accepted while the CALL runs.
pub accept_of_Fits :
    (frame : Frame) (s : Sequence) (final : Bool)
    → s.terminal_seen ≡ false
    → Fits s.session_id s.call_id s.task_id s.next_sequence final frame
    → accept frame s ≡ (ok tt, advanced s final)
unfolding accept accept_lifecycle status_matches terminal_flag_fits
accept_of_Fits frame s final running fits =
    ground (arith, str_eq_refl s.session_id, str_eq_refl s.call_id, str_eq_refl s.task_id)

abbrev after_accept : Result Code (Unit {0}) → Result Code (Unit {0}) → Result Code (Unit {0})
after_accept (ok _) rest = rest
after_accept (err e) rest = err e

-- The frames of one CALL are accepted one by one, and then the CALL is finished.
unfoldable pub validate : List Frame → Sequence → Result Code (Unit {0})
validate [] s = (finish s).0
validate (f ∷ fs) s = let (r, t) = accept f s in let rest = validate fs t in after_accept r rest

-- What the protocol wants of the frames of a CALL, from number `n` on: consecutive numbers, and the
-- last frame, and no other, is final.
abbrev pub Legal : String → String → String → ℕ → List Frame → Type 0
Legal session_id call_id task_id n [] = ⊥
Legal session_id call_id task_id n (f ∷ []) = Fits session_id call_id task_id n true f
Legal session_id call_id task_id n (f ∷ g ∷ fs) =
    Fits session_id call_id task_id n false f × Legal session_id call_id task_id (n + 1) (g ∷ fs)

-- the tail of a legal sequence, or its end
abbrev Continues : String → String → String → ℕ → Bool → List Frame → Type 0
Continues session_id call_id task_id n final [] = final ≡ true
Continues session_id call_id task_id n final (g ∷ fs) =
    (final ≡ false) × Legal session_id call_id task_id n (g ∷ fs)

Legal-cons :
    (session_id call_id task_id : String) (n : ℕ) (final : Bool) (f : Frame) (fs : List Frame)
    → Fits session_id call_id task_id n final f
    → Continues session_id call_id task_id (n + 1) final fs
    → Legal session_id call_id task_id n (f ∷ fs)
Legal-cons a b c n final f [] h k = rw (← k) h
Legal-cons a b c n final f (g ∷ fs) h k = (rw (← k.0) h, k.1)

validate_first :
    (f : Frame) (fs : List Frame) (s : Sequence)
    → validate (f ∷ fs) s ≡ ok tt
    → ((accept f s).0 ≡ ok tt) × (validate fs (accept f s).1 ≡ ok tt)
unfolding validate
validate_first f fs s h = ground arith

sound_from :
    (fs : List Frame) (s : Sequence)
    → s.terminal_seen ≡ false
    → validate fs s ≡ ok tt
    → Legal s.session_id s.call_id s.task_id s.next_sequence fs
unfolding validate finish
sound_from [] s running h = ground arith
sound_from (f ∷ []) s running h =
    let (first, rest) = validate_first f [] s h in
    let a : Accepted f s = accept-Accepted f s first in
    let last : validate [] (advanced s a.final) ≡ ok tt = rw a.result at rest in
    Legal-cons s.session_id s.call_id s.task_id s.next_sequence a.final f [] a.fits (ground arith)
sound_from (f ∷ g ∷ fs) s running h =
    let (first, rest) = validate_first f (g ∷ fs) s h in
    let a : Accepted f s = accept-Accepted f s first in
    let tail : validate (g ∷ fs) (advanced s a.final) ≡ ok tt = rw a.result at rest in
    let (second, _) = validate_first g fs (advanced s a.final) tail in
    let more : a.final ≡ false = (accept-Accepted g (advanced s a.final) second).running in
    Legal-cons s.session_id s.call_id s.task_id s.next_sequence a.final f (g ∷ fs) a.fits
      (more, sound_from (g ∷ fs) (advanced s a.final) more tail)

complete_from :
    (fs : List Frame) (s : Sequence)
    → s.terminal_seen ≡ false
    → Legal s.session_id s.call_id s.task_id s.next_sequence fs
    → validate fs s ≡ ok tt
unfolding validate finish
complete_from [] s running h = absurd h
complete_from (f ∷ []) s running h = ground (arith, accept_of_Fits f s true running h)
complete_from (f ∷ g ∷ fs) s running h =
    rw (accept_of_Fits f s false running h.0) (complete_from (g ∷ fs) (advanced s false) refl h.1)

-- If all frames of a CALL are accepted and the CALL can be finished, the frames are a legal
-- sequence: at least one, all with the identifiers of the CALL, numbered from 0 with no gap, each
-- with an event that goes with its status, and exactly the last one final.
pub responses_sound :
    (session_id call_id task_id : String) (fs : List Frame)
    → validate fs (start session_id call_id task_id) ≡ ok tt
    → Legal session_id call_id task_id 0 fs
unfolding start
responses_sound session_id call_id task_id fs h =
    sound_from fs (start session_id call_id task_id) refl h

-- Every legal sequence of frames is accepted to its end, and the CALL can then be finished.
pub responses_complete :
    (session_id call_id task_id : String) (fs : List Frame)
    → Legal session_id call_id task_id 0 fs
    → validate fs (start session_id call_id task_id) ≡ ok tt
unfolding start
responses_complete session_id call_id task_id fs h =
    complete_from fs (start session_id call_id task_id) refl h

-- A frame that is refused changes nothing, so the next frame is checked against the same state.
pub refused_unchanged :
    (frame : Frame) (s : Sequence) (code : Code)
    → (accept frame s).0 ≡ err code
    → (accept frame s).1 ≡ s
unfolding accept accept_lifecycle
refused_unchanged frame s code h = ground arith
