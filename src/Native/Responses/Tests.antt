-- ===== src/Native/Responses/Tests.antt =====
-- A history of one response.
use iicp_client_python.Prelude.{◌≡◌, refl, true, some, [], ◌∷◌, pos}
use iicp_client_python.Prelude.Exec.{ok}
use iicp_client_python.Prelude.Dict
use iicp_client_python.Prelude.Dict.{Dict}
use iicp_client_python.Native.Values.{flag, int, text, field}
use iicp_client_python.Native.Responses.{
  Frame, start, expected, status_matches, terminal_flag_fits, accept, accept_lifecycle, finish,
}
use iicp_client_python.Native.Responses.Histories.{
  responses_sound, responses_complete, validate, Legal,
}

abbrev one_frame : Frame
one_frame = record {
  fields =
      ("session_id", text "s")
      ∷ ("call_id", text "c")
      ∷ ("status", text "success")
      ∷ ("is_final", flag true)
      ∷ [];
  lifecycle = some (
      ("task_id", text "t")
      ∷ ("sequence", int (pos 0))
      ∷ ("event", text "completed")
      ∷ ("is_final", flag true)
      ∷ []);
}

one_frame_accepted : validate (one_frame ∷ []) (start "s" "c" "t") ≡ ok tt
unfolding validate start accept accept_lifecycle status_matches terminal_flag_fits expected finish
    field Dict.get
one_frame_accepted = refl

responses_sound_example : Legal "s" "c" "t" 0 (one_frame ∷ [])
responses_sound_example = responses_sound "s" "c" "t" (one_frame ∷ []) one_frame_accepted

responses_complete_example : validate (one_frame ∷ []) (start "s" "c" "t") ≡ ok tt
responses_complete_example =
    responses_complete "s" "c" "t" (one_frame ∷ [])
      (responses_sound "s" "c" "t" (one_frame ∷ []) one_frame_accepted)
