-- ===== src/Native/Calls/Tests.antt =====
-- Calls with concrete identifiers.
use iicp_client_python.Prelude.{◌≡◌, refl, String, [], ◌∷◌}
use iicp_client_python.Prelude.Exec.{ok, err}
use iicp_client_python.Prelude.Dict
use iicp_client_python.Prelude.Dict.{Dict}
use iicp_client_python.Native.Values.{Value, text, field}
use iicp_client_python.Native.Calls.{
  call_id_reuse, init, lifecycle_profile, record_call, accept_lifecycle, accept,
}
use iicp_client_python.Native.Calls.Identity.{IsCall, run, call_id_once}

abbrev call_of : String → String → String → Dict Value
call_of task_id call_id key =
    ("profile", text lifecycle_profile)
    ∷ ("task_id", text task_id)
    ∷ ("call_id", text call_id)
    ∷ ("idempotency_key", text key)
    ∷ []

call_of-IsCall : IsCall (call_of "t" "c" "k") "t" "c" "k"
unfolding field Dict.get
call_of-IsCall = record { profile = refl; has_task = refl; has_call = refl; has_key = refl }

other-IsCall : IsCall (call_of "t" "c2" "k2") "t" "c2" "k2"
unfolding field Dict.get
other-IsCall = record { profile = refl; has_task = refl; has_call = refl; has_key = refl }

first_accepted : (accept (call_of "t" "c" "k") init).0 ≡ ok tt
unfolding accept accept_lifecycle record_call init field Dict.get
first_accepted = refl

call_id_once_example :
    accept (call_of "t" "c" "k") (run (accept (call_of "t" "c" "k") init).1 [])
    ≡ (err call_id_reuse, run (accept (call_of "t" "c" "k") init).1 [])
call_id_once_example =
    call_id_once (call_of "t" "c" "k") (call_of "t" "c" "k") "t" "t" "c" "k" "k" init []
      call_of-IsCall call_of-IsCall first_accepted
