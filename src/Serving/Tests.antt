-- ===== src/Serving/Tests.antt =====
-- Runs of the gate, the guard and the relay registry on concrete inputs.
use iicp_client_python.Prelude.{
  List, ℕ, suc, ◌-◌, ◌==◌, if◌then◌else◌, ◌≤◌, ◌≡◌, refl, arith, false, String, [], ◌∷◌,
}
use iicp_client_python.Prelude.Dict
use iicp_client_python.Serving.Concurrency
use iicp_client_python.Serving.Concurrency.{Gate, acquire, enter, entered, capacity_exceeded}
use iicp_client_python.Serving.Concurrency.Capacity.{enters, here, then_step, acquire_exact}
use iicp_client_python.Serving.Idempotency
use iicp_client_python.Serving.Idempotency.{Guard, register, is_replay}
use iicp_client_python.Serving.Idempotency.Windows
use iicp_client_python.Serving.Idempotency.Windows.{
  known, duplicate_in_window, new_iff_unknown, is_replay-register,
}
use iicp_client_python.Serving.RelaySessions.Limits.{Attempt}
use iicp_client_python.Serving.Schedule.{
  Window, effective_max_concurrent, current_share, first_share, is_open,
}

abbrev gate : ℕ → ℕ → Gate
gate slots active = record { slots = slots; max_concurrent = 1; active = active }

acquire_exact_example :
    (1 ≤ 1)
    × (acquire (gate 0 1) ≡ (
        if 1 == 1
        then capacity_exceeded 1
        else entered (record (gate 0 1) { slots = 0 - 1; active = suc 1 })))
unfolding Concurrency.init acquire enter
acquire_exact_example = acquire_exact 1 (gate 1 0) (gate 0 1) refl (
    then_step (gate 1 0) (gate 1 0) (gate 0 1) (here (gate 1 0))
      (enters (gate 1 0) (gate 0 1) refl))

duplicate_in_window_example :
    (register "t" 299 (
      Windows.run
        (register "t" 10 (Windows.run (Idempotency.init 300) (("s", 1) ∷ []))).1
        (("u", 20) ∷ []))).0
    ≡ false
unfolding Idempotency.init Windows.run register Dict.get Dict.put Dict.keep
duplicate_in_window_example =
    duplicate_in_window 300 (("s", 1) ∷ []) "t" 10 (("u", 20) ∷ []) 299 refl (omega arith, tt)
      (omega arith)

abbrev attempt : String → ℕ → Attempt
attempt source time = record { source = source; time = time }

abbrev eight : ℕ
eight = 8

abbrev night : List Window
night = record { start = "22:00"; end = "06:00"; share = 250 } ∷ []

-- at night a quarter of the capacity is offered
night_share : effective_max_concurrent night 8 "23:30" ≡ 2
unfolding effective_max_concurrent current_share first_share is_open
night_share = refl
