-- ===== src/Lifecycle/Cancellation/Requests.antt =====
-- What a caller of `BackendCancellationRegistry.request` can rely on.
use iicp_client_python.Prelude.{
  String, ◌≡◌, refl, true, false, none, some, arith, str_eq_refl, str_eq, eq_iff, ◌∙◌,
}
use iicp_client_python.Prelude.Exec.{ok}
use iicp_client_python.Prelude.Dict
use iicp_client_python.Lifecycle.States.{State, is_terminal}
use iicp_client_python.Lifecycle.Cancellation.{
  BackendCancellationEvidence, Registry, evict, remember, report, reported, complete,
  completed_evidence, call_handler, request, find, signal, called,
}

-- what `remember` leaves alone
remember_frame :
    (e : BackendCancellationEvidence) (s : Registry)
    → ((remember e s).handlers ≡ s.handlers)
      × ((remember e s).signalled ≡ s.signalled)
      × ((remember e s).handler_calls ≡ s.handler_calls)
unfolding remember
remember_frame e s = ground arith

-- and that the evidence is found
remember_found :
    (e : BackendCancellationEvidence) (s : Registry)
    → Dict.get (remember e s).evidence e.task_id ≡ some e
unfolding remember
remember_found e s = ground (
  arith,
  Dict.get-put s.evidence e.task_id e.task_id e,
  Dict.get-put (evict s.evidence_order s.evidence).1 e.task_id e.task_id e,
  str_eq_refl e.task_id,
)

-- what `complete` leaves
complete_ends :
    (task_id outcome : String) (s : Registry)
    → str_eq outcome "" ≡ false
    → (Dict.get (complete task_id (some outcome) s).1.handlers task_id ≡ none)
      × (Dict.get (complete task_id (some outcome) s).1.signalled task_id ≡ none)
      × (Dict.get (complete task_id (some outcome) s).1.evidence task_id
          ≡ some (record { task_id = task_id; outcome = outcome; cleanup_complete = true }))
unfolding complete completed_evidence
complete_ends task_id outcome s h =
    let t : Registry = record s {
      handlers = Dict.remove s.handlers task_id;
      signalled = Dict.remove s.signalled task_id;
    } in
    let e : BackendCancellationEvidence = completed_evidence task_id (some outcome) s in
    let (same_handlers, same_signalled, _) = remember_frame e t in
    (
      rw same_handlers
          (ground (arith, Dict.get-remove s.handlers task_id task_id, str_eq_refl task_id)),
      rw same_signalled
          (ground (arith, Dict.get-remove s.signalled task_id task_id, str_eq_refl task_id)),
      remember_found e t ∙ ground (arith, h),
    )

report_frame :
    (task_id outcome : String) (s : Registry)
    → ((report task_id outcome s).1.handlers ≡ s.handlers)
      × ((report task_id outcome s).1.signalled ≡ s.signalled)
unfolding report
report_frame task_id outcome s = ground (arith, remember_frame (reported task_id outcome s) s)

-- once the handler is stored and signalled, a request for a running task changes nothing
request_signalled :
    (task_id : String) (state : State) (s : Registry)
    → is_terminal state ≡ false
    → Dict.contains s.handlers task_id ≡ true
    → Dict.contains s.signalled task_id ≡ true
    → request task_id state s ≡ (ok "cancel_signalled", s)
unfolding request
request_signalled task_id state s live stored signalled = ground arith

signalled_state :
    (task_id : String) (state : State) (s : Registry)
    → (request task_id state s).0 ≡ ok "cancel_signalled"
    → (Dict.contains (request task_id state s).1.handlers task_id ≡ true)
      × (Dict.contains (request task_id state s).1.signalled task_id ≡ true)
unfolding request call_handler called signal
signalled_state task_id state s h = ground (
  arith,
  eq_iff "already_terminal" "cancel_signalled",
  eq_iff "cancel_unsupported" "cancel_signalled",
  report_frame task_id "cancel_requested" (signal task_id (called task_id s)),
  Dict.get-put s.signalled task_id task_id tt,
  str_eq_refl task_id,
)

-- A handler that has been signalled is not called again: after a request that answered
-- `cancel_signalled`, a further request for the task while it runs gives the same answer and
-- changes nothing, so no handler is called.
pub request_once :
    (task_id : String) (state later : State) (s : Registry)
    → (request task_id state s).0 ≡ ok "cancel_signalled"
    → is_terminal later ≡ false
    → request task_id later (request task_id state s).1
      ≡ (ok "cancel_signalled", (request task_id state s).1)
request_once task_id state later s h live =
    let (stored, signalled) = signalled_state task_id state s h in
    request_signalled task_id later (request task_id state s).1 live stored signalled

-- Every answer but `cancel_signalled` ends the cancellation: the task has no handler and no signal
-- any more, and its evidence has the answer as its outcome and says that the cleanup is complete.
pub request_ends :
    (task_id : String) (state : State) (s : Registry) (answer : String)
    → (request task_id state s).0 ≡ ok answer
    → str_eq answer "cancel_signalled" ≡ false
    → (Dict.get (request task_id state s).1.handlers task_id ≡ none)
      × (Dict.get (request task_id state s).1.signalled task_id ≡ none)
      × (find task_id (request task_id state s).1
          ≡ some (record { task_id = task_id; outcome = answer; cleanup_complete = true }))
unfolding request find call_handler
request_ends task_id state s answer h ne = ground (
  arith,
  complete_ends task_id "already_terminal" s refl,
  complete_ends task_id "cancel_unsupported" s refl,
  complete_ends task_id "cancel_unsupported" (called task_id s) refl,
  eq_iff answer "cancel_signalled",
)
