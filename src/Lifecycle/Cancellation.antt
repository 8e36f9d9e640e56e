-- ===== src/Lifecycle/Cancellation.antt =====
-- `BackendCancellationRegistry` of service_lifecycle.py: which backend handles can be cancelled,
-- which have been signalled, and the evidence kept for the last 256 tasks.
pub mod Bounds
pub mod Requests
mod Tests
use iicp_client_python.Prelude.{
  ℕ, suc, String, Bool, true, false, ◌||◌, Option, none, some, List, [], ◌∷◌, ◌++◌, str_eq, ◌==◌,
  if◌then◌else◌, length,
}
use iicp_client_python.Prelude.Exec.{Result, ok, err}
use iicp_client_python.Prelude.Dict
use iicp_client_python.Prelude.Dict.{Dict}
use iicp_client_python.Lifecycle.States.{State, is_terminal}

pub record BackendCancellationEvidence : Type 0 where
  pub task_id : String
  pub outcome : String
  pub cleanup_complete : Bool

-- What a call of a handler does: it returns False, it returns another value, or it raises. The
-- handler is code of the caller, and leaves the registry alone.
pub data Handler : Type 0 where
  answers_false answers_other raises : Handler

pub data RequestError : Type 0 where
  unsupported_outcome handler_raised : RequestError

-- `handler_calls` records the calls of handlers, oldest first; the source keeps no such list.
pub record Registry : Type 0 where
  pub handlers : Dict Handler
  pub signalled : Dict (Unit {0})
  pub evidence : Dict BackendCancellationEvidence
  pub evidence_order : List String
  pub handler_calls : List String

abbrev pub max_evidence : ℕ
max_evidence = 256

unfoldable pub init : Registry
init = record {
  handlers = [];
  signalled = [];
  evidence = [];
  evidence_order = [];
  handler_calls = [];
}

unfoldable pub register : String → Handler → Registry → Registry
register task_id handler s = record s {
  handlers = Dict.put s.handlers task_id handler;
  signalled = Dict.remove s.signalled task_id;
}

-- the oldest entry goes, if the order is full
abbrev pub evict :
    List String → Dict BackendCancellationEvidence → List String × Dict BackendCancellationEvidence
evict [] evidence = ([], evidence)
evict (oldest ∷ order) evidence =
    if length (oldest ∷ order) == max_evidence
    then (order, Dict.remove evidence oldest)
    else (oldest ∷ order, evidence)

-- `_remember`
unfoldable pub remember : BackendCancellationEvidence → Registry → Registry
remember e s =
    if Dict.contains s.evidence e.task_id
    then record s { evidence = Dict.put s.evidence e.task_id e }
    else let (order, kept) = evict s.evidence_order s.evidence in
      record s { evidence = Dict.put kept e.task_id e; evidence_order = order ++ e.task_id ∷ [] }

unfoldable pub known_outcome : String → Bool
known_outcome outcome =
    str_eq outcome "cancel_requested"
    || str_eq outcome "transport_aborted"
    || str_eq outcome "backend_acknowledged"
    || str_eq outcome "execution_stopped"
    || str_eq outcome "cancel_unsupported"
    || str_eq outcome "already_terminal"

abbrev pub cleanup_of : Option BackendCancellationEvidence → Bool
cleanup_of none = false
cleanup_of (some current) = current.cleanup_complete

abbrev pub outcome_of : Option BackendCancellationEvidence → String
outcome_of none = "cancel_unsupported"
outcome_of (some current) = current.outcome

unfoldable pub reported : String → String → Registry → BackendCancellationEvidence
reported task_id outcome s = record {
  task_id = task_id;
  outcome = outcome;
  cleanup_complete = cleanup_of (Dict.get s.evidence task_id);
}

unfoldable pub report :
    String → String → Registry → Result RequestError BackendCancellationEvidence × Registry
report task_id outcome s =
    if known_outcome outcome
    then (ok (reported task_id outcome s), remember (reported task_id outcome s) s)
    else (err unsupported_outcome, s)

-- `outcome or (current.outcome if current else ...)`: an empty text counts as none
abbrev pub chosen : Option String → Option BackendCancellationEvidence → String
chosen none current = outcome_of current
chosen (some outcome) current = if str_eq outcome "" then outcome_of current else outcome

unfoldable pub completed_evidence : String → Option String → Registry → BackendCancellationEvidence
completed_evidence task_id outcome s = record {
  task_id = task_id;
  outcome = chosen outcome (Dict.get s.evidence task_id);
  cleanup_complete = true;
}

unfoldable pub complete : String → Option String → Registry → BackendCancellationEvidence × Registry
complete task_id outcome s =
    let e = completed_evidence task_id outcome s in
    (
      e,
      remember e (record s {
        handlers = Dict.remove s.handlers task_id;
        signalled = Dict.remove s.signalled task_id;
      }),
    )

-- `evidence(task_id)`
unfoldable pub find : String → Registry → Option BackendCancellationEvidence
find task_id s = Dict.get s.evidence task_id

unfoldable pub called : String → Registry → Registry
called task_id s = record s { handler_calls = s.handler_calls ++ task_id ∷ [] }

unfoldable pub signal : String → Registry → Registry
signal task_id s = record s { signalled = Dict.put s.signalled task_id tt }

-- `request` from the call of the handler on
unfoldable pub call_handler : String → Handler → Registry → Result RequestError String × Registry
call_handler task_id raises s = (err handler_raised, called task_id s)
call_handler task_id answers_false s =
    (ok "cancel_unsupported", (complete task_id (some "cancel_unsupported") (called task_id s)).1)
call_handler task_id answers_other s = (
  ok "cancel_signalled",
  (report task_id "cancel_requested" (signal task_id (called task_id s))).1,
)

unfoldable pub request : String → State → Registry → Result RequestError String × Registry
request task_id state s =
    if is_terminal state
    then (ok "already_terminal", (complete task_id (some "already_terminal") s).1)
    else elim (Dict.get s.handlers task_id) [
      | none ↦ (ok "cancel_unsupported", (complete task_id (some "cancel_unsupported") s).1)
      | some handler ↦
          if Dict.contains s.signalled task_id
          then (ok "cancel_signalled", s)
          else call_handler task_id handler s
    ]
