-- ===== src/Lifecycle/Store/Tests.antt =====
-- Runs of the store on small inputs, and the theorems at inputs that meet their hypotheses.
use iicp_client_python.Prelude.{
  arith, ◌≤◌, get_last?, ◌≡◌, refl, true, false, none, some, List, [], ◌∷◌, negsuc,
}
use iicp_client_python.Prelude.Exec.{ok, err}
use iicp_client_python.Prelude.Dict
use iicp_client_python.Lifecycle.States.{running, completed, legal}
use iicp_client_python.Lifecycle.Store.{
  LifecycleStore, LifecycleRecord, LifecycleEvent, lifecycle_conflict, init, submit, transition,
  record_event, cancel, events_after, status, new_record, is_expired, resume_unavailable,
}
use iicp_client_python.Lifecycle.Store.Invariant.{StoreValid}
use iicp_client_python.Lifecycle.Store.Runs.{
  Call, submits, moves, step, run, run-init-StoreValid, Reached, new, restored, run-Reached,
  Reached-StoreValid,
}
use iicp_client_python.Lifecycle.Store.Contract.{
  cancellation, ended_by, terminal_absorbs, transition-Recorded, cancel_total,
}
use iicp_client_python.Lifecycle.Store.Recording.{Recorded}
use iicp_client_python.Lifecycle.Store.Snapshots.{snapshot, restore, restore-snapshot}

abbrev calls : List Call
calls =
    submits "t1" "k1" "d1" 10
    ∷ moves "t1" running [] 11 11
    ∷ moves "t1" completed [] 12 12
    ∷ submits "t2" "k2" "d2" 13
    ∷ []

-- a store with a completed and an accepted task, which keeps two events of each
stored : LifecycleStore
unfolding run step init submit transition status record_event legal Dict.get Dict.values Dict.put
stored = run (init 1 100 none) calls

stored-StoreValid : StoreValid stored
unfolding stored
stored-StoreValid = run-init-StoreValid 1 100 none calls

stored-Reached : Reached stored
unfolding stored
stored-Reached = run-Reached (init 1 100 none) calls (new 1 100 none)

fewer_events : stored.max_events ≤ (init 3 5 none).max_events
unfolding stored init
fewer_events = omega arith

Reached-StoreValid_example : StoreValid (restore (snapshot stored) (init 3 5 none)).1
Reached-StoreValid_example =
    Reached-StoreValid (restore (snapshot stored) (init 3 5 none)).1
      (restored stored (init 3 5 none) fewer_events stored-Reached (new 3 5 none))

abbrev run_event : LifecycleEvent
run_event = record {
  task_id = "t1";
  sequence = 1;
  state = running;
  is_final = false;
  observed_at = 11;
  detail = [];
}

abbrev done_event : LifecycleEvent
done_event = record {
  task_id = "t1";
  sequence = 2;
  state = completed;
  is_final = true;
  observed_at = 12;
  detail = [];
}

abbrev done : LifecycleRecord
done = record {
  task_id = "t1";
  idempotency_key = "k1";
  request_digest = "d1";
  state = completed;
  events = run_event ∷ done_event ∷ [];
  updated_at = 12;
}

abbrev open_task : LifecycleRecord
open_task = new_record "t2" "k2" "d2" 13

stored-t1 : Dict.get stored.records "t1" ≡ some done
unfolding stored
stored-t1 = refl

stored-t2 : Dict.get stored.records "t2" ≡ some open_task
unfolding stored new_record
stored-t2 = refl

abbrev run_t2 : List Call
run_t2 = moves "t2" running [] 16 16 ∷ []

terminal_absorbs_example :
    transition "t1" running [] 20 21 stored ≡ (err lifecycle_conflict, stored)
unfolding stored is_expired
terminal_absorbs_example = terminal_absorbs "t1" running [] 20 21 stored done stored-t1 refl

transition-Recorded_example :
    Recorded "t2" running [] 21 stored (transition "t2" running [] 20 21 stored).1 (record {
      task_id = "t2";
      sequence = 1;
      state = running;
      is_final = false;
      observed_at = 21;
      detail = [];
    })
unfolding stored transition
transition-Recorded_example = transition-Recorded "t2" running [] 20 21 stored _ refl

cancel_total_example :
    (l : LifecycleEvent) × (get_last? open_task.events ≡ some l)
    × (let r' = ended_by stored.max_events (cancellation "t2" l.sequence 21) open_task in
        cancel "t2" 20 20 21 stored
        ≡ (ok r', record stored { records = Dict.put stored.records "t2" r' }))
unfolding stored is_expired new_record
cancel_total_example = cancel_total "t2" 20 20 21 stored open_task stored-StoreValid stored-t2 refl

-- the accepted event has been trimmed
lagged : events_after "t1" (negsuc 0) none 20 stored ≡ (err (resume_unavailable done), stored)
unfolding stored events_after
lagged = refl

restore-snapshot_example : restore (snapshot stored) (init 2 5 none) ≡ (
  ok tt,
  record {
    max_events = 2;
    terminal_status_ttl_s = 5;
    cancel_hook = none;
    records = stored.records;
  },
)
unfolding init
restore-snapshot_example = restore-snapshot stored (init 2 5 none) stored-StoreValid
