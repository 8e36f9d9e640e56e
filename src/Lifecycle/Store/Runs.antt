-- ===== src/Lifecycle/Store/Runs.antt =====
-- Runs of a `LifecycleStore`: calls, and restarts from a snapshot.
use iicp_client_python.Prelude.{ℕ, ◌≤◌, String, Bool, Option, List, [], ◌∷◌, arith, ℤ}
use iicp_client_python.Prelude.Dict.{Dict}
use iicp_client_python.Lifecycle.States.{State}
use iicp_client_python.Lifecycle.Store.{
  LifecycleStore, init, submit, status, transition, cancel, events_after,
}
use iicp_client_python.Lifecycle.Store.Invariant.{
  StoreValid, init-StoreValid, submit-StoreValid, status-StoreValid, transition-StoreValid,
  cancel-StoreValid, events_after-StoreValid,
}
use iicp_client_python.Lifecycle.Store.Snapshots.{snapshot, restore, restore-snapshot}

-- A call of a method, with the clock readings that it takes.
pub data Call : Type 0 where
  submits : String → String → String → ℕ → Call
  asks : String → ℕ → Call
  moves : String → State → Dict String → ℕ → ℕ → Call
  cancels : String → ℕ → ℕ → ℕ → Call
  reads : String → ℤ → Option ℕ → ℕ → Call

unfoldable pub step : LifecycleStore → Call → LifecycleStore
step s (submits task_id key digest now) = (submit task_id key digest now s).1
step s (asks task_id now) = (status task_id now s).1
step s (moves task_id state detail checked now) = (transition task_id state detail checked now s).1
step s (cancels task_id checked again now) = (cancel task_id checked again now s).1
step s (reads task_id after limit now) = (events_after task_id after limit now s).1

unfoldable pub run : LifecycleStore → List Call → LifecycleStore
run s [] = s
run s (c ∷ cs) = run (step s c) cs

step-StoreValid : (s : LifecycleStore) (c : Call) → StoreValid s → StoreValid (step s c)
unfolding step
step-StoreValid s (submits task_id key digest now) v = submit-StoreValid task_id key digest now s v
step-StoreValid s (asks task_id now) v = status-StoreValid task_id now s v
step-StoreValid s (moves task_id state detail checked now) v =
    transition-StoreValid task_id state detail checked now s v
step-StoreValid s (cancels task_id checked again now) v =
    cancel-StoreValid task_id checked again now s v
step-StoreValid s (reads task_id after limit now) v =
    events_after-StoreValid task_id after limit now s v

run-StoreValid : (s : LifecycleStore) (cs : List Call) → StoreValid s → StoreValid (run s cs)
unfolding run
run-StoreValid s [] v = v
run-StoreValid s (c ∷ cs) v = run-StoreValid (step s c) cs (step-StoreValid s c v)

pub run-init-StoreValid :
    (limit ttl : ℕ) (hook : Option (String → Bool)) (cs : List Call)
    → StoreValid (run (init limit ttl hook) cs)
run-init-StoreValid limit ttl hook cs =
    run-StoreValid (init limit ttl hook) cs (init-StoreValid limit ttl hook)

-- The records of a valid store are valid in one that keeps no fewer events of a task.
restored-StoreValid :
    (s fresh : LifecycleStore)
    → s.max_events ≤ fresh.max_events
    → StoreValid s
    → StoreValid fresh
    → StoreValid (record fresh { records = s.records })
restored-StoreValid s fresh more v w = record {
  room = w.room;
  unique = v.unique;
  entry = λ k r p.
      let (valid, same) = v.entry k r p in
      (
        record {
          history = valid.history;
          bounded = omega (arith, valid.bounded);
          ends = valid.ends;
          endable = valid.endable;
        },
        same,
      );
  keys = v.keys;
}

-- The stores that a program comes to: new ones, those after a call, and those that were restored from a
-- snapshot of such a store, with no smaller limit of events.
pub data Reached : LifecycleStore → Type 0 where
  new : (limit ttl : ℕ) (hook : Option (String → Bool)) → Reached (init limit ttl hook)
  called : (s : LifecycleStore) (c : Call) → Reached s → Reached (step s c)
  restored :
      (s fresh : LifecycleStore)
      → s.max_events ≤ fresh.max_events
      → Reached s
      → Reached fresh
      → Reached (restore (snapshot s) fresh).1

pub run-Reached : (s : LifecycleStore) (cs : List Call) → Reached s → Reached (run s cs)
unfolding run
run-Reached s [] h = h
run-Reached s (c ∷ cs) h = run-Reached (step s c) cs (called s c h)

-- After any submissions, queries, transitions, cancellations and reads on a new store, with any clock
-- readings, and restores of snapshots of such stores with no greater limit of events, every stored
-- record has a history of consecutive sequence numbers and legal transitions, of at most `max_events`
-- events, whose last event shows the state of the record; each record stands under its own identifier,
-- and no two tasks share an idempotency key. A snapshot from elsewhere is not covered.
pub Reached-StoreValid : (s : LifecycleStore) → Reached s → StoreValid s
Reached-StoreValid _ (new limit ttl hook) = init-StoreValid limit ttl hook
Reached-StoreValid _ (called s c h) = step-StoreValid s c (Reached-StoreValid s h)
Reached-StoreValid _ (restored s fresh more h k) =
    let v : StoreValid s = Reached-StoreValid s h in
    rw (restore-snapshot s fresh v)
      (restored-StoreValid s fresh more v (Reached-StoreValid fresh k))
