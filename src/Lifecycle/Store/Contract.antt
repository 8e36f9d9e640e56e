-- ===== src/Lifecycle/Store/Contract.antt =====
-- What the methods of `LifecycleStore` promise to a caller.
use mathlib.Core.Path.{subst}
use iicp_client_python.Prelude.{
  ap, sym, ◌∙◌, [], ◌∷◌, ◌++◌, take_last, ℕ, suc, String, ◌≡◌, refl, ◌≢◌, inl, inr, Bool, true,
  false, some, arith, str_eq, eq_iff, str_eq_refl, Bool-cases, Option-cases, get_last?, ◌&&◌,
  if◌then◌else◌,
}
use iicp_client_python.Prelude.Exec.{ok, err, bind-ok}
use iicp_client_python.Prelude.Dict
use iicp_client_python.Prelude.Dict.{Dict}
use iicp_client_python.Lifecycle.States.{State, cancelled, is_terminal, legal, normalise}
use iicp_client_python.Lifecycle.Store.{
  LifecycleEvent, LifecycleRecord, LifecycleStore, lifecycle_conflict, unknown_task, hook_raised,
  write, forget, new_record, key_taken, submit, status, is_expired, transition, record_event,
  cancel, cancel_active, latest_sequence, next_event, advanced, run_hook, outcome_cancelled,
}
use iicp_client_python.Lifecycle.Store.Invariant.{StoreValid, RecordValid, status_ok}
use iicp_client_python.Lifecycle.Store.Recording.{
  Recorded, latest_sequence-last, next_event-Recorded,
}

-- Terminal states have no successor.
legal-terminal : (a b : State) → is_terminal a ≡ true → legal a b ≡ false
unfolding legal is_terminal
legal-terminal a b h = ground arith

-- what a submission returns is what the store then has under the task
pub submit_stores :
    (task_id key digest : String) (now : ℕ) (s : LifecycleStore) (r : LifecycleRecord)
    (created : Bool)
    → (submit task_id key digest now s).0 ≡ ok (r, created)
    → (Dict.get (submit task_id key digest now s).1.records task_id ≡ some r)
      × (r.idempotency_key ≡ key)
      × (r.request_digest ≡ digest)
unfolding submit
submit_stores task_id key digest now s r created h = ground (
  arith,
  Dict.get-put s.records task_id task_id (new_record task_id key digest now),
  str_eq_refl task_id,
  eq_iff r.idempotency_key key,
  eq_iff r.request_digest digest,
)

pub submit_found :
    (task_id key digest : String) (now : ℕ) (s : LifecycleStore) (r : LifecycleRecord)
    → Dict.get s.records task_id ≡ some r
    → submit task_id key digest now s ≡ (
        if str_eq r.idempotency_key key && str_eq r.request_digest digest
        then (ok (r, false), s)
        else (err lifecycle_conflict, s))
unfolding submit
submit_found task_id key digest now s r at = rw (at, submit)

-- If a submission has returned and the next call is one for the same task, at whatever time, the store
-- answers it from the stored record and changes nothing: the record, marked as not created, if
-- the idempotency key and the digest are the same, and else a conflict.
pub submit_again :
    (task_id key digest : String) (now later : ℕ) (s : LifecycleStore) (r : LifecycleRecord)
    (created : Bool) (key' digest' : String)
    → (submit task_id key digest now s).0 ≡ ok (r, created)
    → submit task_id key' digest' later (submit task_id key digest now s).1 ≡ (
        if str_eq key key' && str_eq digest digest'
        then (ok (r, false), (submit task_id key digest now s).1)
        else (err lifecycle_conflict, (submit task_id key digest now s).1))
submit_again task_id key digest now later s r created key' digest' h =
    let (at, k, d) = submit_stores task_id key digest now s r created h in
    rw (submit_found task_id key' digest' later (submit task_id key digest now s).1 r at, k, d)

key_taken-found :
    (s : LifecycleStore) (k key : String) (r : LifecycleRecord)
    → Dict.get s.records k ≡ some r
    → r.idempotency_key ≡ key
    → key_taken key s ≡ true
unfolding key_taken
key_taken-found s k key r at same = ground (
  arith,
  Dict.any-values (λ (a : LifecycleRecord). str_eq a.idempotency_key key) s.records k r,
  eq_iff r.idempotency_key key,
)

-- The idempotency key of a stored task is refused to every other task, and the store is unchanged.
pub submit_taken_key :
    (task_id other key digest : String) (now : ℕ) (s : LifecycleStore) (r : LifecycleRecord)
    → StoreValid s
    → Dict.get s.records other ≡ some r
    → r.idempotency_key ≡ key
    → task_id ≢ other
    → submit task_id key digest now s ≡ (err lifecycle_conflict, s)
unfolding submit
submit_taken_key task_id other key digest now s r v at same ne =
    elim (Option-cases (Dict.get s.records task_id)) [
      | inl e ↦ rw (e, submit) (rw (key_taken-found s other key r at same) refl)
      | inr (a, e) ↦ rw (submit_found task_id key digest now s a e) (
          ground (
            arith,
            eq_iff a.idempotency_key key,
            λ (q : a.idempotency_key ≡ r.idempotency_key). ne (v.keys task_id other a r e at q),
          ))
    ]

-- A task in a terminal state moves no more: a transition to whatever state raises. The store drops
-- the task if its time is over, and is unchanged otherwise.
pub terminal_absorbs :
    (task_id : String) (state : State) (detail : Dict String) (checked now : ℕ) (s : LifecycleStore)
    (r : LifecycleRecord)
    → Dict.get s.records task_id ≡ some r
    → is_terminal r.state ≡ true
    → transition task_id state detail checked now s ≡ (
        if is_expired r checked s
        then (err unknown_task, forget task_id s)
        else (err lifecycle_conflict, s))
unfolding transition status record_event
terminal_absorbs task_id state detail checked now s r at t =
    ground (arith, legal-terminal r.state (normalise state))

record_event_ok :
    (task_id : String) (state : State) (detail : Dict String) (now : ℕ) (r : LifecycleRecord)
    (s : LifecycleStore) (e : LifecycleEvent)
    → (record_event task_id state detail now r s).0 ≡ ok e
    → (n : ℕ) × (latest_sequence r ≡ some n)
      × (legal r.state (normalise state) ≡ true)
      × (e ≡ next_event r task_id n (normalise state) now detail)
      × ((record_event task_id state detail now r s).1
          ≡ write task_id (advanced s.max_events r e) s)
unfolding record_event
record_event_ok task_id state detail now r s e h = elim (Option-cases (latest_sequence r)) [
  | inl q ↦ ground arith
  | inr (n, q) ↦ (n, q, ground arith, ground arith, ground arith)
]

-- A transition that returns an event had a legal target: the state that was asked for, where
-- `timed_out` counts as `expired`. The event bears this state, the task, the time and the detail that
-- were given and the sequence number after the last one, and is final exactly in a terminal state. The
-- record then has the event at its end, trimmed to the last `max_events`, and its state and time, and
-- the same identifiers and digest; no other record and no setting changes.
pub transition-Recorded :
    (task_id : String) (state : State) (detail : Dict String) (checked now : ℕ) (s : LifecycleStore)
    (e : LifecycleEvent)
    → (transition task_id state detail checked now s).0 ≡ ok e
    → Recorded task_id state detail now s (transition task_id state detail checked now s).1 e
unfolding transition
transition-Recorded task_id state detail checked now s e h =
    let (r, found, rest) =
      bind-ok (status task_id checked) (record_event task_id state detail now) s e h in
    let (same, at) = status_ok task_id checked s r found in
    let (n, latest, allowed, is, done) =
      record_event_ok task_id state detail now r s e (rw same at rest) in
    let final : (transition task_id state detail checked now s).1
        ≡ write task_id
            (advanced s.max_events r (next_event r task_id n (normalise state) now detail)) s =
      rw (found, transition) (rw same (rw is at done)) in
    subst (λ t. Recorded task_id state detail now s t e) (sym final)
      (subst
        (λ x.
          Recorded task_id state detail now s
            (write task_id
              (advanced s.max_events r (next_event r task_id n (normalise state) now detail)) s)
            x)
        (sym is) (next_event-Recorded task_id state detail now s r n at latest allowed))

-- the record that a cancellation of `r` leaves
unfoldable pub cancelled_record : String → ℕ → ℕ → LifecycleRecord → ℕ → LifecycleRecord
cancelled_record task_id limit now r n =
    advanced limit r (next_event r task_id n cancelled now outcome_cancelled)

latest_exists :
    (limit : ℕ) (r : LifecycleRecord) → RecordValid limit r → (n : ℕ) × (latest_sequence r ≡ some n)
unfolding latest_sequence
latest_exists limit r v = elim (Option-cases (get_last? r.events)) [
  | inl e ↦ absurd (rw e at v.ends)
  | inr (l, e) ↦ (l.sequence, rw (e, latest_sequence) refl)
]

transition_live :
    (task_id : String) (detail : Dict String) (checked now : ℕ) (s : LifecycleStore)
    (r : LifecycleRecord) (n : ℕ)
    → Dict.get s.records task_id ≡ some r
    → latest_sequence r ≡ some n
    → is_terminal r.state ≡ false
    → legal r.state cancelled ≡ true
    → transition task_id cancelled detail checked now s ≡ (
      ok (next_event r task_id n cancelled now detail),
      write task_id (advanced s.max_events r (next_event r task_id n cancelled now detail)) s,
    )
unfolding transition status record_event
transition_live task_id detail checked now s r n at latest live allowed = ground arith

cancel_active_lem :
    (task_id : String) (again now : ℕ) (s : LifecycleStore) (r : LifecycleRecord) (n : ℕ)
    → Dict.get s.records task_id ≡ some r
    → latest_sequence r ≡ some n
    → is_terminal r.state ≡ false
    → legal r.state cancelled ≡ true
    → cancel_active task_id again now r s ≡ (
        if run_hook s.cancel_hook task_id
        then (
          ok (cancelled_record task_id s.max_events now r n),
          write task_id (cancelled_record task_id s.max_events now r n) s,
        )
        else (err hook_raised, s))
unfolding cancel_active cancelled_record write
cancel_active_lem task_id again now s r n at latest live allowed = ground (
  arith,
  transition_live task_id outcome_cancelled again now s r n at latest live allowed,
  Dict.get-put s.records task_id task_id (cancelled_record task_id s.max_events now r n),
  str_eq_refl task_id,
)

-- the event of a cancellation
abbrev pub cancellation : String → ℕ → ℕ → LifecycleEvent
cancellation task_id latest now = record {
  task_id = task_id;
  sequence = suc latest;
  state = cancelled;
  is_final = true;
  observed_at = now;
  detail = ("outcome", "cancelled") ∷ [];
}

-- the record with this event at its end, trimmed to the limit
abbrev pub ended_by : ℕ → LifecycleEvent → LifecycleRecord → LifecycleRecord
ended_by limit e r = record r {
  events = take_last limit (r.events ++ e ∷ []);
  state = cancelled;
  updated_at = e.observed_at;
}

cancelled_record-ended_by :
    (task_id : String) (limit now : ℕ) (r : LifecycleRecord) (n : ℕ)
    → cancelled_record task_id limit now r n ≡ ended_by limit (cancellation task_id n now) r
unfolding cancelled_record advanced next_event is_terminal
cancelled_record-ended_by task_id limit now r n = refl

-- In a store that satisfies `StoreValid`, a cancellation of a stored task that has not expired
-- succeeds, unless the hook raises: a task that had ended is returned as it is and nothing changes; a
-- running task gets a final event with the next sequence number, in the state `cancelled`, and the
-- record with that event at its end, trimmed to the last `max_events`, is stored and returned. If the
-- hook raises, the store is unchanged.
pub cancel_total :
    (task_id : String) (checked again now : ℕ) (s : LifecycleStore) (r : LifecycleRecord)
    → StoreValid s
    → Dict.get s.records task_id ≡ some r
    → is_expired r checked s ≡ false
    → (l : LifecycleEvent) × (get_last? r.events ≡ some l)
      × (let r' = ended_by s.max_events (cancellation task_id l.sequence now) r in
          cancel task_id checked again now s ≡ (
            if is_terminal r.state
            then (ok r, s)
            else if run_hook s.cancel_hook task_id
            then (ok r', record s { records = Dict.put s.records task_id r' })
            else (err hook_raised, s)))
unfolding cancel status write
cancel_total task_id checked again now s r v at live =
    let valid : RecordValid s.max_events r = (v.entry task_id r at).0 in
    let (n, latest) = latest_exists s.max_events r valid in
    let (l, ends, same) = latest_sequence-last r n latest in
    let shape = cancelled_record-ended_by task_id s.max_events now r l.sequence in
    (
      l,
      ends,
      elim (Bool-cases (is_terminal r.state)) [
        | inl t ↦ ground arith
        | inr t ↦
            let allowed : legal r.state cancelled ≡ true = rw t at valid.endable in
            ground (
              arith,
              shape,
              cancel_active_lem task_id again now s r l.sequence at (latest ∙ ap some (sym same)) t
                  allowed,
            )
      ],
    )
