-- ===== src/Lifecycle/Store.antt =====
-- `LifecycleStore` of service_lifecycle.py. Clock readings are arguments, in the order in which the
-- method takes them; a record in the store is the object that callers hold.
pub mod Events
pub mod Invariant
pub mod Contract
pub mod Recording
pub mod Snapshots
pub mod Replay
pub mod Runs
pub mod Resubmission
mod Tests
use iicp_client_python.Prelude.{
  ℕ, suc, ◌-◌, max, String, Bool, true, false, not, ◌&&◌, Option, none, some, List, [], ◌∷◌, ◌++◌,
  ℤ, ltb_ℤ, next_ltb_ℤ, ltb, str_eq, if◌then◌else◌, take, take_last, get_last?, head?, select, any,
}
use iicp_client_python.Prelude.Exec.{
  Result, ok, err, Exec, pure, raise, or_raise, gets, guard, modify, ◌>>=◌, ◌>>◌,
}
use iicp_client_python.Prelude.Dict
use iicp_client_python.Prelude.Dict.{Dict}
use iicp_client_python.Lifecycle.States.{State, accepted, cancelled, is_terminal, legal, normalise}

pub record LifecycleEvent : Type 0 where
  pub task_id : String
  pub sequence : ℕ
  pub state : State
  pub is_final : Bool
  pub observed_at : ℕ
  pub detail : Dict String

pub record LifecycleRecord : Type 0 where
  pub task_id : String
  pub idempotency_key : String
  pub request_digest : String
  pub state : State
  pub events : List LifecycleEvent
  pub updated_at : ℕ

-- `index_error` is Python's for `events[-1]` of an empty list; `key_error` and `type_error` are those
-- of `restore` for a missing key and for arguments that do not fit `LifecycleEvent`.
pub data LifecycleError : Type 0 where
  unknown_task lifecycle_conflict index_error key_error type_error hook_raised : LifecycleError
  resume_unavailable : LifecycleRecord → LifecycleError

-- The hook is code of the caller: it returns (`true`) or raises (`false`) and leaves the store alone.
pub record LifecycleStore : Type 0 where
  pub max_events : ℕ
  pub terminal_status_ttl_s : ℕ
  pub cancel_hook : Option (String → Bool)
  pub records : Dict LifecycleRecord

abbrev pub Method : Type 0 → Type 0
Method A = Exec LifecycleStore LifecycleError A

unfoldable pub init : ℕ → ℕ → Option (String → Bool) → LifecycleStore
init max_events ttl hook = record {
  max_events = max 2 max_events;
  terminal_status_ttl_s = ttl;
  cancel_hook = hook;
  records = [];
}

-- `LifecycleRecord.latest_sequence`
unfoldable pub latest_sequence : LifecycleRecord → Option ℕ
latest_sequence r = elim (get_last? r.events) [ none ↦ none | some e ↦ some e.sequence ]

unfoldable pub write : String → LifecycleRecord → LifecycleStore → LifecycleStore
write task_id r s = record s { records = Dict.put s.records task_id r }

unfoldable pub forget : String → LifecycleStore → LifecycleStore
forget task_id s = record s { records = Dict.remove s.records task_id }

unfoldable pub accepted_event : String → ℕ → LifecycleEvent
accepted_event task_id now = record {
  task_id = task_id;
  sequence = 0;
  state = accepted;
  is_final = false;
  observed_at = now;
  detail = [];
}

unfoldable pub new_record : String → String → String → ℕ → LifecycleRecord
unfolding accepted_event
new_record task_id key digest now = record {
  task_id = task_id;
  idempotency_key = key;
  request_digest = digest;
  state = accepted;
  events = accepted_event task_id now ∷ [];
  updated_at = now;
}

-- another record has the idempotency key
unfoldable pub key_taken : String → LifecycleStore → Bool
key_taken key s = any (λ r. str_eq r.idempotency_key key) (Dict.values s.records)

unfoldable pub submit : String → String → String → ℕ → Method (LifecycleRecord × Bool)
unfolding write new_record key_taken
submit task_id key digest now s = elim (Dict.get s.records task_id) [
  | some existing ↦
      if str_eq existing.idempotency_key key && str_eq existing.request_digest digest
      then (ok (existing, false), s)
      else (err lifecycle_conflict, s)
  | none ↦ if key_taken key s then (err lifecycle_conflict, s) else (
    ok (new_record task_id key digest now, true),
    write task_id (new_record task_id key digest now) s,
  )
]

-- `_expired`
unfoldable pub is_expired : LifecycleRecord → ℕ → LifecycleStore → Bool
unfolding is_terminal
is_expired r now s = is_terminal r.state && ltb s.terminal_status_ttl_s (now - r.updated_at)

unfoldable pub status : String → ℕ → Method LifecycleRecord
unfolding is_expired forget
status task_id now s = elim (Dict.get s.records task_id) [
  | none ↦ (err unknown_task, forget task_id s)
  | some r ↦ if is_expired r now s then (err unknown_task, forget task_id s) else (ok r, s)
]

unfoldable pub next_event : LifecycleRecord → String → ℕ → State → ℕ → Dict String → LifecycleEvent
next_event r task_id latest state now detail = record {
  task_id = task_id;
  sequence = suc latest;
  state = state;
  is_final = is_terminal state;
  observed_at = now;
  detail = detail;
}

-- the record after an event: appended, and cut to the last `max_events`
unfoldable pub advanced : ℕ → LifecycleRecord → LifecycleEvent → LifecycleRecord
advanced limit r e = record r {
  events = take_last limit (r.events ++ e ∷ []);
  state = e.state;
  updated_at = e.observed_at;
}

-- `transition` from the legality test on, for the record that `status` returned
unfoldable pub record_event :
    String → State → Dict String → ℕ → LifecycleRecord → Method LifecycleEvent
unfolding normalise latest_sequence next_event advanced write
record_event task_id state detail now r = do
  guard (legal r.state (normalise state)) lifecycle_conflict
  latest ← or_raise (latest_sequence r) index_error
  let e = next_event r task_id latest (normalise state) now detail
  modify (λ s. write task_id (advanced s.max_events r e) s)
  pure e

-- `checked` is the reading for the expiry test, `now` the reading for the event
unfoldable pub transition : String → State → Dict String → ℕ → ℕ → Method LifecycleEvent
transition task_id state detail checked now = do
  r ← status task_id checked
  record_event task_id state detail now r

abbrev pub run_hook : Option (String → Bool) → String → Bool
run_hook none task_id = true
run_hook (some hook) task_id = hook task_id

abbrev pub outcome_cancelled : Dict String
outcome_cancelled = ("outcome", "cancelled") ∷ []

abbrev pub get_or {ℓ} : {A : Type ℓ} → Option A → A → A
get_or none d = d
get_or (some a) d = a

-- `record` is the stored object, so what is returned shows the transition
unfoldable pub cancel_active : String → ℕ → ℕ → LifecycleRecord → Method LifecycleRecord
cancel_active task_id again now r = do
  hook ← gets (λ s. s.cancel_hook)
  guard (run_hook hook task_id) hook_raised
  transition task_id cancelled outcome_cancelled again now
  gets (λ s. get_or (Dict.get s.records task_id) r)

unfoldable pub cancel : String → ℕ → ℕ → ℕ → Method LifecycleRecord
unfolding cancel_active
cancel task_id checked again now = do
  r ← status task_id checked
  if is_terminal r.state then pure r else cancel_active task_id again now r

abbrev pub limited {ℓ} : {A : Type ℓ} → Option ℕ → List A → List A
limited none events = events
limited (some limit) events = take (max 1 limit) events

-- the events that a reader at `after` has not seen
unfoldable pub later : ℤ → List LifecycleEvent → List LifecycleEvent
later after events = select (λ e. ltb_ℤ after e.sequence) events

unfoldable pub events_after : String → ℤ → Option ℕ → ℕ → Method (List LifecycleEvent)
unfolding later
events_after task_id after limit now = do
  r ← status task_id now
  first ← or_raise (head? r.events) index_error
  guard (not (next_ltb_ℤ after first.sequence)) (resume_unavailable r)
  pure (limited limit (later after r.events))
