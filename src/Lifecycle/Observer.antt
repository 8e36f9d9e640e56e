-- ===== src/Lifecycle/Observer.antt =====
-- `BoundedObserverBuffer` of service_lifecycle.py: the last events of a task, for slow consumers.
pub mod Lag
mod Tests
use iicp_client_python.Prelude.{
  ℕ, ◌+◌, max, Bool, true, false, not, ◌&&◌, ◌||◌, Option, none, some, String, List, [], ◌∷◌, ◌++◌,
  ℤ, ltb_ℤ, next_ltb_ℤ, leb, length, take_last, get_last?, select, if◌then◌else◌,
}
use iicp_client_python.Prelude.Exec.{Result, ok, err}
use iicp_client_python.Prelude.Dict
use iicp_client_python.Prelude.Dict.{Dict}
use iicp_client_python.Lifecycle.Store.{LifecycleEvent}

pub data BufferError : Type 0 where
  lifecycle_conflict : BufferError
  observer_lagged : ℕ → ℕ → BufferError

pub record Buffer : Type 0 where
  pub capacity : ℕ
  pub max_observers : ℕ
  pub events : List LifecycleEvent
  pub observers : Dict (Unit {0})
  pub closed : Bool

unfoldable pub init : ℕ → ℕ → Buffer
init capacity max_observers = record {
  capacity = max 1 capacity;
  max_observers = max 1 max_observers;
  events = [];
  observers = [];
  closed = false;
}

unfoldable pub subscribe : String → Buffer → Result BufferError (Unit {0}) × Buffer
subscribe observer_id b =
    if not (Dict.contains b.observers observer_id) && leb b.max_observers (length b.observers)
    then (err lifecycle_conflict, b)
    else (ok tt, record b { observers = Dict.put b.observers observer_id tt })

unfoldable pub disconnect : String → Buffer → Buffer
disconnect observer_id b = record b { observers = Dict.remove b.observers observer_id }

-- `self._events and event.sequence <= self._events[-1].sequence`
abbrev pub stale : Option LifecycleEvent → LifecycleEvent → Bool
stale none e = false
stale (some last) e = leb e.sequence last.sequence

unfoldable pub publish : LifecycleEvent → Buffer → Result BufferError (Unit {0}) × Buffer
publish e b = if stale (get_last? b.events) e then (err lifecycle_conflict, b) else (
  ok tt,
  record b { events = take_last b.capacity (b.events ++ e ∷ []); closed = e.is_final },
)

unfoldable pub after_events : ℤ → List LifecycleEvent → List LifecycleEvent
after_events after events = select (λ e. ltb_ℤ after e.sequence) events

abbrev pub latest_of : LifecycleEvent → Option LifecycleEvent → ℕ
latest_of first none = first.sequence
latest_of first (some last) = last.sequence

abbrev pub poll_events : ℤ → List LifecycleEvent → Result BufferError (List LifecycleEvent)
poll_events after [] = ok []
poll_events after (first ∷ rest) =
    if next_ltb_ℤ after first.sequence
    then err (observer_lagged first.sequence (latest_of first (get_last? (first ∷ rest))))
    else ok (after_events after (first ∷ rest))

unfoldable pub poll : ℤ → Buffer → Result BufferError (List LifecycleEvent)
poll after b = poll_events after b.events

unfoldable pub observer_count : Buffer → ℕ
observer_count b = length b.observers
