-- ===== src/Lifecycle/Observer/Lag.antt =====
-- `BoundedObserverBuffer.poll` over sequences of calls.
use iicp_client_python.Prelude.{
  ℕ, zero, suc, ◌-◌, ◌≤◌, ◌<◌, max, ◌≡◌, sym, ap, inl, inr, true, false, some, String, List, [],
  ◌∷◌, ◌++◌, arith, ℤ, pos, negsuc, ltb_ℤ, next_ltb_ℤ, length, drop, take_last, get_last?,
  if◌then◌else◌, Bool-cases, get_last?-cons, get_last?-take_last, take_last-append,
  take_last-eq_nil, drop-nil, length-take_last-le,
}
use mathlib.Core.List.{append-nil, append_assoc}
use iicp_client_python.Prelude.Exec.{ok}
use iicp_client_python.Prelude.Dict
use iicp_client_python.Lifecycle.Store.{LifecycleEvent}
use iicp_client_python.Lifecycle.Observer.{
  Buffer, init, subscribe, disconnect, publish, poll, poll_events, after_events, stale,
  observer_count,
}

-- Sequence numbers rise along the list.
abbrev Above : ℕ → List LifecycleEvent → Type 0
Above n [] = Unit
Above n (e ∷ es) = (n < e.sequence) × Above e.sequence es

abbrev pub Rising : List LifecycleEvent → Type 0
Rising [] = Unit
Rising (e ∷ es) = Above e.sequence es

-- `published` are the events that the buffer has taken, all of them, oldest first.
pub record Holds (published : List LifecycleEvent) (b : Buffer) : Type 0 where
  pub room : 0 < b.capacity
  pub rising : Rising published
  pub window : b.events ≡ take_last b.capacity published

Above-drop :
    (n m : ℕ) (first : LifecycleEvent) (rest es : List LifecycleEvent)
    → Above n es
    → drop m es ≡ first ∷ rest
    → n < first.sequence
Above-drop n zero first rest [] r d = cc
Above-drop n zero first rest (e ∷ es) r d = let same : e ≡ first = cc in rw (← same) r.0
Above-drop n (suc m) first rest [] r d = cc
Above-drop n (suc m) first rest (e ∷ es) r d =
    omega (arith, r.0, Above-drop e.sequence m first rest es r.1 d)

-- What precedes the first event of the window has been seen by a reader that does not lag.
seen :
    (after : ℤ) (n first : ℕ) → n < first → next_ltb_ℤ after first ≡ false → ltb_ℤ after n ≡ false
seen (pos a) n first p h = ground arith
seen (negsuc zero) n first p h = ground arith
seen (negsuc (suc a)) n first p h = cc

Rising-tail : (e : LifecycleEvent) (es : List LifecycleEvent) → Above e.sequence es → Rising es
Rising-tail e [] h = tt
Rising-tail e (f ∷ es) h = h.1

after_events-drop :
    (after : ℤ) (n : ℕ) (first : LifecycleEvent) (rest es : List LifecycleEvent)
    → Rising es
    → drop n es ≡ first ∷ rest
    → next_ltb_ℤ after first.sequence ≡ false
    → after_events after es ≡ after_events after (first ∷ rest)
unfolding after_events
after_events-drop after zero first rest es r d h = ap (after_events after) d
after_events-drop after (suc n) first rest [] r d h = cc
after_events-drop after (suc n) first rest (e ∷ es) r d h = ground (
  arith,
  after_events-drop after n first rest es (Rising-tail e es r) d h,
  seen after e.sequence first.sequence (Above-drop e.sequence n first rest es r d) h,
)

Above-append :
    (n : ℕ) (es : List LifecycleEvent) (e l : LifecycleEvent)
    → Above n es
    → get_last? es ≡ some l
    → l.sequence < e.sequence
    → Above n (es ++ e ∷ [])
Above-append n [] e l r p h = cc
Above-append n (x ∷ []) e l r p h = (r.0, (ground arith, tt))
Above-append n (x ∷ y ∷ es) e l r p h = (r.0, Above-append x.sequence (y ∷ es) e l r.1 p h)

Rising-append :
    (es : List LifecycleEvent) (e : LifecycleEvent)
    → Rising es
    → stale (get_last? es) e ≡ false
    → Rising (es ++ e ∷ [])
Rising-append [] e r h = tt
Rising-append (x ∷ []) e r h = (ground arith, tt)
Rising-append (x ∷ y ∷ es) e r h =
    let (l, p) = get_last?-cons y es in Above-append x.sequence (y ∷ es) e l r p (ground arith)

init-Holds : (capacity max_observers : ℕ) → Holds [] (init capacity max_observers)
unfolding init
init-Holds capacity max_observers = record {
  room = omega arith;
  rising = tt;
  window = sym (drop-nil (0 - max 1 capacity));
}

-- A call of a method that changes the buffer.
pub data Call : Type 0 where
  publishes : LifecycleEvent → Call
  subscribes disconnects : String → Call

unfoldable pub step : Buffer → Call → Buffer
step b (publishes e) = (publish e b).1
step b (subscribes observer_id) = (subscribe observer_id b).1
step b (disconnects observer_id) = disconnect observer_id b

-- the event that a call adds
unfoldable pub added : Buffer → Call → List LifecycleEvent
added b (publishes e) = if stale (get_last? b.events) e then [] else e ∷ []
added b _ = []

unfoldable pub run : Buffer → List Call → Buffer
run b [] = b
run b (c ∷ cs) = run (step b c) cs

-- All events that the calls have published, oldest first.
unfoldable pub published : Buffer → List Call → List LifecycleEvent
published b [] = []
published b (c ∷ cs) = added b c ++ published (step b c) cs

-- what a call of `publish` does, by its test
step-stale :
    (e : LifecycleEvent) (b : Buffer)
    → stale (get_last? b.events) e ≡ true
    → (step b (publishes e) ≡ b) × (added b (publishes e) ≡ [])
unfolding step added publish
step-stale e b t = ground arith

step_fresh :
    (e : LifecycleEvent) (b : Buffer)
    → stale (get_last? b.events) e ≡ false
    → (step b (publishes e)
        ≡ record b { events = take_last b.capacity (b.events ++ e ∷ []); closed = e.is_final })
      × (added b (publishes e) ≡ e ∷ [])
unfolding step added publish
step_fresh e b t = ground arith

publish-Holds :
    (es : List LifecycleEvent) (b : Buffer) (e : LifecycleEvent)
    → Holds es b
    → Holds (es ++ added b (publishes e)) (step b (publishes e))
publish-Holds es b e h =
    let same : get_last? b.events ≡ get_last? es =
      rw h.window (get_last?-take_last b.capacity es h.room) in
    elim (Bool-cases (stale (get_last? b.events) e)) [
      | inl t ↦ rw ((step-stale e b t).0, (step-stale e b t).1, append-nil) h
      | inr t ↦
          rw ((step_fresh e b t).0, (step_fresh e b t).1)
            (record {
              room = h.room;
              rising = Rising-append es e h.rising (rw same at t);
              window = rw h.window (take_last-append b.capacity es e h.room);
            })
    ]

subscribe-Holds :
    (es : List LifecycleEvent) (b : Buffer) (observer_id : String)
    → Holds es b
    → Holds es (subscribe observer_id b).1
unfolding subscribe
subscribe-Holds es b observer_id h = record {
  room = ground arith;
  rising = h.rising;
  window = ground (arith, h.window);
}

step-Holds :
    (es : List LifecycleEvent) (b : Buffer) (c : Call)
    → Holds es b
    → Holds (es ++ added b c) (step b c)
unfolding step added disconnect
step-Holds es b (publishes e) h = publish-Holds es b e h
step-Holds es b (subscribes observer_id) h = rw (append-nil es) (subscribe-Holds es b observer_id h)
step-Holds es b (disconnects observer_id) h =
    rw append-nil (record { room = h.room; rising = h.rising; window = h.window })

run-Holds :
    (es : List LifecycleEvent) (b : Buffer) (cs : List Call)
    → Holds es b
    → Holds (es ++ published b cs) (run b cs)
unfolding run published
run-Holds es b [] h = rw append-nil h
run-Holds es b (c ∷ cs) h =
    rw (← append_assoc es (added b c) (published (step b c) cs))
      (run-Holds (es ++ added b c) (step b c) cs (step-Holds es b c h))

poll_events-lem :
    (after : ℤ) (c : ℕ) (all window : List LifecycleEvent) (es : List LifecycleEvent)
    → 0 < c
    → Rising all
    → window ≡ take_last c all
    → poll_events after window ≡ ok es
    → es ≡ after_events after all
unfolding after_events
poll_events-lem after c all [] es room r w h =
    rw (take_last-eq_nil c all room (sym w)) (ground arith)
poll_events-lem after c all (first ∷ rest) es room r w h =
    ground (arith, after_events-drop after (length all - c) first rest all r (sym w))

-- A slow consumer never misses an event silently: whatever was called on a new buffer, if `poll`
-- returns, it returns every published event after the given sequence number, in order.
pub poll_complete :
    (capacity max_observers : ℕ) (cs : List Call) (after : ℤ) (es : List LifecycleEvent)
    → poll after (run (init capacity max_observers) cs) ≡ ok es
    → es ≡ after_events after (published (init capacity max_observers) cs)
unfolding poll
poll_complete capacity max_observers cs after es h =
    let b : Buffer = run (init capacity max_observers) cs in
    let holds : Holds (published (init capacity max_observers) cs) b =
      run-Holds [] (init capacity max_observers) cs (init-Holds capacity max_observers) in
    poll_events-lem after b.capacity (published (init capacity max_observers) cs) b.events es
      holds.room holds.rising holds.window h

-- The bounds of a buffer.
pub record IsBounded (b : Buffer) : Type 0 where
  pub events_bounded : length b.events ≤ b.capacity
  pub observers_bounded : observer_count b ≤ b.max_observers

step-IsBounded : (b : Buffer) (c : Call) → IsBounded b → IsBounded (step b c)
unfolding step publish subscribe disconnect observer_count
step-IsBounded b (publishes e) v =
    ground (arith, length-take_last-le b.capacity (b.events ++ e ∷ []))
step-IsBounded b (subscribes observer_id) v =
    ground (arith, Dict.size-put b.observers observer_id tt)
step-IsBounded b (disconnects observer_id) v =
    ground (arith, Dict.size-remove-le b.observers observer_id)

run-IsBounded : (b : Buffer) (cs : List Call) → IsBounded b → IsBounded (run b cs)
unfolding run
run-IsBounded b [] v = v
run-IsBounded b (c ∷ cs) v = run-IsBounded (step b c) cs (step-IsBounded b c v)

init-IsBounded : (capacity max_observers : ℕ) → IsBounded (init capacity max_observers)
unfolding init observer_count
init-IsBounded capacity max_observers = record {
  events_bounded = omega arith;
  observers_bounded = omega arith;
}

-- After any calls on a new buffer it holds at most `capacity` events and at most `max_observers`
-- observers.
pub run-init-IsBounded :
    (capacity max_observers : ℕ) (cs : List Call) → IsBounded (run (init capacity max_observers) cs)
run-init-IsBounded capacity max_observers cs =
    run-IsBounded (init capacity max_observers) cs (init-IsBounded capacity max_observers)
