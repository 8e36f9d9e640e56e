-- ===== src/Routing/Router/Books.antt =====
-- `TaskRouter.route` of proxy/routing/router.py and the book of the circuit breaker.
use iicp_client_python.Prelude.{
  ◌+◌, ◌≤◌, ◌<◌, List, [], ◌∷◌, ℕ, zero, suc, ◌≡◌, refl, inl, inr, Bool, true, false, String,
  Option, none, some, arith, Bool-cases,
}
use iicp_client_python.Prelude.Exec.{Result, ok, err, Result-cases}
use iicp_client_python.Prelude.Dict
use iicp_client_python.Routing.Breaker.{
  Breaker, elapsed, allow, check, record_success, record_failure,
}
use iicp_client_python.Routing.Breaker.Streaks.{
  succeeds, fails, watch, streak_of, streak_of-success, streak_of-failure,
}
use iicp_client_python.Routing.Breaker.Streaks.{Outcome as Seen}
use iicp_client_python.Routing.Retry.{
  Failure, Outcome, returned, raised, assertion_error, run, attempts_from, handle,
}
use iicp_client_python.Routing.Retry.Attempts.{Next-cases}
use iicp_client_python.Routing.Router.{
  Node, RouteError, ssrf_guard, assertion_failed, breaker_open, call_failed, Times, route,
  record_outcome,
}

module _ {A : Type 0} (is_ssrf_safe : String → Bool) (max_retries : ℕ) (node : Node)
    (submit : ℕ → Result Failure A) (times : Times) where
  -- What `route` does on each of its branches.
  pub data Routed (breaker : Breaker) : Result RouteError A × Breaker → Type 0 where
    unsafe : is_ssrf_safe node.endpoint ≡ false → Routed breaker (err ssrf_guard, breaker)
    blocked :
        is_ssrf_safe node.endpoint ≡ true
        → allow node.node_id times.checked breaker ≡ false
        → Routed breaker (err (breaker_open node.node_id), breaker)
    succeeded :
        (a : A)
        → is_ssrf_safe node.endpoint ≡ true
        → allow node.node_id times.checked breaker ≡ true
        → (run submit max_retries).outcome ≡ returned a
        → Routed breaker (ok a, record_success node.node_id breaker)
    call_raised :
        (failure : Failure)
        → is_ssrf_safe node.endpoint ≡ true
        → allow node.node_id times.checked breaker ≡ true
        → (run submit max_retries).outcome ≡ raised failure
        → Routed breaker
            (err (call_failed failure), record_failure node.node_id times.failed breaker)
    nothing_tried :
        is_ssrf_safe node.endpoint ≡ true
        → allow node.node_id times.checked breaker ≡ true
        → (run submit max_retries).outcome ≡ assertion_error
        → Routed breaker (err assertion_failed, record_failure node.node_id times.failed breaker)

  record_outcome-Routed :
      (breaker : Breaker) (o : Outcome A)
      → is_ssrf_safe node.endpoint ≡ true
      → allow node.node_id times.checked breaker ≡ true
      → (run submit max_retries).outcome ≡ o
      → Routed breaker (record_outcome node.node_id times.failed o breaker)
  unfolding record_outcome
  record_outcome-Routed breaker (returned a) h k e = succeeded a h k e
  record_outcome-Routed breaker (raised failure) h k e = call_raised failure h k e
  record_outcome-Routed breaker assertion_error h k e = nothing_tried h k e

  -- `route` has five ends. An unsafe endpoint, or else an open breaker, leads to their error, and the
  -- breaker's book stays as it is; otherwise, what the retries return is returned and recorded as a
  -- success, and what they raise is raised and recorded as a failure, as is a run of no attempts.
  pub route-Routed :
      (breaker : Breaker)
      → Routed breaker (route is_ssrf_safe max_retries node submit times breaker)
  unfolding route check
  route-Routed breaker = elim (Bool-cases (is_ssrf_safe node.endpoint)) [
    | inr e ↦ rw e (unsafe e)
    | inl e ↦ rw e (elim (Bool-cases (allow node.node_id times.checked breaker)) [
      | inr k ↦ rw k (blocked e k)
      | inl k ↦ rw k (record_outcome-Routed breaker (run submit max_retries).outcome e k refl)
    ])
  ]

  pub route-returned :
      (breaker : Breaker) (a : A)
      → is_ssrf_safe node.endpoint ≡ true
      → allow node.node_id times.checked breaker ≡ true
      → (run submit max_retries).outcome ≡ returned a
      → route is_ssrf_safe max_retries node submit times breaker
        ≡ (ok a, record_success node.node_id breaker)
  unfolding route check record_outcome
  route-returned breaker a h k e = rw (h, k, e) refl

-- What the retries return is what one of the calls returned.
module _ {A : Type 0} (fn : ℕ → Result Failure A) where
  attempts_from-returned :
      (left attempt : ℕ) (last_exc : Option Failure) (a : A)
      → (attempts_from fn left attempt last_exc).outcome ≡ returned a
      → (n : ℕ) × (fn n ≡ ok a)
  unfolding attempts_from
  attempts_from-returned zero attempt none a h = cc
  attempts_from-returned zero attempt (some e) a h = cc
  attempts_from-returned (suc left) attempt last_exc a h = elim (Result-cases (fn attempt)) [
    | inl (b, e) ↦ (attempt, ground arith)
    | inr (f, e) ↦ elim (Next-cases fn (handle f)) [
      | inl n ↦ attempts_from-returned left (suc attempt) (some f) a (ground arith)
      | inr (x, n) ↦ absurd (ground arith)
    ]
  ]

  pub run-returned :
      (max_retries : ℕ) (a : A)
      → (run fn max_retries).outcome ≡ returned a
      → (n : ℕ) × (fn n ≡ ok a)
  unfolding run
  run-returned max_retries a h = attempts_from-returned max_retries 0 none a h

-- when the breaker blocks a node, and when it does not
abbrev pub Blocked : Option ℕ → ℕ → ℕ → Type 0
Blocked none reset_s now = ⊥
Blocked (some opened) reset_s now = now < opened + reset_s

abbrev pub Unblocked : Option ℕ → ℕ → ℕ → Type 0
Unblocked none reset_s now = Unit
Unblocked (some opened) reset_s now = opened + reset_s ≤ now

-- what a result says of the node
abbrev pub outcomes : {A : Type 0} → String → ℕ → Result RouteError A → List Seen
outcomes node_id now (ok a) = succeeds node_id ∷ []
outcomes node_id now (err ssrf_guard) = []
outcomes node_id now (err (breaker_open other)) = []
outcomes node_id now (err assertion_failed) = fails node_id now ∷ []
outcomes node_id now (err (call_failed failure)) = fails node_id now ∷ []

module _ {A : Type 0} (is_ssrf_safe : String → Bool) (max_retries : ℕ) (node : Node)
    (submit : ℕ → Result Failure A) (times : Times) (breaker : Breaker) where
  -- the endpoint is safe and the node is not blocked
  abbrev pub Passed : Type 0
  Passed =
      (is_ssrf_safe node.endpoint ≡ true)
      × Unblocked (Dict.get breaker.opened_at node.node_id) breaker.reset_s times.checked

  -- what has to hold for each result
  abbrev pub Justified : Result RouteError A → Type 0
  Justified (ok a) = Passed × ((n : ℕ) × (submit n ≡ ok a))
  Justified (err ssrf_guard) = is_ssrf_safe node.endpoint ≡ false
  Justified (err (breaker_open blocked_id)) =
      (is_ssrf_safe node.endpoint ≡ true)
      × (blocked_id ≡ node.node_id)
      × Blocked (Dict.get breaker.opened_at node.node_id) breaker.reset_s times.checked
  Justified (err assertion_failed) = Passed
  Justified (err (call_failed failure)) = Passed

  allow-Unblocked :
      (opened : Option ℕ)
      → elapsed breaker.reset_s times.checked opened ≡ true
      → Unblocked opened breaker.reset_s times.checked
  allow-Unblocked none h = tt
  allow-Unblocked (some t) h = ground arith

  allow-Blocked :
      (opened : Option ℕ)
      → elapsed breaker.reset_s times.checked opened ≡ false
      → Blocked opened breaker.reset_s times.checked
  allow-Blocked none h = cc
  allow-Blocked (some t) h = ground arith

  -- the book after a result
  abbrev pub Booked : String → Result RouteError A × Breaker → Type 0
  Booked other (r, after) =
      streak_of after other
      ≡ watch breaker.threshold other (streak_of breaker other)
          (outcomes node.node_id times.failed r)

  Routed-recorded :
      (other : String) (r : Result RouteError A × Breaker)
      → Routed is_ssrf_safe max_retries node submit times breaker r
      → Booked other r × Justified r.0
  unfolding allow watch
  Routed-recorded other _ (unsafe h) = (refl, h)
  Routed-recorded other _ (blocked h k) =
      (refl, (h, refl, allow-Blocked (Dict.get breaker.opened_at node.node_id) k))
  Routed-recorded other _ (succeeded a h k e) = (
    streak_of-success breaker node.node_id other,
    (
      (h, allow-Unblocked (Dict.get breaker.opened_at node.node_id) k),
      run-returned submit max_retries a e,
    ),
  )
  Routed-recorded other _ (call_raised failure h k e) = (
    streak_of-failure breaker node.node_id times.failed other,
    (h, allow-Unblocked (Dict.get breaker.opened_at node.node_id) k),
  )
  Routed-recorded other _ (nothing_tried h k e) = (
    streak_of-failure breaker node.node_id times.failed other,
    (h, allow-Unblocked (Dict.get breaker.opened_at node.node_id) k),
  )

  -- The result of `route` and the breaker's book agree. A result or a failed call needs a safe endpoint and
  -- a node that is not blocked at the reading of the clock, and a result is what one of the calls
  -- returned; the error of the SSRF guard comes only for an unsafe endpoint, and that of the breaker only
  -- for this node, safe and blocked. And the entries of every node change as the specification of a streak
  -- says for one success of this node, one failure, or, for the two errors, nothing.
  pub route_recorded :
      (other : String)
      → let r = route is_ssrf_safe max_retries node submit times breaker in
        Booked other r × Justified r.0
  route_recorded other =
      Routed-recorded other (route is_ssrf_safe max_retries node submit times breaker)
        (route-Routed is_ssrf_safe max_retries node submit times breaker)
