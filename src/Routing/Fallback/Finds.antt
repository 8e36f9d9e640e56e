-- ===== src/Routing/Fallback/Finds.antt =====
-- Candidates of `FallbackChain.execute` of proxy/routing/fallback.py that answer, and the aggregation
-- it adds.
use iicp_client_python.Prelude.{
  ℕ, suc, ◌+◌, ◌≤◌, ◌≡◌, ◌≢◌, refl, ap, sym, ◌∙◌, inl, inr, Bool, true, false, String, Option, none,
  some, List, [], ◌∷◌, ◌++◌, All, length, arith, str_eq, eq_iff, Option-cases, Bool-cases,
}
use iicp_client_python.Prelude.Exec.{Result, ok, err}
use iicp_client_python.Cooperative.Aggregation.{validate_cross_fields}
use iicp_client_python.Routing.Breaker.{Breaker, allow, elapsed, record_success, record_failure}
use iicp_client_python.Routing.Breaker.Streaks.{
  Outcome, succeeds, fails, observe, run, Streak, streak_of-success, streak_of-failure,
}
use iicp_client_python.Routing.Retry.{Failure, returned}
use iicp_client_python.Routing.Retry.{run as run_attempts}
use iicp_client_python.Routing.Router.{Node, RouteError, Times}
use iicp_client_python.Routing.Router.Books.{route-Routed, route-returned}
use iicp_client_python.Routing.Fallback.{
  Response, Receipt, Envelope, LastError, Answer, answered, Chain, discards, finished, judged,
  kept_unless, tried, or_next, chain_from, execute, build_cip_aggregation, no_nodes_available,
}
use iicp_client_python.Routing.Fallback.Answers.{subject, Tried, Routed-Tried}

other_text : (a b : String) → a ≢ b → str_eq a b ≡ false
other_text a b h = ground (arith, eq_iff a b)

allow-observe :
    (node_id : String) (now : ℕ) (breaker : Breaker) (o : Outcome)
    → subject o ≢ node_id
    → allow node_id now (observe breaker o) ≡ allow node_id now breaker
unfolding allow observe record_success record_failure
allow-observe node_id now breaker (succeeds other) h =
    let same : str_eq other node_id ≡ false = other_text other node_id h in
    ap (λ (s : Streak). elapsed breaker.reset_s now s.opened)
      (rw same at (streak_of-success breaker other node_id))
allow-observe node_id now breaker (fails other time) h =
    let same : str_eq other node_id ≡ false = other_text other node_id h in
    ap (λ (s : Streak). elapsed breaker.reset_s now s.opened)
      (rw same at (streak_of-failure breaker other time node_id))

allow-run :
    (node_id other : String) (now : ℕ) (breaker : Breaker) (os : List Outcome)
    → other ≢ node_id
    → All (λ o. subject o ≡ other) os
    → allow node_id now (run breaker os) ≡ allow node_id now breaker
unfolding run
allow-run node_id other now breaker [] h k = refl
allow-run node_id other now breaker (o ∷ os) h k =
    allow-run node_id other now (observe breaker o) os h k.1
    ∙ allow-observe node_id now breaker o (λ e. h (sym k.0 ∙ e))

module _ {A : Type 0} (digest : Option A → String) (is_ssrf_safe : String → Bool) (max_retries : ℕ)
    (submit : ℕ → Node → ℕ → Result Failure (Response A)) (times : ℕ → Times)
    (awards_enabled : Bool) (envelope : Option Envelope) where
  -- a candidate that answers, when its breaker lets it
  record Good (index : ℕ) (node : Node) (raw : Response A) : Type 0 where
    safe : is_ssrf_safe node.endpoint ≡ true
    answers : (run_attempts (submit index node) max_retries).outcome ≡ returned raw
    kept : discards digest envelope raw ≡ none

  tried-Good :
      (index : ℕ) (node : Node) (raw : Response A) (breaker : Breaker)
      → Good index node raw
      → allow node.node_id (times index).checked breaker ≡ true
      → tried digest is_ssrf_safe max_retries submit times awards_enabled envelope index node
          breaker
        ≡ (ok raw, record_success node.node_id breaker)
  tried-Good index node raw breaker g k =
      ap
        (λ (r : Result RouteError (Response A) × Breaker). (
          judged digest is_ssrf_safe max_retries submit times awards_enabled envelope node r.0,
          r.1,
        ))
        (route-returned is_ssrf_safe max_retries node (submit index node) (times index) breaker raw
          g.safe k g.answers)
      ∙ ap (λ (o : Option LastError). (kept_unless o raw, record_success node.node_id breaker))
          g.kept

  or_next-finds :
      (node : Node) (awards : List Receipt) (r : Result LastError (Response A) × Breaker)
      (next : LastError → Chain → Answer A × Chain)
      → ((why : LastError) (c : Chain)
          → c.breaker ≡ r.1
          → (a : Response A) × ((next why c).0 ≡ answered a))
      → (a : Response A) × ((or_next digest is_ssrf_safe max_retries submit times awards_enabled
            envelope next node awards r).0
          ≡ answered a)
  or_next-finds node awards (ok a, after) next w = (finished envelope node a, refl)
  or_next-finds node awards (err why, after) next w =
      w why (record { breaker = after; awards = awards }) refl

  chain_from-finds :
      (before : List Node) (index at : ℕ) (node : Node) (after : List Node) (raw : Response A)
      (why : LastError) (chain : Chain)
      → at ≡ index + length before
      → Good at node raw
      → allow node.node_id (times at).checked chain.breaker ≡ true
      → All (λ other. other.node_id ≢ node.node_id) before
      → (r : Response A) × ((chain_from digest is_ssrf_safe max_retries submit times awards_enabled
            envelope index
            (before ++ node ∷ after)
            why
            chain).0
          ≡ answered r)
  unfolding chain_from
  chain_from-finds [] index at node after raw why chain e g k d =
      let same : index ≡ at = omega arith in
      (finished envelope node raw, rw same (rw (tried-Good at node raw chain.breaker g k) refl))
  chain_from-finds (b ∷ before) index at node after raw why chain e g k d =
      let t : Tried digest is_ssrf_safe max_retries submit times awards_enabled envelope index b
          chain.breaker _ =
        Routed-Tried digest is_ssrf_safe max_retries submit times awards_enabled envelope index b
          chain.breaker _
          (route-Routed is_ssrf_safe max_retries b (submit index b) (times index) chain.breaker) in
      or_next-finds b chain.awards
        (tried digest is_ssrf_safe max_retries submit times awards_enabled envelope index b
          chain.breaker)
        (chain_from digest is_ssrf_safe max_retries submit times awards_enabled envelope (suc index)
          (before ++ node ∷ after))
        (λ w c same.
          chain_from-finds before (suc index) at node after raw w c (omega arith) g
            (ap (allow node.node_id (times at).checked) (same ∙ t.book)
              ∙ allow-run node.node_id b.node_id (times at).checked chain.breaker t.seen d.0 t.own
              ∙ k)
            d.1)

  -- A candidate that can answer is enough: if the router may call it, no candidate before it has its identifier, the
  -- breaker allows it at the time of its check, and its call or retries return a response that is not
  -- discarded, then the chain answers, whatever the other candidates do.
  pub execute_finds :
      (before : List Node) (node : Node) (after : List Node) (raw : Response A) (chain : Chain)
      → is_ssrf_safe node.endpoint ≡ true
      → (run_attempts (submit (length before) node) max_retries).outcome ≡ returned raw
      → discards digest envelope raw ≡ none
      → allow node.node_id (times (length before)).checked chain.breaker ≡ true
      → All (λ other. other.node_id ≢ node.node_id) before
      → (r : Response A) × ((execute digest is_ssrf_safe max_retries submit times awards_enabled
            envelope
            (before ++ node ∷ after)
            chain).0
          ≡ answered r)
  unfolding execute
  execute_finds [] node after raw chain safe answers kept k d =
      chain_from-finds [] 0 0 node after raw no_nodes_available chain refl
        (record { safe = safe; answers = answers; kept = kept }) k d
  execute_finds (b ∷ before) node after raw chain safe answers kept k d =
      chain_from-finds (b ∷ before) 0 (length (b ∷ before)) node after raw no_nodes_available chain
        (omega arith) (record { safe = safe; answers = answers; kept = kept }) k d

-- The aggregation that the chain adds is one that `CIPAggregationResult` accepts, with the answering
-- worker or, for a chain without an answer, with none, if something was dispatched and the quorum that was
-- asked for is not 0.
pub aggregation_accepted :
    (e : Envelope) (worker : String)
    → 1 ≤ e.replicas
    → e.quorum ≢ some 0
    → (validate_cross_fields (build_cip_aggregation e 1 (some worker))
        ≡ ok (build_cip_aggregation e 1 (some worker)))
      × (validate_cross_fields (build_cip_aggregation e 0 none)
          ≡ ok (build_cip_aggregation e 0 none))
unfolding build_cip_aggregation validate_cross_fields
aggregation_accepted e worker h k = elim (Bool-cases (str_eq e.policy "majority_vote")) [
  | inl m ↦ elim (Option-cases e.quorum) [
    | inl q ↦ rw (m, q) (ground arith, ground arith)
    | inr (n, q) ↦ rw (m, q) (ground arith, ground arith)
  ]
  | inr m ↦ elim (Option-cases e.quorum) [
    | inl q ↦ rw (m, q) (ground arith, ground arith)
    | inr (n, q) ↦ rw (m, q) (ground arith, ground arith)
  ]
]
