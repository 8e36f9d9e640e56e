-- ===== src/Routing/Fallback.antt =====
-- proxy/routing/fallback.py: `FallbackChain`, for calls without a runtime identity. SHA-256 over the
-- canonical JSON of a result is an argument; an awarded receipt is one that `_fire_award` is scheduled
-- for. A response keeps under `body` what nobody here looks at.
pub mod Answers
pub mod Replies
pub mod Finds
mod Tests
use iicp_client_python.Prelude.{
  ℕ, zero, suc, ◌+◌, ◌/◌, Bool, true, false, not, ◌&&◌, String, Option, none, some, List, [], ◌∷◌,
  ◌++◌, str_eq, max, if◌then◌else◌,
}
use iicp_client_python.Prelude.Exec.{Result, ok, err}
use iicp_client_python.Cooperative.Aggregation.{CipAggregationResult}
use iicp_client_python.Routing.Breaker.{Breaker}
use iicp_client_python.Routing.Retry.{Failure}
use iicp_client_python.Routing.Router.{
  Node, RouteError, ssrf_guard, assertion_failed, breaker_open, call_failed, Times, route,
}

-- `cip_receipt` of a response, as far as it is read; a receipt that is no dict has no hash.
pub record Receipt : Type 0 where
  pub response_hash : Option String
  pub rest : ℕ

pub record Response (A : Type 0) : Type 0 where
  pub cip_session_key : Option String
  pub cip_receipt : Option Receipt
  pub result : Option A
  pub cip_aggregation : Option CipAggregationResult
  pub body : ℕ

-- `cip_envelope`, and the settings of `execute` that go with it
pub record Envelope : Type 0 where
  pub session_key : Option String
  pub policy : String
  pub replicas : ℕ
  pub quorum : Option ℕ

pub data LastError : Type 0 where
  no_nodes_available circuit_was_open cip_session_key_mismatch : LastError
  response_hash_missing response_hash_mismatch : LastError
  exception : RouteError → LastError

abbrev pub quorum_or : Option ℕ → ℕ → ℕ
quorum_or none default = default
quorum_or (some quorum) default = quorum

-- `_build_cip_aggregation`
unfoldable pub build_cip_aggregation : Envelope → ℕ → Option String → CipAggregationResult
build_cip_aggregation e replicas_responded selected_worker_id =
    let majority = str_eq e.policy "majority_vote" in
    record {
      policy = e.policy;
      replicas_dispatched = e.replicas;
      replicas_responded = replicas_responded;
      selected_worker_id = selected_worker_id;
      aggregation_latency_ms = none;
      cip_vote_count = if majority then some replicas_responded else none;
      cip_quorum_threshold =
          if majority then some (quorum_or e.quorum (max 1 (e.replicas / 2 + 1))) else e.quorum;
    }

-- What `execute` returns.
pub data Answer (A : Type 0) : Type 0 where
  answered : Response A → Answer A
  no_candidates : Option CipAggregationResult → Answer A
  exhausted : LastError → Option CipAggregationResult → Answer A

-- the breaker that the router keeps, and the receipts that an award was scheduled for
pub record Chain : Type 0 where
  pub breaker : Breaker
  pub awards : List Receipt

abbrev pub fault_of : RouteError → LastError
fault_of (breaker_open node_id) = circuit_was_open
fault_of e = exception e

abbrev pub no_answer : Option Envelope → Option CipAggregationResult
no_answer none = none
no_answer (some e) = some (build_cip_aggregation e 0 none)

module _ {A : Type 0} (digest : Option A → String) where
  -- the comparison with the hash of a receipt
  abbrev pub hash_error : Option A → Option String → Option LastError
  hash_error result none = some response_hash_missing
  hash_error result (some hash) =
      if str_eq (digest result) hash then none else some response_hash_mismatch

  -- `_verify_receipt_hash`
  unfoldable pub verify_receipt_hash : Response A → Option LastError
  verify_receipt_hash response = elim response.cip_receipt [
    | none ↦ none
    | some receipt ↦ hash_error response.result receipt.response_hash
  ]

  abbrev pub same_key : Option String → String → Bool
  same_key none expected = false
  same_key (some actual) expected = str_eq actual expected

  -- the comparison of the session keys
  abbrev pub key_error : Option String → Option String → Option LastError
  key_error none actual = none
  key_error (some expected) actual =
      if same_key actual expected then none else some cip_session_key_mismatch

  -- why a response is discarded
  unfoldable pub discards : Option Envelope → Response A → Option LastError
  unfolding verify_receipt_hash
  discards none response = none
  discards (some e) response = elim (key_error e.session_key response.cip_session_key) [
    | some why ↦ some why
    | none ↦ verify_receipt_hash response
  ]

-- `_schedule_award`, where the award is enabled by a replay cache and a directory
unfoldable pub schedule_award : {A : Type 0} → Bool → Response A → Chain → Chain
schedule_award false response chain = chain
schedule_award true response chain = elim response.cip_receipt [
  | none ↦ chain
  | some receipt ↦ record chain { awards = chain.awards ++ receipt ∷ [] }
]

-- the response that is returned
unfoldable pub finished : {A : Type 0} → Option Envelope → Node → Response A → Response A
finished none node response = response
finished (some e) node response = record response {
  cip_aggregation = some (build_cip_aggregation e 1 (some node.node_id));
}

abbrev pub awarded : {A : Type 0} → Option Envelope → Bool → Response A → Chain → Chain
awarded none enabled response chain = chain
awarded (some e) enabled response chain = schedule_award enabled response chain

abbrev pub kept_unless :
    {A : Type 0} → Option LastError → Response A → Result LastError (Response A)
kept_unless none response = ok response
kept_unless (some why) response = err why

module _ {A : Type 0} (digest : Option A → String) (is_ssrf_safe : String → Bool) (max_retries : ℕ)
    (submit : ℕ → Node → ℕ → Result Failure (Response A)) (times : ℕ → Times)
    (awards_enabled : Bool) (envelope : Option Envelope) where
  -- what one candidate comes to: the answer, or the error that is remembered
  abbrev pub judged : Node → Result RouteError (Response A) → Result LastError (Response A)
  judged node (err e) = err (fault_of e)
  judged node (ok response) = kept_unless (discards digest envelope response) response

  abbrev pub tried : ℕ → Node → Breaker → Result LastError (Response A) × Breaker
  tried index node breaker =
      let (r, after) =
        route is_ssrf_safe max_retries node (submit index node) (times index) breaker in
      (judged node r, after)

  abbrev pub or_next :
      (LastError → Chain → Answer A × Chain)
      → Node
      → List Receipt
      → Result LastError (Response A) × Breaker
      → Answer A × Chain
  or_next next node awards (err why, breaker) =
      next why (record { breaker = breaker; awards = awards })
  or_next next node awards (ok response, breaker) = (
    answered (finished envelope node response),
    awarded envelope awards_enabled response (record { breaker = breaker; awards = awards }),
  )

  -- the loop, from the candidate with this index on
  unfoldable pub chain_from : ℕ → List Node → LastError → Chain → Answer A × Chain
  chain_from index [] last_error chain = (exhausted last_error (no_answer envelope), chain)
  chain_from index (node ∷ nodes) last_error chain =
      or_next (chain_from (suc index) nodes) node chain.awards (tried index node chain.breaker)

  unfoldable pub execute : List Node → Chain → Answer A × Chain
  execute [] chain = (no_candidates (no_answer envelope), chain)
  execute (node ∷ nodes) chain = chain_from 0 (node ∷ nodes) no_nodes_available chain
