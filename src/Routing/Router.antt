-- ===== src/Routing/Router.antt =====
-- proxy/routing/router.py: `TaskRouter.route`. What `_is_ssrf_safe` says of an endpoint and what each
-- call of `NodeClient.submit_task` comes to are arguments; the two readings of the clock are that of
-- the breaker's check and that of a recorded failure.
pub mod Books
use iicp_client_python.Prelude.{ℕ, Bool, true, false, String, Option, none, some}
use iicp_client_python.Prelude.Exec.{Result, ok, err, Exec, guard, ◌>>=◌, ◌>>◌}
use iicp_client_python.Routing.Breaker.{
  Breaker, BreakerError, circuit_open, check, record_success, record_failure,
}
use iicp_client_python.Routing.Retry.{Failure, Outcome, returned, raised, assertion_error, run}

-- the entries of a node that the router reads
pub record Node : Type 0 where
  pub node_id : String
  pub endpoint : String

-- What `route` raises.
pub data RouteError : Type 0 where
  ssrf_guard assertion_failed : RouteError
  breaker_open : String → RouteError
  call_failed : Failure → RouteError

-- the readings of the clock during one `route`
pub record Times : Type 0 where
  pub checked : ℕ
  pub failed : ℕ

abbrev pub open_or : Result BreakerError Unit → Result RouteError Unit
open_or (ok u) = ok u
open_or (err (circuit_open node_id)) = err (breaker_open node_id)

abbrev pub Route : Type 0 → Type 0
Route A = Exec Breaker RouteError A

-- `self._circuit.check(node_id)`
abbrev pub check_circuit : String → ℕ → Route (Unit {0})
check_circuit node_id now breaker = (open_or (check node_id now breaker), breaker)

module _ {A : Type 0} where
  -- what is recorded of a call, and what is returned or raised
  unfoldable pub record_outcome : String → ℕ → Outcome A → Route A
  record_outcome node_id now (returned result) breaker = (ok result, record_success node_id breaker)
  record_outcome node_id now (raised failure) breaker =
      (err (call_failed failure), record_failure node_id now breaker)
  record_outcome node_id now assertion_error breaker =
      (err assertion_failed, record_failure node_id now breaker)

  unfoldable pub route : (String → Bool) → ℕ → Node → (ℕ → Result Failure A) → Times → Route A
  unfolding record_outcome
  route is_ssrf_safe max_retries node submit times = do
    guard (is_ssrf_safe node.endpoint) ssrf_guard
    check_circuit node.node_id times.checked
    record_outcome node.node_id times.failed (run submit max_retries).outcome
