-- ===== src/Routing/Breaker.antt =====
-- proxy/routing/circuit_breaker.py: `CircuitBreaker`. Times are readings of the monotonic clock in
-- a unit fine enough for all of them.
pub mod Streaks
use iicp_client_python.Prelude.{
  [], ℕ, suc, ◌+◌, Bool, true, false, not, String, Option, none, some, leb, is_some, if◌then◌else◌,
}
use iicp_client_python.Prelude.Dict
use iicp_client_python.Prelude.Dict.{Dict}
use iicp_client_python.Prelude.Exec.{Result, ok, err}

pub record Breaker : Type 0 where
  pub threshold : ℕ
  pub reset_s : ℕ
  pub failures : Dict ℕ
  pub opened_at : Dict ℕ

pub data BreakerError : Type 0 where
  circuit_open : String → BreakerError

unfoldable pub init : ℕ → ℕ → Breaker
init threshold reset_s = record {
  threshold = threshold;
  reset_s = reset_s;
  failures = [];
  opened_at = [];
}

-- whether a node that was opened then may be tried now
abbrev pub elapsed : ℕ → ℕ → Option ℕ → Bool
elapsed reset_s now none = true
elapsed reset_s now (some opened) = leb (opened + reset_s) now

unfoldable pub allow : String → ℕ → Breaker → Bool
allow node_id now breaker = elapsed breaker.reset_s now (Dict.get breaker.opened_at node_id)

unfoldable pub record_success : String → Breaker → Breaker
record_success node_id breaker = record breaker {
  failures = Dict.remove breaker.failures node_id;
  opened_at = Dict.remove breaker.opened_at node_id;
}

-- a value of a `defaultdict(int)`
abbrev pub count_of : Option ℕ → ℕ
count_of none = 0
count_of (some n) = n

unfoldable pub record_failure : String → ℕ → Breaker → Breaker
record_failure node_id now breaker =
    let count = suc (count_of (Dict.get breaker.failures node_id)) in
    record breaker {
      failures = Dict.put breaker.failures node_id count;
      opened_at =
          if leb breaker.threshold count
          then Dict.put breaker.opened_at node_id now
          else breaker.opened_at;
    }

unfoldable pub check : String → ℕ → Breaker → Result BreakerError Unit
check node_id now breaker =
    if not (allow node_id now breaker) then err (circuit_open node_id) else ok tt
