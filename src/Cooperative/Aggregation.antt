-- ===== src/Cooperative/Aggregation.antt =====
-- proxy/cip/aggregation.py: `CIPAggregationResult` and the checks between its fields.
use iicp_client_python.Prelude.{
  ℕ, Bool, false, not, ◌&&◌, String, Option, none, some, ltb, ◌==◌, is_some, str_eq, if◌then◌else◌,
}
use iicp_client_python.Prelude.Exec.{Result, ok, err}

pub record CipAggregationResult : Type 0 where
  pub policy : String
  pub replicas_dispatched : ℕ
  pub replicas_responded : ℕ
  pub selected_worker_id : Option String
  pub aggregation_latency_ms : Option ℕ
  pub cip_vote_count : Option ℕ
  pub cip_quorum_threshold : Option ℕ

pub data AggregationError : Type 0 where
  too_many_responded worker_without_response no_vote_count no_quorum_threshold : AggregationError
  threshold_below_one : AggregationError

-- a value that the field's own limit, `ge=1`, refuses after the checks between fields
abbrev pub is_zero : Option ℕ → Bool
is_zero none = false
is_zero (some n) = n == 0

unfoldable pub validate_cross_fields :
    CipAggregationResult → Result AggregationError CipAggregationResult
validate_cross_fields values =
    if ltb values.replicas_dispatched values.replicas_responded
    then err too_many_responded
    else if values.replicas_responded == 0 && is_some values.selected_worker_id
    then err worker_without_response
    else if str_eq values.policy "majority_vote" && not (is_some values.cip_vote_count)
    then err no_vote_count
    else if str_eq values.policy "majority_vote" && not (is_some values.cip_quorum_threshold)
    then err no_quorum_threshold
    else if is_zero values.cip_quorum_threshold
    then err threshold_below_one
    else ok values
