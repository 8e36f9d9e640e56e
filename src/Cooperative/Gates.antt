-- ===== src/Cooperative/Gates.antt =====
-- proxy/cip/gates.py: the validation of a request's `cip` block, and the gates of remote dispatch.
-- A session key, which `make_session_key` draws at random, is an argument. The tracing spans, which
-- wrap no work, are left out.
pub mod Safety
pub mod Validation
use iicp_client_python.Prelude.{
  ℕ, ◌%◌, ◌+◌, Bool, true, false, not, ◌&&◌, ◌||◌, String, Option, none, some, List, str_eq, leb,
  ltb, ◌==◌, length, max, if◌then◌else◌, ℤ, pos, negsuc, ltb_ℤ,
}
use iicp_client_python.Prelude.Exec.{Result, ok, err}
use iicp_client_python.Cooperative.Strategies.{
  NodeInfo, SessionBudgetTracker, can_spend, should_dispatch_remote,
}

pub data CipStrategy : Type 0 where
  local_first remote_first balanced : CipStrategy

pub data DispatchResult : Type 0 where
  local remote error : DispatchResult

-- the codes that the gates and the validation return
pub data Code : Type 0 where
  e022 e024 e025 e028 e036 : Code

pub record CipDispatchConfig : Type 0 where
  pub enabled : Bool
  pub strategy : CipStrategy
  pub max_credits_per_task : ℕ
  pub session_credit_budget : Option ℕ
  pub trusted_peers : List String
  pub min_reputation : ℕ
  pub send_sensitive_prompts : Bool
  pub coordinator_timeout_ms : ℕ

-- `__post_init__`
unfoldable pub validated : CipDispatchConfig → Option CipDispatchConfig
validated config = if leb config.max_credits_per_task 0 then none else some config

pub record DispatchDecision : Type 0 where
  pub result : DispatchResult
  pub error_code : Option Code
  pub cip_session_key : Option String

abbrev pub run_locally : DispatchDecision
run_locally = record { result = local; error_code = none; cip_session_key = none }

abbrev pub run_remotely : String → DispatchDecision
run_remotely key = record { result = remote; error_code = none; cip_session_key = some key }

abbrev pub failed_with : Code → DispatchDecision
failed_with code = record { result = error; error_code = some code; cip_session_key = none }

unfoldable pub cip_exhaustion_result : Bool → DispatchDecision
cip_exhaustion_result fallback_to_local =
    if fallback_to_local then run_locally else failed_with e024

-- A value of a JSON block as the validation tells them apart: absent or null, a whole number
-- (`isinstance(x, int)`; a truth value counts as 0 or 1), or anything else.
pub data Field : Type 0 where
  absent other : Field
  number : ℤ → Field

-- the policy: absent, one of `_VALID_CIP_POLICIES`, or anything else
pub data Policy : Type 0 where
  unset best_of_n majority_vote map_reduce unknown_name : Policy

-- the `cip` value of a body, when it is a `dict`
pub record CipBlock : Type 0 where
  pub policy : Policy
  pub replicas : Field
  pub quorum : Field

abbrev pub is_majority_vote : Policy → Bool
is_majority_vote majority_vote = true
is_majority_vote _ = false

abbrev pub is_bad : Policy → Bool
is_bad unknown_name = true
is_bad _ = false

-- the checks of `replicas`
unfoldable pub check_replicas : Policy → Field → Option Code
check_replicas policy absent = none
check_replicas policy other = some e028
check_replicas policy (number (negsuc n)) = some e028
check_replicas policy (number (pos n)) =
    if ltb n 1 || ltb 10 n
    then some e028
    else if is_majority_vote policy && n % 2 == 0
    then some e025
    else none

abbrev pub effective_replicas : Field → ℤ
effective_replicas (number n) = n
effective_replicas _ = pos 1

-- the checks of `quorum`
unfoldable pub check_quorum : Field → Field → Option Code
check_quorum replicas absent = none
check_quorum replicas other = some e028
check_quorum replicas (number (negsuc n)) = some e028
check_quorum replicas (number (pos quorum)) =
    if ltb quorum 1
    then some e028
    else if ltb_ℤ (effective_replicas replicas) quorum
    then some e028
    else none

abbrev pub or_else : Option Code → Option Code → Option Code
or_else (some code) next = some code
or_else none next = next

unfoldable pub validate_cip_request_fields : Option CipBlock → Option Code
validate_cip_request_fields none = none
validate_cip_request_fields (some cip) =
    if is_bad cip.policy
    then some e028
    else or_else (check_replicas cip.policy cip.replicas) (check_quorum cip.replicas cip.quorum)

abbrev pub is_local_first : CipStrategy → Bool
is_local_first local_first = true
is_local_first _ = false

unfoldable pub blocked_remote : CipDispatchConfig → Code → DispatchDecision
blocked_remote config error_code =
    if is_local_first config.strategy then run_locally else failed_with error_code

-- `session_tracker is not None and not session_tracker.can_spend(...)`
abbrev pub session_exhausted : ℕ → Option SessionBudgetTracker → Bool
session_exhausted estimated_credits none = false
session_exhausted estimated_credits (some tracker) = not (can_spend estimated_credits tracker)

-- `consumer_balance is not None and estimated_credits > consumer_balance`
abbrev pub unaffordable : ℕ → Option ℕ → Bool
unaffordable estimated_credits none = false
unaffordable estimated_credits (some balance) = ltb balance estimated_credits

unfoldable pub affordability_gate :
    ℕ → CipDispatchConfig → Option SessionBudgetTracker → Option ℕ → Option DispatchDecision
affordability_gate estimated_credits config session_tracker consumer_balance =
    if ltb config.max_credits_per_task estimated_credits
    then some run_locally
    else if session_exhausted estimated_credits session_tracker
    then some run_locally
    else if unaffordable estimated_credits consumer_balance
    then some (blocked_remote config e036)
    else none

-- the arguments of `decide_dispatch`; `sensitivity` says whether it is "high"
pub record Request : Type 0 where
  pub estimated_credits : ℕ
  pub sensitive : Bool
  pub eligible_workers : List String
  pub node_list : Option (List NodeInfo)
  pub intent : Option String
  pub session_tracker : Option SessionBudgetTracker
  pub replicas : ℤ
  pub consumer_balance : Option ℕ

-- `max(replicas, 1)`
abbrev pub required_workers : ℤ → ℕ
required_workers (pos n) = max n 1
required_workers (negsuc n) = 1

module _ (is_local : String → Bool) where
  -- gate 4, when it keeps the task local
  unfoldable pub prefers_local : CipDispatchConfig → Option (List NodeInfo) → Option String → Bool
  prefers_local config none intent = false
  prefers_local config (some nodes) intent =
      is_local_first config.strategy && not (should_dispatch_remote is_local nodes intent)

  -- gates 3 to 6
  unfoldable pub placement : CipDispatchConfig → Request → String → DispatchDecision
  placement config request key =
      if request.sensitive && not config.send_sensitive_prompts
      then run_locally
      else if prefers_local config request.node_list request.intent
      then run_locally
      else if ltb (length request.eligible_workers) (required_workers request.replicas)
      then blocked_remote config e022
      else run_remotely key

  unfoldable pub decide_dispatch : CipDispatchConfig → Request → String → DispatchDecision
  decide_dispatch config request key =
      if not config.enabled
      then run_locally
      else elim (affordability_gate request.estimated_credits config request.session_tracker
          request.consumer_balance) [
            | some decision ↦ decision
            | none ↦ placement config request key
          ]

-- the three entries of a worker's envelope
pub record Envelope : Type 0 where
  pub cip_session_key : String
  pub cip_parent_task_id : String

unfoldable pub build_cip_envelope : DispatchDecision → String → Option Envelope
build_cip_envelope decision parent_task_id = elim decision.result [
  | remote ↦ elim decision.cip_session_key [
    | none ↦ none
    | some key ↦ some (record { cip_session_key = key; cip_parent_task_id = parent_task_id })
  ]
  | _ ↦ none
]
