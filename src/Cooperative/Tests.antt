-- ===== src/Cooperative/Tests.antt =====
-- Runs of the gates on a concrete task.
use iicp_client_python.Prelude.{
  ◌≡◌, ◌↔◌, Bool, true, false, String, none, some, [], ◌∷◌, pos, if◌then◌else◌,
}
use iicp_client_python.Cooperative.Gates.{
  CipDispatchConfig, Request, CipBlock, decide_dispatch, build_cip_envelope,
  validate_cip_request_fields, remote_first, majority_vote, number,
}
use iicp_client_python.Cooperative.Gates.Safety.{may_leave, envelope_iff_allowed}
use iicp_client_python.Cooperative.Gates.Validation.{ValidBlock, validate_iff_valid}

abbrev is_local : String → Bool
is_local endpoint = false

abbrev config : CipDispatchConfig
config = record {
  enabled = true;
  strategy = remote_first;
  max_credits_per_task = 10000;
  session_credit_budget = none;
  trusted_peers = [];
  min_reputation = 0;
  send_sensitive_prompts = false;
  coordinator_timeout_ms = 30000;
}

abbrev request : Request
request = record {
  estimated_credits = 1000;
  sensitive = false;
  eligible_workers = "w" ∷ [];
  node_list = none;
  intent = none;
  session_tracker = some (record { session_credit_budget = some 5000; spent = 3000 });
  replicas = pos 1;
  consumer_balance = some 1000;
}

envelope_iff_allowed_example :
    build_cip_envelope (decide_dispatch is_local config request "key") "parent" ≡ (
      if may_leave is_local config request
      then some (record { cip_session_key = "key"; cip_parent_task_id = "parent" })
      else none)
envelope_iff_allowed_example = envelope_iff_allowed is_local config request "key" "parent"

abbrev block : CipBlock
block = record { policy = majority_vote; replicas = number (pos 3); quorum = number (pos 2) }

validate_iff_valid_example : (validate_cip_request_fields (some block) ≡ none) ↔ ValidBlock block
validate_iff_valid_example = validate_iff_valid block
