-- ===== src/Lifecycle/Accounting/Tests.antt =====
-- Decisions on concrete requests.
use iicp_client_python.Prelude.{◌≡◌, ◌⊎◌, refl, true, false}
use iicp_client_python.Lifecycle.Accounting.{
  Request, submit, cancel, terminal, same, fresh, no_delivery, partial_delivery, completed, decided,
  decide_lifecycle_accounting, decide_operation, settlement_created_once,
}

abbrev finishing : Request
finishing = record {
  operation = terminal;
  binding = same;
  delivery = partial_delivery;
  reservation_exists = true;
  settlement_exists = false;
  accepted = true;
  resume_available = false;
  explicit_new_task = false;
  fresh_task_id = false;
  fresh_idempotency_key = false;
  terminal_state = completed;
}

abbrev starting : Request
starting = record finishing {
  operation = submit;
  binding = fresh;
  delivery = no_delivery;
  reservation_exists = false;
}

settlement_created_once_example :
    (finishing.settlement_exists ≡ false)
    × (finishing.reservation_exists ≡ true)
    × (finishing.binding ≡ same)
    × ((finishing.operation ≡ cancel) ⊎ (finishing.operation ≡ terminal))
    × ((decide_lifecycle_accounting finishing).new_execution ≡ false)
unfolding decide_lifecycle_accounting decide_operation decided
settlement_created_once_example = settlement_created_once finishing refl
