-- ===== src/Lifecycle/Accounting.antt =====
-- service_lifecycle_accounting.py: which accounting actions one lifecycle action calls for.
-- A text that the source compares with stands as a constructor, every other value as `other`.
mod Tests
use iicp_client_python.Prelude.{
  ◌≡◌, refl, ◌⊎◌, inl, inr, ◌≢◌, Bool, true, false, not, ◌&&◌, ◌||◌, arith, if◌then◌else◌,
}

pub data Operation : Type 0 where
  submit status observe resume cancel terminal : Operation
  other_operation : Operation

pub data Binding : Type 0 where
  same conflict fresh other_binding : Binding

pub data Delivery : Type 0 where
  no_delivery partial_delivery complete_delivery other_delivery : Delivery

pub data TerminalState : Type 0 where
  completed failed cancelled expired other_state : TerminalState

-- each flag is `request.get(name) is True`
pub record Request : Type 0 where
  pub operation : Operation
  pub binding : Binding
  pub delivery : Delivery
  pub reservation_exists : Bool
  pub settlement_exists : Bool
  pub accepted : Bool
  pub resume_available : Bool
  pub explicit_new_task : Bool
  pub fresh_task_id : Bool
  pub fresh_idempotency_key : Bool
  pub terminal_state : TerminalState

pub data Reason : Type 0 where
  reject_invalid_input reject_conflict return_status replay_events : Reason
  explicit_new_task_required reject_identifier_reuse start_new_task : Reason
  reuse_execution reject_missing_reservation start_execution : Reason
  return_existing_settlement cancel_without_accounting cancel_before_acceptance : Reason
  cancel_after_partial_delivery cancel_after_acceptance : Reason
  -- `settle_{terminal_state}`, and whether `_partial` is added
  settle : TerminalState → Bool → Reason

pub data ReservationAction : Type 0 where
  no_reservation create_reservation reuse_reservation release_reservation : ReservationAction

pub data SettlementAction : Type 0 where
  no_settlement create_settlement reuse_settlement : SettlementAction

-- `LifecycleAccountingDecision`
pub record Decision : Type 0 where
  pub decision : Reason
  pub reservation_action : ReservationAction
  pub settlement_action : SettlementAction
  pub new_execution : Bool

-- `_decision`
unfoldable pub decided : Reason → ReservationAction → SettlementAction → Bool → Decision
decided reason reservation settlement execution = record {
  decision = reason;
  reservation_action = reservation;
  settlement_action = settlement;
  new_execution = execution;
}

unfoldable pub plain : Reason → Decision
unfolding decided
plain reason = decided reason no_reservation no_settlement false

abbrev pub is_same : Binding → Bool
is_same same = true
is_same _ = false

abbrev pub is_fresh : Binding → Bool
is_fresh fresh = true
is_fresh _ = false

abbrev pub is_partial : Delivery → Bool
is_partial partial_delivery = true
is_partial _ = false

-- `operation in {"status", "observe", "cancel", "terminal"}`
abbrev pub needs_same : Operation → Bool
needs_same status = true
needs_same observe = true
needs_same cancel = true
needs_same terminal = true
needs_same _ = false

unfoldable pub decide_resume : Request → Decision
unfolding decided plain
decide_resume r =
    if r.resume_available
    then plain replay_events
    else if not r.explicit_new_task
    then plain explicit_new_task_required
    else if not (is_fresh r.binding) || not r.fresh_task_id || not r.fresh_idempotency_key
    then plain reject_identifier_reuse
    else decided start_new_task create_reservation no_settlement true

unfoldable pub decide_submit : Binding → Request → Decision
unfolding decided plain
decide_submit conflict r = plain reject_conflict
decide_submit same r =
    if r.reservation_exists
    then decided reuse_execution reuse_reservation no_settlement false
    else plain reject_missing_reservation
decide_submit _ r =
    if r.reservation_exists
    then plain reject_conflict
    else decided start_execution create_reservation no_settlement true

unfoldable pub decide_cancel : Request → Decision
unfolding decided plain
decide_cancel r =
    if r.settlement_exists
    then decided return_existing_settlement reuse_reservation reuse_settlement false
    else if not r.reservation_exists
    then plain cancel_without_accounting
    else if not r.accepted
    then decided cancel_before_acceptance release_reservation no_settlement false
    else decided
        (if is_partial r.delivery then cancel_after_partial_delivery else cancel_after_acceptance)
        reuse_reservation create_settlement false

unfoldable pub settle_terminal : TerminalState → Request → Decision
unfolding decided plain
settle_terminal other_state r = plain reject_invalid_input
settle_terminal state r =
    decided (settle state (is_partial r.delivery)) reuse_reservation create_settlement false

unfoldable pub decide_terminal : Request → Decision
unfolding decided plain settle_terminal
decide_terminal r =
    if r.settlement_exists
    then decided return_existing_settlement reuse_reservation reuse_settlement false
    else if not r.reservation_exists
    then plain reject_missing_reservation
    else settle_terminal r.terminal_state r

unfoldable pub decide_operation : Operation → Request → Decision
unfolding plain decide_resume decide_submit decide_cancel decide_terminal
decide_operation status r = plain return_status
decide_operation observe r = plain replay_events
decide_operation resume r = decide_resume r
decide_operation submit r = decide_submit r.binding r
decide_operation cancel r = decide_cancel r
decide_operation _ r = decide_terminal r

abbrev pub valid_operation : Operation → Bool
valid_operation other_operation = false
valid_operation _ = true

abbrev pub valid_binding : Binding → Bool
valid_binding other_binding = false
valid_binding _ = true

abbrev pub valid_delivery : Delivery → Bool
valid_delivery other_delivery = false
valid_delivery _ = true

unfoldable pub decide_lifecycle_accounting : Request → Decision
unfolding plain decide_operation
decide_lifecycle_accounting r =
    if not (valid_operation r.operation)
      || not (valid_binding r.binding)
      || not (valid_delivery r.delivery)
    then plain reject_invalid_input
    else if needs_same r.operation && not (is_same r.binding)
    then plain reject_conflict
    else decide_operation r.operation r

-- A settlement is created at most once and only for a reservation: the decision creates one only
-- for a cancellation or a terminal report of the bound task, when no settlement exists and a
-- reservation does, and it never starts an execution with it.
pub settlement_created_once :
    (r : Request)
    → (decide_lifecycle_accounting r).settlement_action ≡ create_settlement
    → (r.settlement_exists ≡ false)
      × (r.reservation_exists ≡ true)
      × (r.binding ≡ same)
      × ((r.operation ≡ cancel) ⊎ (r.operation ≡ terminal))
      × ((decide_lifecycle_accounting r).new_execution ≡ false)
unfolding decide_lifecycle_accounting
settlement_created_once r h = ground arith

-- An execution is started only together with a new reservation; and then the binding is fresh and it
-- is a submission for which no reservation exists, or a resumption that is not available any
-- more and that asks for a new task with a new task identifier and a new idempotency key.
pub execution_needs_reservation :
    (r : Request)
    → (decide_lifecycle_accounting r).new_execution ≡ true
    → ((decide_lifecycle_accounting r).reservation_action ≡ create_reservation)
      × (r.binding ≡ fresh)
      × (((r.operation ≡ submit) × (r.reservation_exists ≡ false))
          ⊎ ((r.operation ≡ resume)
              × (r.resume_available ≡ false)
              × (r.explicit_new_task ≡ true)
              × (r.fresh_task_id ≡ true)
              × (r.fresh_idempotency_key ≡ true)))
unfolding decide_lifecycle_accounting
execution_needs_reservation r h = ground arith
