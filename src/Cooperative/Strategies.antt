-- ===== src/Cooperative/Strategies.antt =====
-- proxy/cip/strategies.py: `LocalFirstStrategy` and `SessionBudgetTracker`. Credits are numbers in
-- a unit fine enough for all of them.
use iicp_client_python.Prelude.{
  ℕ, ◌+◌, ◌-◌, Bool, true, false, not, String, Option, none, some, List, [], ◌∷◌, str_eq, leb,
  if◌then◌else◌,
}

pub record NodeInfo : Type 0 where
  pub node_id : String
  pub endpoint : String
  pub intent : Option String

-- `intent is None or node.intent is None or node.intent == intent`
abbrev pub serves : Option String → Option String → Bool
serves none node_intent = true
serves (some intent) none = true
serves (some intent) (some other) = str_eq other intent

-- `is_local` is `_is_local_endpoint`, which takes an endpoint's text apart.
module _ (is_local : String → Bool) where
  unfoldable pub should_dispatch_remote : List NodeInfo → Option String → Bool
  should_dispatch_remote [] intent = true
  should_dispatch_remote (node ∷ nodes) intent =
      let rest = should_dispatch_remote nodes intent in
      if not (is_local node.endpoint)
      then rest
      else if serves intent node.intent
      then false
      else rest

pub record SessionBudgetTracker : Type 0 where
  pub session_credit_budget : Option ℕ
  pub spent : ℕ

unfoldable pub can_spend : ℕ → SessionBudgetTracker → Bool
can_spend estimated_credits tracker = elim tracker.session_credit_budget [
  | none ↦ true
  | some budget ↦ leb (tracker.spent + estimated_credits) budget
]

unfoldable pub record_spend : ℕ → SessionBudgetTracker → SessionBudgetTracker
record_spend credits tracker = record tracker { spent = tracker.spent + credits }

unfoldable pub remaining : SessionBudgetTracker → Option ℕ
remaining tracker = elim tracker.session_credit_budget [
  | none ↦ none
  | some budget ↦ some (budget - tracker.spent)
]
