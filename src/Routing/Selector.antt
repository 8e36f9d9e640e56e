-- ===== src/Routing/Selector.antt =====
-- proxy/routing/selector.py: `NodeSelector`. Loads, reputations, scores, multipliers and credits,
-- which are floats in the source, are numbers of thousandths; a key that a node lacks is `none`.
pub mod Choice
use iicp_client_python.Prelude.{
  ℕ, ◌+◌, ◌*◌, ◌/◌, Bool, true, false, not, ◌&&◌, String, Option, none, some, List, [], ◌∷◌, str_eq,
  leb, ltb, any, select as filter, if◌then◌else◌,
}

pub record Node : Type 0 where
  pub node_id : String
  pub available : Bool
  pub load : Option ℕ
  pub reputation_score : Option ℕ
  pub score : Option ℕ
  pub credit_cost_multiplier : Option ℕ
  pub models : List String

pub record Selector : Type 0 where
  pub min_reputation : ℕ
  pub max_load : ℕ

-- `_MAX_WORKER_LOAD`
abbrev pub max_worker_load : ℕ
max_worker_load = 800

unfoldable pub init : ℕ → Selector
init min_reputation = record { min_reputation = min_reputation; max_load = max_worker_load }

abbrev pub get_or : ℕ → Option ℕ → ℕ
get_or default none = default
get_or default (some n) = n

abbrev pub is_empty {ℓ} : {A : Type ℓ} → List A → Bool
is_empty [] = true
is_empty (x ∷ xs) = false

-- `_model_matches`
unfoldable pub model_matches : Node → List String → Bool
model_matches node requested =
    if is_empty requested
    then true
    else any (λ model. any (λ wanted. str_eq model wanted) requested) node.models

-- the three tests of the loop in `rank`
unfoldable pub is_usable : Selector → Node → Bool
is_usable selector node =
    if not node.available
    then false
    else if leb selector.max_load (get_or 0 node.load)
    then false
    else if ltb (get_or 1000 node.reputation_score) selector.min_reputation
    then false
    else true

-- `matching`, or everything where nothing matches
abbrev pub or_all : List Node → List Node → List Node
or_all matching available = if is_empty matching then available else matching

unfoldable pub rank : Selector → List Node → List String → List Node
rank selector nodes requested_models =
    let available = filter (is_usable selector) nodes in
    if is_empty requested_models
    then available
    else or_all (filter (λ node. model_matches node requested_models) available) available

abbrev pub multiplier : Node → ℕ
multiplier node = get_or 1000 node.credit_cost_multiplier

-- `((expected_tokens + 999) // 1000) * multiplier`
abbrev pub estimated : ℕ → Node → ℕ
estimated expected_tokens node = (expected_tokens + 999) / 1000 * multiplier node

abbrev pub filter_min : Option ℕ → List Node → List Node
filter_min none nodes = nodes
filter_min (some low) nodes = filter (λ node. leb low (get_or 0 node.score)) nodes

abbrev pub filter_max : Option ℕ → List Node → List Node
filter_max none nodes = nodes
filter_max (some high) nodes = filter (λ node. leb (multiplier node) high) nodes

-- `min(candidates, key=...)`, of at least one: the first of the cheapest
unfoldable pub cheapest : Node → List Node → Node
cheapest node [] = node
cheapest node (other ∷ nodes) =
    cheapest (if ltb (multiplier other) (multiplier node) then other else node) nodes

abbrev pub cheapest_of : List Node → List Node
cheapest_of [] = []
cheapest_of (node ∷ nodes) = cheapest node nodes ∷ []

abbrev pub in_budget : ℕ → ℕ → List Node → List Node
in_budget expected_tokens max_credits nodes =
    filter (λ node. leb (estimated expected_tokens node) max_credits) nodes

-- the last filter, with its fallback
unfoldable pub within_credits : Option ℕ → ℕ → List Node → List Node
within_credits none expected_tokens nodes = nodes
within_credits (some max_credits) expected_tokens nodes =
    let affordable = in_budget expected_tokens max_credits nodes in
    if is_empty affordable then cheapest_of nodes else affordable

unfoldable pub select_nodes :
    Selector → List Node → List String → Option ℕ → Option ℕ → Option ℕ → ℕ → List Node
select_nodes selector nodes requested max_multiplier min_quality max_credits expected_tokens =
    within_credits max_credits expected_tokens
      (filter_max max_multiplier (filter_min min_quality (rank selector nodes requested)))
