-- ===== src/Cooperative/Gates/Safety.antt =====
-- `decide_dispatch` of proxy/cip/gates.py: the conditions on which a task leaves the machine.
use iicp_client_python.Prelude.{
  ℕ, ◌+◌, List, [], ◌∷◌, Option, ℤ, pos, negsuc, any, str_eq, ◌≡◌, ◌≢◌, refl, Bool, true, false,
  not, ◌&&◌, String, none, some, arith, leb, length, if◌then◌else◌, Option-cases, Bool-cases, ◌⊎◌,
  inl, inr, is_some,
}
use iicp_client_python.Cooperative.Gates.{
  remote, error, CipDispatchConfig, DispatchDecision, run_locally, blocked_remote,
  session_exhausted, unaffordable, affordability_gate, Request, required_workers, prefers_local,
  placement, decide_dispatch, build_cip_envelope, local_first, CipStrategy, remote_first, balanced,
}
use iicp_client_python.Cooperative.Strategies.{
  NodeInfo, SessionBudgetTracker, can_spend, should_dispatch_remote,
}

-- what is spent and the estimate are within the session's budget, if it has one
abbrev pub within_budget : ℕ → Option SessionBudgetTracker → Bool
within_budget estimate none = true
within_budget estimate (some tracker) = elim tracker.session_credit_budget [
  | none ↦ true
  | some budget ↦ leb (tracker.spent + estimate) budget
]

abbrev pub within_balance : ℕ → Option ℕ → Bool
within_balance estimate none = true
within_balance estimate (some balance) = leb estimate balance

-- at least one worker, and no fewer than replicas
abbrev pub enough_workers : ℤ → ℕ → Bool
enough_workers (pos replicas) workers = leb 1 workers && leb replicas workers
enough_workers (negsuc n) workers = leb 1 workers

-- a provider for an intent: one of the two names none, or both name the same
abbrev pub offers : Option String → Option String → Bool
offers wanted none = true
offers none (some offered) = true
offers (some wanted) (some offered) = str_eq offered wanted

-- the strategy is local-first, and a known local node is a provider
abbrev pub stays_here :
    (String → Bool) → CipStrategy → Option (List NodeInfo) → Option String → Bool
stays_here is_local local_first (some nodes) intent =
    any (λ node. is_local node.endpoint && offers intent node.intent) nodes
stays_here is_local local_first none intent = false
stays_here is_local remote_first nodes intent = false
stays_here is_local balanced nodes intent = false

should_dispatch_remote-any :
    (is_local : String → Bool) (nodes : List NodeInfo) (intent : Option String)
    → should_dispatch_remote is_local nodes intent
      ≡ not (any (λ node. is_local node.endpoint && offers intent node.intent) nodes)
unfolding should_dispatch_remote
should_dispatch_remote-any is_local [] intent = refl
should_dispatch_remote-any is_local (node ∷ nodes) intent =
    ground (arith, should_dispatch_remote-any is_local nodes intent)

prefers_local-stays_here :
    (is_local : String → Bool) (config : CipDispatchConfig) (nodes : Option (List NodeInfo))
    (intent : Option String)
    → prefers_local is_local config nodes intent ≡ stays_here is_local config.strategy nodes intent
unfolding prefers_local
prefers_local-stays_here is_local config none intent = ground arith
prefers_local-stays_here is_local config (some nodes) intent =
    ground (arith, should_dispatch_remote-any is_local nodes intent)

required_workers-enough :
    (replicas : ℤ) (workers : ℕ)
    → leb (required_workers replicas) workers ≡ enough_workers replicas workers
required_workers-enough (pos replicas) workers = ground arith
required_workers-enough (negsuc n) workers = ground arith

session_exhausted-within_budget :
    (estimate : ℕ) (tracker : Option SessionBudgetTracker)
    → not (session_exhausted estimate tracker) ≡ within_budget estimate tracker
unfolding can_spend
session_exhausted-within_budget estimate none = refl
session_exhausted-within_budget estimate (some tracker) = ground arith

unaffordable-within_balance :
    (estimate : ℕ) (balance : Option ℕ)
    → not (unaffordable estimate balance) ≡ within_balance estimate balance
unaffordable-within_balance estimate none = refl
unaffordable-within_balance estimate (some balance) = ground arith

-- the conditions of remote dispatch, as one test
abbrev pub affordable : CipDispatchConfig → Request → Bool
affordable config request =
    leb request.estimated_credits config.max_credits_per_task
    && (within_budget request.estimated_credits request.session_tracker
        && within_balance request.estimated_credits request.consumer_balance)

-- the tests of gates 3 to 6
abbrev pub placeable : (String → Bool) → CipDispatchConfig → Request → Bool
placeable is_local config request =
    not (request.sensitive && not config.send_sensitive_prompts)
    && (not (stays_here is_local config.strategy request.node_list request.intent)
        && enough_workers request.replicas (length request.eligible_workers))

abbrev pub may_leave : (String → Bool) → CipDispatchConfig → Request → Bool
may_leave is_local config request =
    config.enabled && (affordable config request && placeable is_local config request)

affordability_gate-affordable :
    (config : CipDispatchConfig) (request : Request)
    → is_some (
        affordability_gate request.estimated_credits config request.session_tracker
          request.consumer_balance)
      ≡ not (affordable config request)
unfolding affordability_gate
affordability_gate-affordable config request = ground (
  arith,
  session_exhausted-within_budget request.estimated_credits request.session_tracker,
  unaffordable-within_balance request.estimated_credits request.consumer_balance,
)

-- a decision that does not go out
abbrev StaysHome : DispatchDecision → Type 0
StaysHome decision = (decision.result ≢ remote) × (decision.cip_session_key ≡ none)

affordability_gate-StaysHome :
    (config : CipDispatchConfig) (request : Request) (decision : DispatchDecision)
    → affordability_gate request.estimated_credits config request.session_tracker
        request.consumer_balance
      ≡ some decision
    → StaysHome decision
unfolding affordability_gate blocked_remote
affordability_gate-StaysHome config request decision h = ground arith

affordability_gate-result :
    (config : CipDispatchConfig) (request : Request) (decision : DispatchDecision)
    → config.strategy ≡ local_first
    → affordability_gate request.estimated_credits config request.session_tracker
        request.consumer_balance
      ≡ some decision
    → decision.result ≢ error
unfolding affordability_gate blocked_remote
affordability_gate-result config request decision h e = ground arith

StaysHome-envelope :
    (decision : DispatchDecision) (parent : String)
    → StaysHome decision
    → build_cip_envelope decision parent ≡ none
unfolding build_cip_envelope
StaysHome-envelope decision parent h = ground arith

-- whether the gate for money lets a task through
gate-cases :
    (config : CipDispatchConfig) (request : Request)
    → ((affordable config request ≡ true)
        × (affordability_gate request.estimated_credits config request.session_tracker
              request.consumer_balance
            ≡ none))
      ⊎ ((affordable config request ≡ false)
          × ((decision : DispatchDecision) × (affordability_gate request.estimated_credits config
                  request.session_tracker request.consumer_balance
                ≡ some decision)))
gate-cases config request =
    let gate = affordability_gate-affordable config request in
    elim (Option-cases (
      affordability_gate request.estimated_credits config request.session_tracker
        request.consumer_balance)) [
          | inl e ↦ inl (ground arith, e)
          | inr (decision, e) ↦ inr (ground arith, (decision, e))
        ]

module _ (is_local : String → Bool) where
  placement-envelope :
      (config : CipDispatchConfig) (request : Request) (key parent : String)
      → build_cip_envelope (placement is_local config request key) parent ≡ (
          if placeable is_local config request
          then some (record { cip_session_key = key; cip_parent_task_id = parent })
          else none)
  unfolding build_cip_envelope placement blocked_remote
  placement-envelope config request key parent = ground (
    arith,
    prefers_local-stays_here is_local config request.node_list request.intent,
    required_workers-enough request.replicas (length request.eligible_workers),
  )

  decide_dispatch-off :
      (config : CipDispatchConfig) (request : Request) (key : String)
      → config.enabled ≡ false
      → decide_dispatch is_local config request key ≡ run_locally
  unfolding decide_dispatch
  decide_dispatch-off config request key h = rw h refl

  decide_dispatch-gated :
      (config : CipDispatchConfig) (request : Request) (key : String) (decision : DispatchDecision)
      → config.enabled ≡ true
      → affordability_gate request.estimated_credits config request.session_tracker
          request.consumer_balance
        ≡ some decision
      → decide_dispatch is_local config request key ≡ decision
  unfolding decide_dispatch
  decide_dispatch-gated config request key decision h e = ground arith

  decide_dispatch-placed :
      (config : CipDispatchConfig) (request : Request) (key : String)
      → config.enabled ≡ true
      → affordability_gate request.estimated_credits config request.session_tracker
          request.consumer_balance
        ≡ none
      → decide_dispatch is_local config request key ≡ placement is_local config request key
  unfolding decide_dispatch
  decide_dispatch-placed config request key h e = ground arith

  -- A task's envelope for a remote worker, with the session key that was drawn, is made exactly when
  -- cooperative inference is on, the estimate is within the task's ceiling, the session's budget and
  -- the consumer's balance, a sensitive prompt may be sent, no local provider is preferred, and there
  -- are as many eligible workers as replicas and at least one; in every other case there is none.
  pub envelope_iff_allowed :
      (config : CipDispatchConfig) (request : Request) (key parent : String)
      → build_cip_envelope (decide_dispatch is_local config request key) parent ≡ (
          if may_leave is_local config request
          then some (record { cip_session_key = key; cip_parent_task_id = parent })
          else none)
  envelope_iff_allowed config request key parent = elim (Bool-cases config.enabled) [
    | inr off ↦ ground (
      arith,
      decide_dispatch-off config request key off,
      StaysHome-envelope run_locally parent (λ e. cc, refl),
    )
    | inl on ↦ elim (gate-cases config request) [
      | inl (fits, e) ↦ ground (
        arith,
        decide_dispatch-placed config request key on e,
        placement-envelope config request key parent,
      )
      | inr (over, (decision, e)) ↦
          let home = affordability_gate-StaysHome config request decision e in
          ground (
            arith,
            decide_dispatch-gated config request key decision on e,
            StaysHome-envelope decision parent home,
          )
    ]
  ]

  placement-result :
      (config : CipDispatchConfig) (request : Request) (key : String)
      → config.strategy ≡ local_first
      → (placement is_local config request key).result ≢ error
  unfolding placement blocked_remote
  placement-result config request key h = ground arith

  -- Under the local-first strategy no gate makes a task fail: it is run here or by remote workers.
  pub local_first_never_fails :
      (config : CipDispatchConfig) (request : Request) (key : String)
      → config.strategy ≡ local_first
      → (decide_dispatch is_local config request key).result ≢ error
  local_first_never_fails config request key h = elim (Bool-cases config.enabled) [
    | inr off ↦ ground (arith, decide_dispatch-off config request key off)
    | inl on ↦ elim (gate-cases config request) [
      | inl (fits, e) ↦ ground (
        arith,
        decide_dispatch-placed config request key on e,
        placement-result config request key h,
      )
      | inr (over, (decision, e)) ↦ ground (
        arith,
        decide_dispatch-gated config request key decision on e,
        affordability_gate-result config request decision h e,
      )
    ]
  ]
