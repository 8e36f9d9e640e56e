-- ===== src/Routing/Fallback/Answers.antt =====
-- What `FallbackChain.execute` of proxy/routing/fallback.py answers, and what it leaves.
use iicp_client_python.Prelude.{
  ℕ, suc, ◌≤◌, ◌≡◌, refl, ap, sym, ◌∙◌, ◌⊎◌, inl, inr, Bool, true, false, String, Option, none,
  some, List, [], ◌∷◌, ◌++◌, All, length, length-append, All-append, arith, eq_iff, Option-cases,
  Bool-cases, str_eq,
}
use mathlib.Core.Path.{subst}
use iicp_client_python.Prelude.Exec.{Result, ok, err}
use iicp_client_python.Routing.Breaker.{Breaker}
use iicp_client_python.Routing.Breaker.Streaks.{
  Outcome, succeeds, fails, observe, run, streak_of, streak_of-success, streak_of-failure,
}
use iicp_client_python.Routing.Retry.{Failure}
use iicp_client_python.Routing.Router.{Node, RouteError, Times}
use iicp_client_python.Routing.Router.Books.{
  Routed, unsafe, blocked, succeeded, call_raised, nothing_tried, route-Routed, run-returned,
}
use iicp_client_python.Routing.Fallback.{
  Response, Receipt, Envelope, LastError, Answer, answered, Chain, discards, awarded,
  schedule_award, judged, tried, or_next, chain_from, execute, no_nodes_available,
}
use iicp_client_python.Routing.Fallback.Replies.{
  Bound, Aggregated, discards-Bound, finished-Aggregated,
}

-- the node that an outcome is about
abbrev pub subject : Outcome → String
subject (succeeds node_id) = node_id
subject (fails node_id now) = node_id

abbrev pub Named : String → List Node → Type 0
Named node_id [] = ⊥
Named node_id (other ∷ nodes) = (node_id ≡ other.node_id) ⊎ Named node_id nodes

abbrev pub Among : Node → List Node → Type 0
Among node [] = ⊥
Among node (other ∷ nodes) = (node ≡ other) ⊎ Among node nodes

-- outcomes about candidates leave the entries of every other node as they are
observe-kept :
    (breaker : Breaker) (o : Outcome) (node_id : String)
    → str_eq (subject o) node_id ≡ false
    → streak_of (observe breaker o) node_id ≡ streak_of breaker node_id
unfolding observe
observe-kept breaker (succeeds other) node_id h = rw h at (streak_of-success breaker other node_id)
observe-kept breaker (fails other now) node_id h =
    rw h at (streak_of-failure breaker other now node_id)

run-kept :
    (breaker : Breaker) (nodes : List Node) (node_id : String) (os : List Outcome)
    → All (λ o. Named (subject o) nodes) os
    → Named node_id nodes ⊎ (streak_of (run breaker os) node_id ≡ streak_of breaker node_id)
unfolding run
run-kept breaker nodes node_id [] h = inr refl
run-kept breaker nodes node_id (o ∷ os) h = elim (Bool-cases (str_eq (subject o) node_id)) [
  | inl e ↦
      let same : subject o ≡ node_id = (eq_iff (subject o) node_id).0 e in
      inl (subst (λ i. Named i nodes) same h.0)
  | inr e ↦ elim (run-kept (observe breaker o) nodes node_id os h.1) [
    | inl named ↦ inl named
    | inr kept ↦ inr (kept ∙ observe-kept breaker o node_id e)
  ]
]

awarded-breaker :
    {A : Type 0} (envelope : Option Envelope) (enabled : Bool) (r : Response A) (chain : Chain)
    → (awarded envelope enabled r chain).breaker ≡ chain.breaker
unfolding schedule_award
awarded-breaker none enabled r chain = refl
awarded-breaker (some e) false r chain = refl
awarded-breaker (some e) true r chain = elim (Option-cases r.cip_receipt) [
  | inl k ↦ rw k refl
  | inr (c, k) ↦ rw k refl
]

module _ {A : Type 0} (digest : Option A → String) (is_ssrf_safe : String → Bool) (max_retries : ℕ)
    (submit : ℕ → Node → ℕ → Result Failure (Response A)) (times : ℕ → Times)
    (awards_enabled : Bool) (envelope : Option Envelope) where
  -- What one candidate comes to.
  pub record Tried (index : ℕ) (node : Node) (breaker : Breaker)
      (r : Result LastError (Response A) × Breaker) : Type 0 where
    pub seen : List Outcome
    pub book : r.1 ≡ run breaker seen
    one : length seen ≤ 1
    pub own : All (λ o. subject o ≡ node.node_id) seen
    answer :
        (a : Response A)
        → r.0 ≡ ok a
        → (k : ℕ) × (submit index node k ≡ ok a) × (discards digest envelope a ≡ none)

  judged-ok :
      (node : Node) (r : Result RouteError (Response A)) (a : Response A)
      → judged digest is_ssrf_safe max_retries submit times awards_enabled envelope node r ≡ ok a
      → (r ≡ ok a) × (discards digest envelope a ≡ none)
  judged-ok node (err e) a h = cc
  judged-ok node (ok b) a h = elim (Option-cases (discards digest envelope b)) [
    | inl e ↦ (ground arith, ground arith)
    | inr (why, e) ↦ absurd (ground arith)
  ]

  pub Routed-Tried :
      (index : ℕ) (node : Node) (breaker : Breaker) (r : Result RouteError (Response A) × Breaker)
      → Routed is_ssrf_safe max_retries node (submit index node) (times index) breaker r
      → Tried index node breaker (
        judged digest is_ssrf_safe max_retries submit times awards_enabled envelope node r.0,
        r.1,
      )
  unfolding run observe
  Routed-Tried index node breaker _ (unsafe e) = record {
    seen = [];
    book = refl;
    one = omega arith;
    own = tt;
    answer = λ a h. absurd cc;
  }
  Routed-Tried index node breaker _ (blocked h e) = record {
    seen = [];
    book = refl;
    one = omega arith;
    own = tt;
    answer = λ a h. absurd cc;
  }
  Routed-Tried index node breaker _ (call_raised x g l e) = record {
    seen = fails node.node_id (times index).failed ∷ [];
    book = refl;
    one = omega arith;
    own = (refl, tt);
    answer = λ a h. absurd cc;
  }
  Routed-Tried index node breaker _ (nothing_tried g l e) = record {
    seen = fails node.node_id (times index).failed ∷ [];
    book = refl;
    one = omega arith;
    own = (refl, tt);
    answer = λ a h. absurd cc;
  }
  Routed-Tried index node breaker _ (succeeded b g l e) = record {
    seen = succeeds node.node_id ∷ [];
    book = refl;
    one = omega arith;
    own = (refl, tt);
    answer = λ a h.
        let (same, kept) = judged-ok node (ok b) a h in
        let (k, q) = run-returned (submit index node) max_retries b e in
        (k, ground (arith, q, same), kept);
  }

  -- What the chain comes to, from a candidate on.
  record Walked (nodes : List Node) (chain : Chain) (r : Answer A × Chain) : Type 0 where
    seen : List Outcome
    book : r.1.breaker ≡ run chain.breaker seen
    few : length seen ≤ length nodes
    own : All (λ o. Named (subject o) nodes) seen

  run-append :
      (breaker : Breaker) (os ps : List Outcome) → run breaker (os ++ ps) ≡ run (run breaker os) ps
  unfolding run
  run-append breaker [] ps = refl
  run-append breaker (o ∷ os) ps = run-append (observe breaker o) os ps

  own-first :
      (node : Node) (nodes : List Node) (os : List Outcome)
      → All (λ o. subject o ≡ node.node_id) os
      → All (λ o. Named (subject o) (node ∷ nodes)) os
  own-first node nodes [] h = tt
  own-first node nodes (o ∷ os) h = (inl h.0, own-first node nodes os h.1)

  own-later :
      (node : Node) (nodes : List Node) (os : List Outcome)
      → All (λ o. Named (subject o) nodes) os
      → All (λ o. Named (subject o) (node ∷ nodes)) os
  own-later node nodes [] h = tt
  own-later node nodes (o ∷ os) h = (inr h.0, own-later node nodes os h.1)

  or_next-Walked :
      (index : ℕ) (node : Node) (nodes : List Node) (chain : Chain)
      (r : Result LastError (Response A) × Breaker) (next : LastError → Chain → Answer A × Chain)
      → Tried index node chain.breaker r
      → ((why : LastError) (c : Chain) → Walked nodes c (next why c))
      → Walked (node ∷ nodes) chain (
          or_next digest is_ssrf_safe max_retries submit times awards_enabled envelope next node
            chain.awards r)
  or_next-Walked index node nodes chain (ok a, breaker) next t w = record {
    seen = t.seen;
    book =
        awarded-breaker envelope awards_enabled a
          (record { breaker = breaker; awards = chain.awards })
        ∙ t.book;
    few = omega (arith, t.one);
    own = own-first node nodes t.seen t.own;
  }
  or_next-Walked index node nodes chain (err why, breaker) next t w =
      let rest : Walked nodes (record { breaker = breaker; awards = chain.awards })
          (next why (record { breaker = breaker; awards = chain.awards })) =
        w why (record { breaker = breaker; awards = chain.awards }) in
      record {
        seen = t.seen ++ rest.seen;
        book =
            rest.book
            ∙ ap (λ b. run b rest.seen) t.book
            ∙ sym (run-append chain.breaker t.seen rest.seen);
        few = omega (arith, t.one, rest.few, length-append t.seen rest.seen);
        own =
            All-append (λ o. Named (subject o) (node ∷ nodes)) t.seen rest.seen
              (own-first node nodes t.seen t.own) (own-later node nodes rest.seen rest.own);
      }

  chain_from-Walked :
      (index : ℕ) (nodes : List Node) (why : LastError) (chain : Chain)
      → Walked nodes chain (
          chain_from digest is_ssrf_safe max_retries submit times awards_enabled envelope index
            nodes why chain)
  unfolding chain_from run
  chain_from-Walked index [] why chain = record {
    seen = [];
    book = refl;
    few = omega arith;
    own = tt;
  }
  chain_from-Walked index (node ∷ nodes) why chain =
      or_next-Walked index node nodes chain
        (tried digest is_ssrf_safe max_retries submit times awards_enabled envelope index node
          chain.breaker)
        (chain_from digest is_ssrf_safe max_retries submit times awards_enabled envelope (suc index)
          nodes)
        (Routed-Tried index node chain.breaker _ (
          route-Routed is_ssrf_safe max_retries node (submit index node) (times index)
            chain.breaker))
        (chain_from-Walked (suc index) nodes)

  -- However a chain ends, the breaker is left as if it had seen some outcomes, one for each candidate at
  -- most, and each of them about a candidate; and a node that was not a candidate keeps its count of failures and
  -- the time at which it was blocked, or the absence of one.
  pub execute_book :
      (nodes : List Node) (chain : Chain) (node_id : String)
      → let (answer, after) =
          execute digest is_ssrf_safe max_retries submit times awards_enabled envelope nodes
            chain in
        (seen : List Outcome) × (after.breaker ≡ run chain.breaker seen)
        × (length seen ≤ length nodes)
        × All (λ o. Named (subject o) nodes) seen
        × (Named node_id nodes
            ⊎ (streak_of after.breaker node_id ≡ streak_of chain.breaker node_id))
  unfolding execute run
  execute_book [] chain node_id = ([], refl, omega arith, tt, inr refl)
  execute_book (node ∷ nodes) chain node_id =
      let w : Walked (node ∷ nodes) chain _ =
        chain_from-Walked 0 (node ∷ nodes) no_nodes_available chain in
      (
        w.seen,
        w.book,
        w.few,
        w.own,
        rw w.book (run-kept chain.breaker (node ∷ nodes) node_id w.seen w.own),
      )

  -- what a candidate answered
  abbrev pub Answered : List Node → Response A → Type 0
  Answered nodes response =
      (node : Node) × (raw : Response A) × Among node nodes
      × ((index : ℕ) × (k : ℕ) × (submit index node k ≡ ok raw))
      × Bound digest envelope raw
      × Aggregated envelope node raw response

  Answered-later :
      (node : Node) (nodes : List Node) (response : Response A)
      → Answered nodes response
      → Answered (node ∷ nodes) response
  Answered-later node nodes response (other, raw, among, call, bound, same) =
      (other, raw, inr among, call, bound, same)

  or_next-Answered :
      (index : ℕ) (node : Node) (nodes : List Node) (awards : List Receipt) (breaker : Breaker)
      (r : Result LastError (Response A) × Breaker) (next : LastError → Chain → Answer A × Chain)
      (response : Response A)
      → Tried index node breaker r
      → ((why : LastError) (c : Chain)
          → (next why c).0 ≡ answered response
          → Answered nodes response)
      → (or_next digest is_ssrf_safe max_retries submit times awards_enabled envelope next node
          awards r).0
        ≡ answered response
      → Answered (node ∷ nodes) response
  or_next-Answered index node nodes awards breaker (ok a, after) next response t w h =
      let (k, call, kept) = t.answer a refl in
      (
        node,
        a,
        inl refl,
        (index, k, call),
        discards-Bound digest envelope a kept,
        finished-Aggregated envelope node a response (ground arith),
      )
  or_next-Answered index node nodes awards breaker (err why, after) next response t w h =
      Answered-later node nodes response (w why (record { breaker = after; awards = awards }) h)

  chain_from-Answered :
      (index : ℕ) (nodes : List Node) (why : LastError) (chain : Chain) (response : Response A)
      → (chain_from digest is_ssrf_safe max_retries submit times awards_enabled envelope index nodes
          why chain).0
        ≡ answered response
      → Answered nodes response
  unfolding chain_from
  chain_from-Answered index [] why chain response h = cc
  chain_from-Answered index (node ∷ nodes) why chain response h =
      or_next-Answered index node nodes chain.awards chain.breaker
        (tried digest is_ssrf_safe max_retries submit times awards_enabled envelope index node
          chain.breaker)
        (chain_from digest is_ssrf_safe max_retries submit times awards_enabled envelope (suc index)
          nodes)
        response
        (Routed-Tried index node chain.breaker _ (
          route-Routed is_ssrf_safe max_retries node (submit index node) (times index)
            chain.breaker))
        (λ w c. chain_from-Answered (suc index) nodes w c response) h

  -- An answer is what one of the candidates returned for a call: under an envelope with a session key, a
  -- response that echoed this key, and whose receipt, if there is one, has the hash of the result; under an
  -- envelope the chain adds an aggregation with the envelope's policy and replicas, one response and this
  -- candidate, and what is modelled else of the response is as the candidate returned it.
  pub execute_sound :
      (nodes : List Node) (chain : Chain) (response : Response A)
      → (execute digest is_ssrf_safe max_retries submit times awards_enabled envelope nodes chain).0
        ≡ answered response
      → Answered nodes response
  unfolding execute
  execute_sound [] chain response h = cc
  execute_sound (node ∷ nodes) chain response h =
      chain_from-Answered 0 (node ∷ nodes) no_nodes_available chain response h
