-- ===== src/Routing/Breaker/Streaks.antt =====
-- `CircuitBreaker` against a specification of one node's streak of failures.
use iicp_client_python.Prelude.{
  ℕ, suc, ◌+◌, ◌≤◌, ◌<◌, ◌≡◌, refl, ap, ◌∙◌, true, false, String, Option, none, some, List, [], ◌∷◌,
  arith, str_eq, eq_iff, str_eq_refl, leb, if◌then◌else◌, Bool-cases, Option, inl, inr,
}
use iicp_client_python.Prelude.Dict
use iicp_client_python.Routing.Breaker.{Breaker, allow, record_success, record_failure, count_of}

-- what happens to a node, with the time of a failure
pub data Outcome : Type 0 where
  succeeds : String → Outcome
  fails : String → ℕ → Outcome

unfoldable pub observe : Breaker → Outcome → Breaker
observe breaker (succeeds node_id) = record_success node_id breaker
observe breaker (fails node_id now) = record_failure node_id now breaker

unfoldable pub run : Breaker → List Outcome → Breaker
run breaker [] = breaker
run breaker (o ∷ os) = run (observe breaker o) os

-- The specification, for one node: its failures since its last success, and the time of the last of
-- them once there are as many as the threshold.
pub record Streak : Type 0 where
  pub consecutive : ℕ
  pub opened : Option ℕ

abbrev pub no_streak : Streak
no_streak = record { consecutive = 0; opened = none }

abbrev pub failed_again : ℕ → ℕ → Streak → Streak
failed_again threshold now streak = record {
  consecutive = suc streak.consecutive;
  opened = if leb threshold (suc streak.consecutive) then some now else streak.opened;
}

unfoldable pub watch : ℕ → String → Streak → List Outcome → Streak
watch threshold node_id streak [] = streak
watch threshold node_id streak (succeeds other ∷ os) =
    watch threshold node_id (if str_eq other node_id then no_streak else streak) os
watch threshold node_id streak (fails other now ∷ os) =
    watch threshold node_id
      (if str_eq other node_id then failed_again threshold now streak else streak) os

-- what the breaker holds of a node
abbrev pub streak_of : Breaker → String → Streak
streak_of breaker node_id = record {
  consecutive = count_of (Dict.get breaker.failures node_id);
  opened = Dict.get breaker.opened_at node_id;
}

pub streak_of-success :
    (breaker : Breaker) (other node_id : String)
    → streak_of (record_success other breaker) node_id
      ≡ (if str_eq other node_id then no_streak else streak_of breaker node_id)
unfolding record_success
streak_of-success breaker other node_id = ground (
  arith,
  Dict.get-remove breaker.failures other node_id,
  Dict.get-remove breaker.opened_at other node_id,
)

pub streak_of-failure :
    (breaker : Breaker) (other : String) (now : ℕ) (node_id : String)
    → streak_of (record_failure other now breaker) node_id ≡ (
        if str_eq other node_id
        then failed_again breaker.threshold now (streak_of breaker node_id)
        else streak_of breaker node_id)
unfolding record_failure
streak_of-failure breaker other now node_id =
    let count : ℕ = suc (count_of (Dict.get breaker.failures other)) in
    ground (
      arith,
      eq_iff other node_id,
      Dict.get-put breaker.failures other node_id count,
      Dict.get-put breaker.opened_at other node_id now,
    )

-- Whatever happens to any nodes, the breaker's entries for a node are those of the specification run
-- on the same outcomes from the same start: only the node's own outcomes count.
pub run-streak_of :
    (breaker : Breaker) (node_id : String) (os : List Outcome)
    → streak_of (run breaker os) node_id
      ≡ watch breaker.threshold node_id (streak_of breaker node_id) os
unfolding run watch observe record_success record_failure
run-streak_of breaker node_id [] = refl
run-streak_of breaker node_id (succeeds other ∷ os) =
    run-streak_of (record_success other breaker) node_id os
    ∙ ap (λ s. watch breaker.threshold node_id s os) (streak_of-success breaker other node_id)
run-streak_of breaker node_id (fails other now ∷ os) =
    run-streak_of (record_failure other now breaker) node_id os
    ∙ ap (λ s. watch breaker.threshold node_id s os) (streak_of-failure breaker other now node_id)

-- how often a node failed, when it failed only, and each time at or after `from`
abbrev pub FailsOnly : String → ℕ → List Outcome → Type 0
FailsOnly node_id from [] = Unit
FailsOnly node_id from (succeeds other ∷ os) =
    (str_eq other node_id ≡ false) × FailsOnly node_id from os
FailsOnly node_id from (fails other now ∷ os) =
    ((str_eq other node_id ≡ true) → from ≤ now) × FailsOnly node_id from os

abbrev pub failures_of : String → List Outcome → ℕ
failures_of node_id [] = 0
failures_of node_id (succeeds other ∷ os) = failures_of node_id os
failures_of node_id (fails other now ∷ os) =
    let rest = failures_of node_id os in if str_eq other node_id then suc rest else rest

watch-closed :
    (threshold : ℕ) (node_id : String) (streak : Streak) (os : List Outcome)
    → streak.opened ≡ none
    → streak.consecutive + failures_of node_id os < threshold
    → (watch threshold node_id streak os).opened ≡ none
unfolding watch
watch-closed threshold node_id streak [] e p = e
watch-closed threshold node_id streak (succeeds other ∷ os) e p =
    elim (Bool-cases (str_eq other node_id)) [
      | inl q ↦ rw (q, watch) (watch-closed threshold node_id no_streak os refl (omega arith))
      | inr q ↦ rw (q, watch) (watch-closed threshold node_id streak os e p)
    ]
watch-closed threshold node_id streak (fails other now ∷ os) e p =
    elim (Bool-cases (str_eq other node_id)) [
      | inl q ↦
          rw (q, watch)
            (watch-closed threshold node_id (failed_again threshold now streak) os (ground arith)
              (ground arith))
      | inr q ↦ rw (q, watch) (watch-closed threshold node_id streak os e (ground arith))
    ]

-- a streak as long as the threshold has been opened since
abbrev OpenSince : ℕ → ℕ → Streak → Type 0
OpenSince threshold from streak =
    threshold ≤ streak.consecutive → (t : ℕ) × (streak.opened ≡ some t) × (from ≤ t)

OpenSince-failed_again :
    (threshold from now : ℕ) (streak : Streak)
    → from ≤ now
    → OpenSince threshold from (failed_again threshold now streak)
OpenSince-failed_again threshold from now streak h p = (now, ground arith, h)

watch-open :
    (threshold from : ℕ) (node_id : String) (streak : Streak) (os : List Outcome)
    → FailsOnly node_id from os
    → OpenSince threshold from streak
    → threshold ≤ streak.consecutive + failures_of node_id os
    → (t : ℕ) × ((watch threshold node_id streak os).opened ≡ some t) × (from ≤ t)
unfolding watch
watch-open threshold from node_id streak [] f o p = o (omega arith)
watch-open threshold from node_id streak (succeeds other ∷ os) f o p =
    rw (f.0, watch) (watch-open threshold from node_id streak os f.1 o p)
watch-open threshold from node_id streak (fails other now ∷ os) f o p =
    elim (Bool-cases (str_eq other node_id)) [
      | inl q ↦
          rw (q, watch)
            (watch-open threshold from node_id (failed_again threshold now streak) os f.1
              (OpenSince-failed_again threshold from now streak (f.0 q)) (ground arith))
      | inr q ↦ rw (q, watch) (watch-open threshold from node_id streak os f.1 o (ground arith))
    ]

reset_s-run : (breaker : Breaker) (os : List Outcome) → (run breaker os).reset_s ≡ breaker.reset_s
unfolding run observe record_success record_failure
reset_s-run breaker [] = refl
reset_s-run breaker (succeeds node_id ∷ os) = reset_s-run (record_success node_id breaker) os
reset_s-run breaker (fails node_id now ∷ os) = reset_s-run (record_failure node_id now breaker) os

-- what the breaker holds of a node after a success of it and these outcomes
recovered-opened :
    (breaker : Breaker) (node_id : String) (os : List Outcome)
    → Dict.get (run (record_success node_id breaker) os).opened_at node_id
      ≡ (watch breaker.threshold node_id no_streak os).opened
unfolding record_success
recovered-opened breaker node_id os =
    ap (λ (s : Streak). s.opened)
      (run-streak_of (record_success node_id breaker) node_id os
        ∙ ap (λ s. watch breaker.threshold node_id s os)
            (streak_of-success breaker node_id node_id
              ∙ ap (λ b. if b then no_streak else streak_of breaker node_id) (str_eq_refl node_id)))

-- After a success of a node, as long as it has failed less often than the threshold since then,
-- whatever happens to other nodes, the breaker lets calls of it through, at any time.
pub allow-recovered :
    (breaker : Breaker) (node_id : String) (os : List Outcome) (now : ℕ)
    → failures_of node_id os < breaker.threshold
    → allow node_id now (run (record_success node_id breaker) os) ≡ true
unfolding allow
allow-recovered breaker node_id os now p =
    let closed =
      recovered-opened breaker node_id os
      ∙ watch-closed breaker.threshold node_id no_streak os refl (omega arith) in
    rw closed refl

-- After a success of a node and then at least as many failures of it as the threshold, which is
-- positive, none of them before `from` and no success of it between them, whatever happens to other
-- nodes, the breaker refuses calls of it at any time before `from + reset_s`.
pub allow-blocked :
    (breaker : Breaker) (node_id : String) (os : List Outcome) (from now : ℕ)
    → 0 < breaker.threshold
    → FailsOnly node_id from os
    → breaker.threshold ≤ failures_of node_id os
    → now < from + breaker.reset_s
    → allow node_id now (run (record_success node_id breaker) os) ≡ false
unfolding allow record_success
allow-blocked breaker node_id os from now z f p q =
    let (t, e, le) =
      watch-open breaker.threshold from node_id no_streak os f (λ w. absurd (omega arith))
        (omega arith) in
    let stamp : Dict.get (run (record_success node_id breaker) os).opened_at node_id ≡ some t =
      recovered-opened breaker node_id os ∙ e in
    let kept = reset_s-run (record_success node_id breaker) os in ground arith
