-- ===== src/Routing/Tests.antt =====
-- Runs of the breaker, the retries, the selector and the recovery on concrete inputs.
use iicp_client_python.Prelude.{
  String, ℕ, zero, suc, ◌≡◌, refl, arith, true, false, Option, none, some, List, [], ◌∷◌, length,
  All,
}
use iicp_client_python.Prelude.Exec.{Result, ok, err}
use iicp_client_python.Routing.Breaker.{Breaker, allow, record_success}
use iicp_client_python.Routing.Breaker.Streaks
use iicp_client_python.Routing.Breaker.Streaks.{
  Outcome, succeeds, fails, streak_of, watch, run-streak_of, allow-recovered, allow-blocked,
}
use iicp_client_python.Routing.Retry
use iicp_client_python.Routing.Retry.{Failure, transport, http_status, returned, raised, handle}
use iicp_client_python.Routing.Retry.Attempts.{run_first, run_exhausted}
use iicp_client_python.Routing.Selector.{Node, Selector, select_nodes}
use iicp_client_python.Routing.Selector.Choice.{Sublist, Usable, select_nodes_sound}
use iicp_client_python.Routing.Race

abbrev fresh : Breaker
fresh = record { threshold = 2; reset_s = 30; failures = []; opened_at = [] }

abbrev outcomes : List Outcome
outcomes = fails "a" 10 ∷ fails "b" 11 ∷ fails "a" 12 ∷ succeeds "b" ∷ []

run-streak_of_example :
    streak_of (Streaks.run fresh outcomes) "a" ≡ watch 2 "a" (streak_of fresh "a") outcomes
run-streak_of_example = run-streak_of fresh "a" outcomes

allow-blocked_example : allow "a" 39 (Streaks.run (record_success "a" fresh) outcomes) ≡ false
allow-blocked_example =
    allow-blocked fresh "a" outcomes 10 39 (omega arith)
      (λ e. omega arith, (λ e. omega arith, (λ e. omega arith, (refl, tt)))) (omega arith)
      (omega arith)

-- a server that is overloaded twice and then answers
abbrev flaky : ℕ → Result Failure ℕ
flaky zero = err (http_status 503 false)
flaky (suc zero) = err transport
flaky n = ok n

run_first_example :
    ((Retry.run flaky 3).outcome ≡ returned 2)
    × ((Retry.run flaky 3).calls ≡ 3)
    × (length (Retry.run flaky 3).waits ≡ 2)
unfolding handle
run_first_example = run_first flaky 3 2 (returned 2) (omega arith) (refl, (refl, tt)) refl

run_exhausted_example :
    ((failure : Failure) × (flaky 1 ≡ err failure) × ((Retry.run flaky 2).outcome ≡ raised failure))
    × ((Retry.run flaky 2).calls ≡ 2)
    × (length (Retry.run flaky 2).waits ≡ 1)
unfolding handle
run_exhausted_example = run_exhausted flaky 1 (refl, (refl, tt))

abbrev selector : Selector
selector = record { min_reputation = 500; max_load = 800 }

abbrev dear : Node
dear = record {
  node_id = "dear";
  available = true;
  load = some 200;
  reputation_score = none;
  score = some 900;
  credit_cost_multiplier = some 3000;
  models = "m" ∷ [];
}

abbrev busy : Node
busy = record dear { node_id = "busy"; load = some 900 }

abbrev cheap : Node
cheap = record dear { node_id = "cheap"; credit_cost_multiplier = some 1500 }

select_nodes_sound_example :
    Sublist
      (select_nodes selector (dear ∷ busy ∷ cheap ∷ []) ("m" ∷ []) none (some 500) (some 1000) 1000)
      (dear ∷ busy ∷ cheap ∷ [])
    × All (Usable selector) (
        select_nodes selector
          (dear ∷ busy ∷ cheap ∷ [])
          ("m" ∷ [])
          none
          (some 500)
          (some 1000)
          1000)
select_nodes_sound_example =
    select_nodes_sound selector (dear ∷ busy ∷ cheap ∷ []) ("m" ∷ []) none (some 500) (some 1000)
      1000

abbrev not_found : Option ℕ
not_found = some 404

abbrev finished : List String → List Race.Finish
finished nodes =
    Race.responds (record { status = "error"; body = 1 })
    ∷ Race.fails
    ∷ Race.responds (record { status = "success"; body = 2 })
    ∷ []
