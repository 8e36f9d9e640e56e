-- ===== src/Routing/Fallback/Tests.antt =====
-- A chain of two candidates: the first cannot be reached, and the second answers.
use iicp_client_python.Prelude.{
  ℕ, ◌⊎◌, ◌≡◌, ◌≤◌, ◌≢◌, refl, Bool, true, false, String, Option, none, some, List, [], ◌∷◌, All,
  length, str_eq, eq_iff, if◌then◌else◌,
}
use iicp_client_python.Prelude.Dict
use iicp_client_python.Prelude.Exec.{Result, ok, err}
use iicp_client_python.Routing.Breaker.{allow, check, record_success, record_failure}
use iicp_client_python.Routing.Breaker.Streaks.{Outcome, run, streak_of}
use iicp_client_python.Routing.Retry.{Failure, transport, returned, handle, attempts_from}
use iicp_client_python.Routing.Retry.{run as run_attempts}
use iicp_client_python.Routing.Router.{Node, Times, route, record_outcome}
use iicp_client_python.Routing.Router.Books.{Booked, Justified, route_recorded}
use iicp_client_python.Routing.Fallback.{
  Response, Envelope, answered, Chain, discards, verify_receipt_hash, finished, chain_from, execute,
}
use iicp_client_python.Routing.Fallback.Answers.{
  Answered, Named, subject, execute_book, execute_sound,
}
use iicp_client_python.Routing.Fallback.Finds.{execute_finds}

abbrev first : Node
first = record { node_id = "n1"; endpoint = "https://one" }

abbrev second : Node
second = record { node_id = "n2"; endpoint = "https://two" }

abbrev reply : Response String
reply = record {
  cip_session_key = some "key";
  cip_receipt = some (record { response_hash = some "text"; rest = 0 });
  result = some "text";
  cip_aggregation = none;
  body = 0;
}

abbrev digest : Option String → String
digest none = ""
digest (some s) = s

abbrev safe : String → Bool
safe endpoint = true

abbrev submit : ℕ → Node → ℕ → Result Failure (Response String)
submit index node attempt = if str_eq node.node_id "n2" then ok reply else err transport

abbrev times : ℕ → Times
times index = record { checked = index; failed = index }

abbrev envelope : Envelope
envelope = record {
  session_key = some "key";
  policy = "majority_vote";
  replicas = 3;
  quorum = none;
}

abbrev chain : Chain
chain = record {
  breaker = record { threshold = 3; reset_s = 60; failures = []; opened_at = [] };
  awards = [];
}

abbrev nodes : List Node
nodes = first ∷ second ∷ []

answers :
    (execute digest safe 2 submit times true (some envelope) nodes chain).0
    ≡ answered (finished (some envelope) second reply)
unfolding execute chain_from route check allow Dict.get run_attempts attempts_from handle
    record_outcome record_failure record_success discards verify_receipt_hash finished
answers = refl

execute_sound_example :
    Answered digest safe 2 submit times true
      (some envelope)
      nodes
      (finished (some envelope) second reply)
execute_sound_example =
    execute_sound digest safe 2 submit times true (some envelope) nodes chain
      (finished (some envelope) second reply) answers

execute_book_example :
    let (answer, after) = execute digest safe 2 submit times true (some envelope) nodes chain in
    (seen : List Outcome) × (after.breaker ≡ run chain.breaker seen)
    × (length seen ≤ length nodes)
    × All (λ o. Named (subject o) nodes) seen
    × (Named "other" nodes ⊎ (streak_of after.breaker "other" ≡ streak_of chain.breaker "other"))
execute_book_example =
    execute_book digest safe 2 submit times true (some envelope) nodes chain "other"

second_answers : (run_attempts (submit 1 second) 2).outcome ≡ returned reply
unfolding run_attempts attempts_from
second_answers = refl

reply_kept : discards digest (some envelope) reply ≡ none
unfolding discards verify_receipt_hash
reply_kept = refl

second_allowed : allow "n2" 1 chain.breaker ≡ true
unfolding allow Dict.get
second_allowed = refl

n1_other : first.node_id ≢ second.node_id
n1_other e = let h : false ≡ true = (eq_iff "n1" "n2").1 e in cc

execute_finds_example :
    (r : Response String) × ((execute digest safe 2 submit times true (some envelope) nodes chain).0
      ≡ answered r)
execute_finds_example =
    execute_finds digest safe 2 submit times true (some envelope) (first ∷ []) second [] reply chain
      refl second_answers reply_kept second_allowed (n1_other, tt)

route_recorded_example :
    let r = route safe 2 second (submit 1 second) (times 1) chain.breaker in
    Booked safe 2 second (submit 1 second) (times 1) chain.breaker "n2" r
    × Justified safe 2 second (submit 1 second) (times 1) chain.breaker r.0
route_recorded_example = route_recorded safe 2 second (submit 1 second) (times 1) chain.breaker "n2"
