-- ===== src/Routing/Race.antt =====
-- proxy/routing/aggregator.py: `ResultAggregator`, the race of one task on several nodes. The order in
-- which the dispatched calls finish is an argument, and so is what the router's call of each comes to;
-- of calls that finish together the source takes them in the order of a set, which is part of that
-- order. Of the calls that have not finished, those that are cancelled are what is left of the list;
-- where two finish in one wait, the later of them has finished and needs no cancelling.
pub mod Winner
use iicp_client_python.Prelude.{
  ℕ, suc, Bool, true, false, String, Option, none, some, List, [], ◌∷◌, take, length, if◌then◌else◌,
  str_eq,
}

-- a response, by its status, with the rest of it
pub record Response : Type 0 where
  pub status : String
  pub body : ℕ

-- what a call comes to: a response, or an exception
pub data Finish : Type 0 where
  responds : Response → Finish
  fails : Finish

-- what the race comes to
pub data Outcome : Type 0 where
  answer : Response → Outcome
  no_nodes all_nodes_failed : Outcome

abbrev pub first_of : Option Response → Response → Option Response
first_of none response = some response
first_of (some first) response = some first

abbrev pub error_or_failed : Option Response → Outcome
error_or_failed none = all_nodes_failed
error_or_failed (some response) = answer response

-- the loop, over the calls in the order in which they finish
unfoldable pub race : Option Response → List Finish → Outcome
race first_error [] = error_or_failed first_error
race first_error (fails ∷ rest) = race first_error rest
race first_error (responds response ∷ rest) =
    let others = race (first_of first_error response) rest in
    if str_eq response.status "success" then answer response else others

-- the nodes that are called
unfoldable pub targets {ℓ} : {A : Type ℓ} → ℕ → List A → List A
targets fan_out nodes = take fan_out nodes

-- `order` is the order in which the calls of these nodes finish
unfoldable pub execute {ℓ} : {A : Type ℓ} → ℕ → List A → (List A → List Finish) → Outcome
execute fan_out [] order = no_nodes
execute fan_out (node ∷ nodes) order = race none (order (targets fan_out (node ∷ nodes)))
