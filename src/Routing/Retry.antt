-- ===== src/Routing/Retry.antt =====
-- proxy/routing/retry.py: `RetryManager`. The function that is retried is a parameter: what its nth
-- call comes to. A wait is the number of the attempt after which it is made; the random jitter and
-- the metrics are left out.
pub mod Attempts
use iicp_client_python.Prelude.{
  ℕ, zero, suc, ◌-◌, Bool, true, false, ◌||◌, List, [], ◌∷◌, Option, none, some, ◌==◌, ltb,
  if◌then◌else◌,
}
use iicp_client_python.Prelude.Exec.{Result, ok, err}

-- The exceptions of a call, by what the manager does with them: a timeout, a connection error or a
-- protocol error; an HTTP status, with whether the body's code is `capacity_exceeded`; any other.
pub data Failure : Type 0 where
  transport : Failure
  http_status : ℕ → Bool → Failure
  capacity_exceeded : Failure
  other_failure : ℕ → Failure

-- `_is_capacity_exceeded`
abbrev pub is_capacity_exceeded : ℕ → Bool → Bool
is_capacity_exceeded status names_capacity = if status == 429 then names_capacity else false

-- what follows an exception
pub data Next : Type 0 where
  again : Next
  raises : Failure → Next

unfoldable pub handle : Failure → Next
handle transport = again
handle (http_status status names_capacity) =
    if is_capacity_exceeded status names_capacity
    then raises capacity_exceeded
    else if status == 429 || status == 503
    then again
    else raises (http_status status names_capacity)
handle capacity_exceeded = raises capacity_exceeded
handle (other_failure n) = raises (other_failure n)

-- What the run comes to: the result, or the exception; `assertion_error` where nothing was tried.
pub data Outcome (A : Type 0) : Type 0 where
  returned : A → Outcome A
  raised : Failure → Outcome A
  assertion_error : Outcome A

pub record Trace (A : Type 0) : Type 0 where
  pub outcome : Outcome A
  pub calls : ℕ
  pub waits : List ℕ

abbrev pub last_raised : {A : Type 0} → Option Failure → Outcome A
last_raised none = assertion_error
last_raised (some failure) = raised failure

module _ {A : Type 0} (fn : ℕ → Result Failure A) where
  abbrev pub ended : Outcome A → Trace A
  ended outcome = record { outcome = outcome; calls = 1; waits = [] }

  -- one more call, before a trace of the others, with a wait when there are others to come
  abbrev pub called_before : ℕ → ℕ → Trace A → Trace A
  called_before attempt left trace = record {
    outcome = trace.outcome;
    calls = suc trace.calls;
    waits = if ltb 0 left then attempt ∷ trace.waits else trace.waits;
  }

  -- the loop from this attempt on, with so many left, after `last_exc`
  unfoldable pub attempts_from : ℕ → ℕ → Option Failure → Trace A
  attempts_from zero attempt last_exc = record {
    outcome = last_raised last_exc;
    calls = 0;
    waits = [];
  }
  attempts_from (suc left) attempt last_exc = elim (fn attempt) [
    | ok result ↦ ended (returned result)
    | err failure ↦ elim (handle failure) [
      | again ↦ called_before attempt left (attempts_from left (suc attempt) (some failure))
      | raises exception ↦ ended (raised exception)
    ]
  ]

  -- `run`
  unfoldable pub run : ℕ → Trace A
  run max_retries = attempts_from max_retries 0 none

-- `is_retriable`
unfoldable pub is_retriable : Failure → Bool
is_retriable transport = true
is_retriable (http_status status names_capacity) = true
is_retriable _ = false
