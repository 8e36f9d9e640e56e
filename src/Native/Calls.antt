-- ===== src/Native/Calls.antt =====
-- `NativeCallIdentityRegistry` of native_call_identity.py: stable task identity across CALLs.
pub mod Identity
mod Tests
use iicp_client_python.Prelude.{
  Bool, true, false, not, ◌&&◌, ◌||◌, String, Option, none, some, List, [], str_eq, if◌then◌else◌,
}
use iicp_client_python.Prelude.Exec.{
  Result, ok, err, Exec, guard, or_raise, pure, modify, gets, ◌>>=◌, ◌>>◌,
}
use iicp_client_python.Prelude.Dict
use iicp_client_python.Prelude.Dict.{Dict}
use iicp_client_python.Native.Values.{Value, null, flag, int, text, object, field, value_eq}

-- The codes of `NativeCallIdentityError`.
pub data Code : Type 0 where
  missing_task_id missing_call_id missing_idempotency_key : Code
  call_id_reuse task_identity_conflict : Code

abbrev pub lifecycle_profile : String
lifecycle_profile = "urn:iicp:profile:service-lifecycle:v1"

-- `tasks` maps a task to its idempotency key; `calls` is the set of call identifiers.
pub record Registry : Type 0 where
  pub tasks : Dict String
  pub calls : Dict (Unit {0})

unfoldable pub init : Registry
init = record { tasks = []; calls = [] }

-- `isinstance(v, str) and v`: the text, if it is one and is not empty
abbrev pub nonempty_text : Value → Option String
nonempty_text (text s) = if str_eq s "" then none else some s
nonempty_text _ = none

-- `known_key is not None and known_key != idempotency_key` is false
abbrev pub key_agrees : Option String → String → Bool
key_agrees none key = true
key_agrees (some known) key = str_eq known key

-- `accept` once the identifiers have been read
unfoldable pub record_call : String → String → String → Exec Registry Code (Unit {0})
record_call task_id call_id key = do
  s ← gets (λ s. s)
  guard (not (Dict.contains s.calls call_id)) call_id_reuse
  guard (key_agrees (Dict.get s.tasks task_id) key) task_identity_conflict
  modify
      (λ t. record t { tasks = Dict.put t.tasks task_id key; calls = Dict.put t.calls call_id tt })

unfoldable pub accept_lifecycle : Dict Value → Exec Registry Code (Unit {0})
accept_lifecycle call = do
  task_id ← or_raise (nonempty_text (field call "task_id")) missing_task_id
  call_id ← or_raise (nonempty_text (field call "call_id")) missing_call_id
  key ← or_raise (nonempty_text (field call "idempotency_key")) missing_idempotency_key
  record_call task_id call_id key

unfoldable pub accept : Dict Value → Exec Registry Code (Unit {0})
accept call =
    if value_eq (field call "profile") (text lifecycle_profile)
    then accept_lifecycle call
    else pure tt
