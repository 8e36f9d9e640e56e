-- ===== src/Lifecycle/Cancellation/Tests.antt =====
-- Requests for a task with a handler and for one without.
use iicp_client_python.Prelude.{[], ◌∷◌, ◌≡◌, refl}
use iicp_client_python.Prelude.Exec.{ok}
use iicp_client_python.Prelude.Dict
use iicp_client_python.Lifecycle.States.{running, is_terminal}
use iicp_client_python.Lifecycle.Cancellation.{answers_other, init, register, call_handler, request}
use iicp_client_python.Lifecycle.Cancellation.Requests.{request_once}
use iicp_client_python.Lifecycle.Cancellation.Bounds.{
  IsBounded, registers, requests, run, run-init-IsBounded,
}

request_once_example :
    request "a" running (request "a" running (register "a" answers_other init)).1
    ≡ (ok "cancel_signalled", (request "a" running (register "a" answers_other init)).1)
unfolding request call_handler register init Dict.put Dict.get Dict.remove is_terminal
request_once_example = request_once "a" running running (register "a" answers_other init) refl refl

run-init-IsBounded_example :
    IsBounded (run init (registers "a" answers_other ∷ requests "a" running ∷ []))
run-init-IsBounded_example =
    run-init-IsBounded (registers "a" answers_other ∷ requests "a" running ∷ [])
