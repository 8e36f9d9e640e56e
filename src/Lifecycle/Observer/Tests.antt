-- ===== src/Lifecycle/Observer/Tests.antt =====
-- A reader of one event.
use iicp_client_python.Prelude.{◌≡◌, refl, false, [], ◌∷◌, pos}
use iicp_client_python.Lifecycle.States.{running}
use iicp_client_python.Lifecycle.Store.{LifecycleEvent}
use iicp_client_python.Lifecycle.Observer.{init, publish, poll, after_events}
use iicp_client_python.Lifecycle.Observer.Lag.{poll_complete, publishes, step, run, published}

abbrev first_event : LifecycleEvent
first_event = record {
  task_id = "a";
  sequence = 4;
  state = running;
  is_final = false;
  observed_at = 1;
  detail = [];
}

poll_complete_example :
    first_event ∷ [] ≡ after_events (pos 3) (published (init 1 1) (publishes first_event ∷ []))
unfolding run step publish init poll after_events
poll_complete_example =
    poll_complete 1 1 (publishes first_event ∷ []) (pos 3) (first_event ∷ []) refl
