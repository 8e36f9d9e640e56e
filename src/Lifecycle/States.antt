-- ===== src/Lifecycle/States.antt =====
-- The task states of service_lifecycle.py and the legal transitions between them. The source
-- writes states as text; `named` stands for each text that the module gives no meaning to.
use iicp_client_python.Prelude.{Bool, true, false, String}

pub data State : Type 0 where
  submitted accepted rejected queued running waiting streaming : State
  completed failed cancelled expired timed_out : State
  named : String → State

-- `state in TERMINAL_STATES`
unfoldable pub is_terminal : State → Bool
is_terminal rejected = true
is_terminal completed = true
is_terminal failed = true
is_terminal cancelled = true
is_terminal expired = true
is_terminal _ = false

-- `target in TRANSITIONS.get(source, set())`
unfoldable pub legal : State → State → Bool
legal submitted accepted = true
legal submitted rejected = true
legal submitted expired = true
legal accepted queued = true
legal accepted running = true
legal accepted completed = true
legal accepted cancelled = true
legal accepted failed = true
legal accepted expired = true
legal queued running = true
legal queued waiting = true
legal queued cancelled = true
legal queued failed = true
legal queued expired = true
legal running waiting = true
legal running streaming = true
legal running completed = true
legal running cancelled = true
legal running failed = true
legal running expired = true
legal waiting queued = true
legal waiting running = true
legal waiting cancelled = true
legal waiting failed = true
legal waiting expired = true
legal streaming streaming = true
legal streaming waiting = true
legal streaming completed = true
legal streaming cancelled = true
legal streaming failed = true
legal streaming expired = true
legal _ _ = false

-- `state = "expired" if state == "timed_out" else state`
unfoldable pub normalise : State → State
normalise timed_out = expired
normalise state = state
