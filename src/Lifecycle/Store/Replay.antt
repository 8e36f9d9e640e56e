-- ===== src/Lifecycle/Store/Replay.antt =====
-- `LifecycleStore.events_after`: what a reader that resumes is given.
use iicp_client_python.Prelude.{ℕ, ◌+◌, ℤ, pos, negsuc}
use iicp_client_python.Prelude.Dict

-- the sequence number that a reader at `after` wants next
abbrev pub wanted : ℤ → ℕ
wanted (pos a) = a + 1
wanted (negsuc n) = 0
