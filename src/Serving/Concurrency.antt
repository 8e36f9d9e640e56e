-- ===== src/Serving/Concurrency.antt =====
-- concurrency.py: `ConcurrencyGate`. `asyncio.Semaphore` is a counter: `locked()` says that it is 0,
-- as long as nobody waits for it, entering takes 1 and leaving gives 1 back. Between the test and the
-- entry no other task runs, so that `acquire` up to the `yield` is one step, and the `finally` block
-- with the release another.
pub mod Capacity
use iicp_client_python.Prelude.{
  ℕ, zero, suc, ◌-◌, Bool, true, false, ◌&&◌, Option, none, some, leb, ltb, ◌==◌, if◌then◌else◌,
}

pub record Gate : Type 0 where
  pub slots : ℕ
  pub max_concurrent : ℕ
  pub active : ℕ

-- `none` is the `ValueError` of the constructor
unfoldable pub init : ℕ → Option Gate
init max_concurrent =
    if ltb max_concurrent 1
    then none
    else some (record { slots = max_concurrent; max_concurrent = max_concurrent; active = 0 })

-- What comes of an entry: a slot, the refusal, or the task waits for the semaphore.
pub data Entry : Type 0 where
  entered : Gate → Entry
  capacity_exceeded : ℕ → Entry
  waits : Entry

-- `async with self._sem` and the count
unfoldable pub enter : Gate → Entry
enter gate = elim gate.slots [
  | zero ↦ waits
  | suc slots ↦ entered (record gate { slots = slots; active = suc gate.active })
]

unfoldable pub acquire : Gate → Entry
acquire gate =
    if gate.slots == 0 && leb gate.max_concurrent gate.active
    then capacity_exceeded gate.max_concurrent
    else enter gate

unfoldable pub release : Gate → Gate
release gate = record gate { slots = suc gate.slots; active = gate.active - 1 }

unfoldable pub active_jobs : Gate → ℕ
active_jobs gate = gate.active

-- `load`, as a fraction
unfoldable pub load : Gate → ℕ × ℕ
load gate = if gate.max_concurrent == 0 then (1, 1) else (gate.active, gate.max_concurrent)
