-- ===== src/Serving/Concurrency/Capacity.antt =====
-- `ConcurrencyGate` in every state that tasks lead it to.
use iicp_client_python.Prelude.{ℕ, suc, ◌+◌, ◌-◌, ◌≤◌, ◌<◌, ◌≡◌, some, arith, ◌==◌, if◌then◌else◌}
use iicp_client_python.Serving.Concurrency.{
  Gate, init, entered, capacity_exceeded, enter, acquire, release,
}

-- a task enters, or one that has entered leaves
pub data Step : Gate → Gate → Type 0 where
  enters : (gate gate' : Gate) → acquire gate ≡ entered gate' → Step gate gate'
  leaves : (gate : Gate) → 0 < gate.active → Step gate (release gate)

pub data Reaches : Gate → Gate → Type 0 where
  here : (gate : Gate) → Reaches gate gate
  then_step :
      (gate gate' gate'' : Gate) → Reaches gate gate' → Step gate' gate'' → Reaches gate gate''

-- Each slot is free or taken.
abbrev Balanced : ℕ → Gate → Type 0
Balanced max_concurrent gate =
    (gate.max_concurrent ≡ max_concurrent) × (gate.slots + gate.active ≡ max_concurrent)

Balanced-Step :
    (max_concurrent : ℕ) (gate gate' : Gate)
    → Step gate gate'
    → Balanced max_concurrent gate
    → Balanced max_concurrent gate'
unfolding acquire enter release
Balanced-Step max_concurrent gate gate' (enters _ _ e) b = ground arith
Balanced-Step max_concurrent gate gate' (leaves _ p) b = (ground arith, ground arith)

Balanced-Reaches :
    (max_concurrent : ℕ) (gate gate' : Gate)
    → Reaches gate gate'
    → Balanced max_concurrent gate
    → Balanced max_concurrent gate'
Balanced-Reaches max_concurrent gate gate' (here _) b = b
Balanced-Reaches max_concurrent gate gate' (then_step _ middle _ r s) b =
    Balanced-Step max_concurrent middle gate' s (Balanced-Reaches max_concurrent gate middle r b)

-- In every state that a new gate reaches by tasks entering and leaving, at most `max_concurrent`
-- tasks are in; a further one is refused, with that number, when there are as many, and else it
-- enters at once: no task ever waits for the semaphore.
pub acquire_exact :
    (max_concurrent : ℕ) (start gate : Gate)
    → init max_concurrent ≡ some start
    → Reaches start gate
    → (gate.active ≤ max_concurrent)
      × (acquire gate ≡ (
          if gate.active == max_concurrent
          then capacity_exceeded max_concurrent
          else entered (record gate { slots = gate.slots - 1; active = suc gate.active })))
unfolding init acquire enter
acquire_exact max_concurrent start gate h r =
    let (same, sum) = Balanced-Reaches max_concurrent start gate r (ground arith) in
    (omega arith, ground arith)
