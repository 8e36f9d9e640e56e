-- ===== src/Serving/Idempotency.antt =====
-- idempotency.py: `IdempotencyGuard`, and proxy/cip/receipts.py: `ReplayCache`, which keep the texts
-- that they have seen for a while. Times are readings of the monotonic clock.
pub mod Windows
use iicp_client_python.Prelude.{
  ℕ, ◌+◌, Bool, true, false, not, String, Option, none, some, [], ltb, length, if◌then◌else◌,
  str_eq, is_some,
}
use iicp_client_python.Prelude.Dict
use iicp_client_python.Prelude.Dict.{Dict}

-- what has been seen, with the time at which it is forgotten
pub record Guard : Type 0 where
  pub ttl : ℕ
  pub seen : Dict ℕ

unfoldable pub init : ℕ → Guard
init ttl_s = record { ttl = ttl_s; seen = [] }

-- what is left once the expired entries are gone
abbrev pub evict : ℕ → Guard → Dict ℕ
evict now guard = Dict.keep (λ expiry. ltb now expiry) guard.seen

-- the part of `check_and_register` under the lock
unfoldable pub register : String → ℕ → Guard → Bool × Guard
register task_id now guard =
    let live = evict now guard in
    if Dict.contains live task_id
    then (false, record guard { seen = live })
    else (true, record guard { seen = Dict.put live task_id (now + guard.ttl) })

unfoldable pub check_and_register : Option String → ℕ → Guard → Bool × Guard
check_and_register none now guard = (true, guard)
check_and_register (some task_id) now guard =
    if str_eq task_id "" then (true, guard) else register task_id now guard

unfoldable pub size : Guard → ℕ
size guard = length guard.seen

-- `ReplayCache.is_replay`
unfoldable pub is_replay : String → ℕ → Guard → Bool × Guard
is_replay nonce now cache =
    let live = evict now cache in
    if Dict.contains live nonce
    then (true, record cache { seen = live })
    else (false, record cache { seen = Dict.put live nonce (now + cache.ttl) })
