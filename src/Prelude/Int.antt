-- ===== src/Prelude/Int.antt =====
-- Python's integers, over the native numbers, with the comparisons the program makes of them.
use Prim.Native.Nat.{ℕ, zero, suc, ◌+◌}
use mathlib.Core.Bool.{Bool, true}
use iicp_client_python.Prelude.Tests.{ltb}

-- `negsuc n` is -(n + 1).
pub data ℤ : Type 0 where
  pos : ℕ → ℤ
  negsuc : ℕ → ℤ

-- `a < n`
abbrev pub ltb_ℤ : ℤ → ℕ → Bool
ltb_ℤ (pos a) n = ltb a n
ltb_ℤ (negsuc a) n = true

-- `a + 1 < n`
abbrev pub next_ltb_ℤ : ℤ → ℕ → Bool
next_ltb_ℤ (pos a) n = ltb (a + 1) n
next_ltb_ℤ (negsuc zero) n = ltb 0 n
next_ltb_ℤ (negsuc (suc a)) n = true
