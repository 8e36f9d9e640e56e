-- ===== src/Serving/Schedule/Shares.antt =====
-- The capacity that a node offers at a time of day.
use native.Mathlib.Nat.{div-le_of_le-mul, mul-le-mul_right, mul_comm}
use iicp_client_python.Prelude.{
  ℕ, ◌*◌, ◌/◌, ◌≤◌, ◌≡◌, ◌↔◌, String, List, [], ◌∷◌, arith, All, Bool-cases, ◌⊎◌, inl, inr,
}
use iicp_client_python.Serving.Schedule.{
  Window, is_open, first_share, current_share, effective_max_concurrent,
}

-- no window gives more than everything
abbrev pub Fractions : List Window → Type 0
Fractions windows = All (λ (w : Window). w.share ≤ 1000) windows

first_share-le :
    (current : String) (windows : List Window)
    → Fractions windows
    → first_share current windows ≤ 1000
unfolding first_share
first_share-le current [] h = omega arith
first_share-le current (w ∷ windows) h = elim (Bool-cases (is_open current w)) [
  | inl e ↦ rw (e, first_share) h.0
  | inr e ↦ rw (e, first_share) (first_share-le current windows h.1)
]

current_share-le :
    (windows : List Window) (now : String) → Fractions windows → current_share windows now ≤ 1000
unfolding current_share
current_share-le [] now h = omega arith
current_share-le (w ∷ windows) now h = first_share-le now (w ∷ windows) h

scaled-le : (base share : ℕ) → share ≤ 1000 → base * share / 1000 ≤ base
scaled-le base share h = div-le_of_le-mul 1000 (rw (mul_comm base share) (mul-le-mul_right base h))

-- With shares of at most everything, the capacity that a node offers is never more than its own; and
-- it is nothing exactly when its own is nothing or the share at that time is.
pub effective_max_concurrent-bounds :
    (windows : List Window) (base_max : ℕ) (now : String)
    → Fractions windows
    → (effective_max_concurrent windows base_max now ≤ base_max)
      × ((effective_max_concurrent windows base_max now ≡ 0)
          ↔ ((base_max ≡ 0) ⊎ (current_share windows now ≡ 0)))
unfolding effective_max_concurrent
effective_max_concurrent-bounds windows base_max now h =
    let part = scaled-le base_max (current_share windows now) (current_share-le windows now h) in
    (ground arith, (λ e. ground arith, λ e. ground arith))
