-- ===== src/Serving/Schedule.antt =====
-- availability.py: `AvailabilityEvaluator`, and scheduler.py: the classes of service. A share of the
-- capacity is a number of thousandths, and a time of day the text "HH:MM", as the source compares it.
pub mod Shares
use Prim.Native.String.{compare}
use Prim.Native.Nat.{Ordering}
use iicp_client_python.Prelude.{
  ℕ, ◌*◌, ◌/◌, Bool, true, false, ◌&&◌, ◌||◌, String, Option, none, some, List, [], ◌∷◌, str_eq,
  leb, ◌==◌, ltb, max, if◌then◌else◌,
}

-- `a <= b`, on texts
abbrev pub str_leb : String → String → Bool
str_leb a b = elim (compare a b) [ Ordering.gt ↦ false | _ ↦ true ]

-- `Window`
pub record Window : Type 0 where
  pub start : String
  pub end : String
  pub share : ℕ

-- whether a window, which may span midnight, has this time
unfoldable pub is_open : String → Window → Bool
is_open current w =
    if str_leb w.start w.end
    then str_leb w.start current && str_leb current w.end
    else str_leb w.start current || str_leb current w.end

-- the loop over the windows
unfoldable pub first_share : String → List Window → ℕ
first_share current [] = 500
first_share current (w ∷ windows) =
    let rest = first_share current windows in if is_open current w then w.share else rest

unfoldable pub current_share : List Window → String → ℕ
current_share [] current = 1000
current_share (w ∷ windows) current = first_share current (w ∷ windows)

unfoldable pub effective_max_concurrent : List Window → ℕ → String → ℕ
effective_max_concurrent windows base_max now =
    let share = current_share windows now in
    if base_max == 0 then 0 else if share == 0 then 0 else max 1 (base_max * share / 1000)

unfoldable pub is_within_window : List Window → String → Bool
is_within_window [] now = true
is_within_window (w ∷ windows) now = ltb 0 (current_share (w ∷ windows) now)

unfoldable pub qos_priority : Option String → ℕ
qos_priority none = 3
qos_priority (some qos) =
    if str_eq qos "realtime"
    then 0
    else if str_eq qos "interactive"
    then 1
    else if str_eq qos "batch"
    then 2
    else 3

unfoldable pub is_queue_eligible : Option String → Bool
is_queue_eligible none = false
is_queue_eligible (some qos) = str_eq qos "realtime" || str_eq qos "interactive"
