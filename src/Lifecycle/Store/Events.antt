-- ===== src/Lifecycle/Store/Events.antt =====
-- Histories of one task: what a list of events has to be, and that appending and trimming keep it.
use iicp_client_python.Prelude.{
  ℕ, zero, suc, ◌-◌, ◌<◌, ◌≡◌, true, Option, none, some, List, [], ◌∷◌, ◌++◌, arith, length, drop,
  take_last, get_last?,
}
use iicp_client_python.Lifecycle.States.{State, is_terminal, legal}
use iicp_client_python.Lifecycle.Store.{LifecycleEvent}

-- `e` is recorded directly before `f`.
pub record Linked (e f : LifecycleEvent) : Type 0 where
  pub consecutive : f.sequence ≡ suc e.sequence
  pub allowed : legal e.state f.state ≡ true

-- Every event is linked to the one after it.
abbrev pub Follows : LifecycleEvent → List LifecycleEvent → Type 0
Follows e [] = Unit
Follows e (f ∷ es) = Linked e f × Follows f es

-- A history is not empty, and its events are linked.
abbrev pub History : List LifecycleEvent → Type 0
History [] = ⊥
History (e ∷ es) = Follows e es

-- The last event shows the state and the time of the last change.
abbrev pub Ends : State → ℕ → Option LifecycleEvent → Type 0
Ends state at none = ⊥
Ends state at (some e) = (e.state ≡ state) × (e.observed_at ≡ at) × (e.is_final ≡ is_terminal state)

Follows-append :
    (e l f : LifecycleEvent) (es : List LifecycleEvent)
    → Follows e es
    → get_last? (e ∷ es) ≡ some l
    → Linked l f
    → Follows e (es ++ f ∷ [])
Follows-append e l f [] h p k = ground arith
Follows-append e l f (x ∷ es) h p k = (h.0, Follows-append x l f es h.1 p k)

pub History-append :
    (es : List LifecycleEvent) (l f : LifecycleEvent)
    → History es
    → get_last? es ≡ some l
    → Linked l f
    → History (es ++ f ∷ [])
History-append [] l f h p k = absurd h
History-append (e ∷ es) l f h p k = Follows-append e l f es h p k

History-drop : (n : ℕ) (es : List LifecycleEvent) → History es → n < length es → History (drop n es)
History-drop zero es h p = h
History-drop (suc n) [] h p = absurd h
History-drop (suc n) (e ∷ []) h p = absurd (omega arith)
History-drop (suc n) (e ∷ f ∷ es) h p = History-drop n (f ∷ es) h.1 (omega arith)

History-nonempty : (es : List LifecycleEvent) → History es → 0 < length es
History-nonempty [] h = absurd h
History-nonempty (e ∷ es) h = omega arith

-- Trimming keeps a history.
pub History-take_last :
    (n : ℕ) (es : List LifecycleEvent) → 0 < n → History es → History (take_last n es)
History-take_last n es p h =
    History-drop (length es - n) es h (omega (arith, History-nonempty es h))
