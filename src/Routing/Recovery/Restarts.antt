-- ===== src/Routing/Recovery/Restarts.antt =====
-- `classify` of recovery.py: when it calls for a restart.
use iicp_client_python.Prelude.{
  ℕ, Bool, true, false, Option, some, ◌≡◌, ◌↔◌, ◌≤◌, arith, ◌⊎◌, inl, inr, refl, Option-cases,
}
use iicp_client_python.Routing.Recovery.{classify, presence_of, restart_self}

-- The recovery restarts the node exactly when its own health check fails, or when its backend is in
-- order, the checks have failed as often as the grace allows, and the public route is down or the
-- directory has answered that it does not list the node; an unanswered probe never restarts it.
pub restart_iff :
    (health needs available : Bool) (response : Option ℕ) (failures grace : ℕ)
    → ((classify health available (presence_of response) failures grace needs).1 ≡ restart_self) ↔ (
        (health ≡ false)
        ⊎ ((needs ≡ false) × (grace ≤ failures) × ((available ≡ false) ⊎ (response ≡ some 404))))
unfolding classify presence_of
restart_iff false needs available response failures grace = (λ e. inl refl, λ e. refl)
restart_iff true true available response failures grace = (λ e. cc, λ e. absurd (ground arith))
restart_iff true false false response failures grace =
    (λ e. inr (refl, ground arith, inl refl), λ e. ground arith)
restart_iff true false true response failures grace = elim (Option-cases response) [
  | inl e ↦ (λ h. ground arith, λ h. ground arith)
  | inr (status, e) ↦ (λ h. ground arith, λ h. ground arith)
]
