-- ===== src/Cooperative/Gates/Validation.antt =====
-- `validate_cip_request_fields` of proxy/cip/gates.py against the limits on a request.
use iicp_client_python.Prelude.{
  ℕ, ◌%◌, ◌≤◌, ◌≡◌, ◌≢◌, refl, true, none, some, arith, pos, negsuc, Bool-cases, inl, inr, ◌↔◌,
}
use iicp_client_python.Cooperative.Gates.{
  Field, absent, other, number, Policy, CipBlock, is_bad, check_replicas, check_quorum,
  validate_cip_request_fields, majority_vote, unset, best_of_n, map_reduce, unknown_name,
}

-- what a request's block has to satisfy
abbrev pub ValidReplicas : Policy → Field → Type 0
ValidReplicas policy absent = Unit
ValidReplicas policy other = ⊥
ValidReplicas policy (number (negsuc n)) = ⊥
ValidReplicas policy (number (pos n)) = (1 ≤ n) × (n ≤ 10) × (policy ≡ majority_vote → n % 2 ≡ 1)

abbrev pub ValidQuorum : Field → Field → Type 0
ValidQuorum replicas absent = Unit
ValidQuorum replicas other = ⊥
ValidQuorum replicas (number (negsuc n)) = ⊥
ValidQuorum absent (number (pos n)) = n ≡ 1
ValidQuorum other (number (pos n)) = n ≡ 1
ValidQuorum (number (pos r)) (number (pos n)) = (1 ≤ n) × (n ≤ r)
ValidQuorum (number (negsuc r)) (number (pos n)) = ⊥

abbrev pub ValidBlock : CipBlock → Type 0
ValidBlock cip =
    (cip.policy ≢ unknown_name)
    × ValidReplicas cip.policy cip.replicas
    × ValidQuorum cip.replicas cip.quorum

check_replicas-valid_vote :
    (policy : Policy) (n : ℕ)
    → ValidReplicas policy (number (pos n))
    → check_replicas policy (number (pos n)) ≡ none
unfolding check_replicas
check_replicas-valid_vote majority_vote n (low, high, vote) = let v = vote refl in ground arith
check_replicas-valid_vote unset n v = ground arith
check_replicas-valid_vote best_of_n n v = ground arith
check_replicas-valid_vote map_reduce n v = ground arith
check_replicas-valid_vote unknown_name n v = ground arith

check_replicas-valid :
    (policy : Policy) (replicas : Field)
    → (check_replicas policy replicas ≡ none) ↔ ValidReplicas policy replicas
unfolding check_replicas
check_replicas-valid policy absent = (λ e. tt, λ v. refl)
check_replicas-valid policy other = (λ e. cc, λ v. absurd v)
check_replicas-valid policy (number (negsuc n)) = (λ e. cc, λ v. absurd v)
check_replicas-valid policy (number (pos n)) = (
  λ e. (ground arith, ground arith, λ m. ground arith),
  λ v. check_replicas-valid_vote policy n v,
)

check_quorum-valid :
    (replicas quorum : Field) → (check_quorum replicas quorum ≡ none) ↔ ValidQuorum replicas quorum
unfolding check_quorum
check_quorum-valid replicas absent = (λ e. tt, λ v. refl)
check_quorum-valid replicas other = (λ e. cc, λ v. absurd v)
check_quorum-valid replicas (number (negsuc n)) = (λ e. cc, λ v. absurd v)
check_quorum-valid absent (number (pos n)) = (λ e. ground arith, λ v. ground arith)
check_quorum-valid other (number (pos n)) = (λ e. ground arith, λ v. ground arith)
check_quorum-valid (number (pos r)) (number (pos n)) = (λ e. ground arith, λ v. ground arith)
check_quorum-valid (number (negsuc r)) (number (pos n)) = (λ e. ground arith, λ v. absurd v)

is_bad-unknown_name : (policy : Policy) → is_bad policy ≡ true → policy ≡ unknown_name
is_bad-unknown_name unknown_name h = refl
is_bad-unknown_name _ h = ground arith

-- A request with a `cip` block passes the validation exactly when its policy is a known one or is
-- left out, its replicas are left out or from 1 to 10, and odd for a majority vote, and its quorum is
-- left out or from 1 to the number of replicas, which counts as 1 where it is left out.
pub validate_iff_valid :
    (cip : CipBlock) → (validate_cip_request_fields (some cip) ≡ none) ↔ ValidBlock cip
unfolding validate_cip_request_fields
validate_iff_valid cip =
    let replicas = check_replicas-valid cip.policy cip.replicas in
    let quorum = check_quorum-valid cip.replicas cip.quorum in
    elim (Bool-cases (is_bad cip.policy)) [
      | inl bad ↦
          (λ e. absurd (ground arith), λ v. absurd (v.0 (is_bad-unknown_name cip.policy bad)))
      | inr good ↦ (
        λ e. (λ u. ground arith, replicas.0 (ground arith), quorum.0 (ground arith)),
        λ v. let a = replicas.1 v.1 in let b = quorum.1 v.2 in ground arith,
      )
    ]
