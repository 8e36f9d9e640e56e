-- ===== src/Admission/SingleUse.antt =====
-- dispatch_admission.py: redemptions of one ticket in a sequence of calls.
use iicp_client_python.Prelude.{
  ℕ, ◌+◌, ◌≤◌, ◌<◌, ◌≡◌, refl, ◌⊎◌, inl, inr, Bool, true, false, String, none, some, List, [], ◌∷◌,
  arith, str_eq_refl, Option-cases, ap,
}
use iicp_client_python.Prelude.Exec.{Result, ok, err}
use iicp_client_python.Prelude.Dict
use iicp_client_python.Admission.{
  Claim, Code, State, Decision, AdmissionError, Table, precheck, redeem, consume, transition,
  cleanup, new_record, rejection, replayed,
}
use iicp_client_python.Admission.Spent.{
  Spent, Spent-later, put-Spent, transition-Spent, cleanup-Spent,
}

-- whether a redemption was accepted
abbrev pub accepts : Result AdmissionError Decision → Bool
accepts (ok decision) = decision.is_accepted
accepts (err e) = false

-- A call of a method that changes the table, with the time that it is given. `fault` says whether
-- SQLite fails.
pub data Call : Type 0 where
  consumes : Bool → Claim → String → String → ℕ → ℕ → Call
  moves : Bool → String → State → ℕ → Call
  cleans : Bool → ℕ → ℕ → ℕ → Call

abbrev pub time : Call → ℕ
time (consumes fault claim provider intent now skew) = now
time (moves fault jti state now) = now
time (cleans fault now retention limit) = now

-- clean-ups keep rows at least as long as the margin
abbrev pub KeepsRows : ℕ → Call → Type 0
KeepsRows margin (cleans fault now retention limit) = margin ≤ retention
KeepsRows margin _ = Unit

-- Times do not fall, from `clock` on, and every clean-up keeps rows for the margin.
abbrev pub Orderly : ℕ → ℕ → List Call → Type 0
Orderly margin clock [] = Unit
Orderly margin clock (c ∷ cs) = (clock ≤ time c) × KeepsRows margin c × Orderly margin (time c) cs

abbrev pub end_time : ℕ → List Call → ℕ
end_time clock [] = clock
end_time clock (c ∷ cs) = end_time (time c) cs

module _ (digest : String → String) where
  unfoldable pub step : Table → Call → Table
  step table (consumes fault claim provider intent now skew) =
      (consume digest fault claim provider intent now skew table).1
  step table (moves fault jti state now) = (transition fault jti state now table).1
  step table (cleans fault now retention limit) = (cleanup fault now retention limit table).1

  unfoldable pub run : Table → List Call → Table
  run table [] = table
  run table (c ∷ cs) = run (step table c) cs

  -- A redemption leaves the table, or writes the first row of its key.
  consume_cases :
      (fault : Bool) (claim : Claim) (provider intent : String) (now skew : ℕ) (table : Table)
      → ((consume digest fault claim provider intent now skew table).1 ≡ table)
        ⊎ ((Dict.get table claim.jti ≡ none)
            × ((consume digest fault claim provider intent now skew table).1
                ≡ Dict.put table claim.jti (new_record digest claim now)))
  unfolding consume redeem
  consume_cases fault claim provider intent now skew table =
      elim (Option-cases (precheck claim provider intent now skew)) [
        | inr (code, p) ↦ inl (rw (p, consume) refl)
        | inl p ↦ elim (Option-cases (Dict.get table claim.jti)) [
          | inr (row, e) ↦ inl (ground arith)
          | inl e ↦ ground arith
        ]
      ]

  consume-Spent :
      (jti : String) (expires margin : ℕ) (fault : Bool) (claim : Claim) (provider intent : String)
      (now skew : ℕ) (table : Table)
      → Dict.Unique table
      → Spent jti expires margin now table
      → Spent jti expires margin now (consume digest fault claim provider intent now skew table).1
        × Dict.Unique (consume digest fault claim provider intent now skew table).1
  consume-Spent jti expires margin fault claim provider intent now skew table u h =
      let row = new_record digest claim now in
      elim (consume_cases fault claim provider intent now skew table) [
        | inl e ↦ rw e (h, u)
        | inr (absent, e) ↦ rw e (
          put-Spent jti expires margin now table claim.jti row (λ old at. absurd cc) h,
          Dict.Unique-put table claim.jti row u,
        )
      ]

  step-Spent :
      (jti : String) (expires margin : ℕ) (table : Table) (c : Call)
      → KeepsRows margin c
      → Dict.Unique table
      → Spent jti expires margin (time c) table
      → Spent jti expires margin (time c) (step table c) × Dict.Unique (step table c)
  unfolding step
  step-Spent jti expires margin table (consumes fault claim provider intent now skew) k u h =
      consume-Spent jti expires margin fault claim provider intent now skew table u h
  step-Spent jti expires margin table (moves fault j state now) k u h =
      transition-Spent jti expires margin fault j state now table u h
  step-Spent jti expires margin table (cleans fault now retention limit) k u h =
      cleanup-Spent jti expires margin fault now retention limit table k u h

  run-Spent :
      (jti : String) (expires margin clock : ℕ) (table : Table) (cs : List Call)
      → Orderly margin clock cs
      → Dict.Unique table
      → Spent jti expires margin clock table
      → Spent jti expires margin (end_time clock cs) (run table cs)
  unfolding run
  run-Spent jti expires margin clock table [] o u h = h
  run-Spent jti expires margin clock table (c ∷ cs) (later, keeps, o) u h =
      let after =
        step-Spent jti expires margin table c keeps u
          (Spent-later jti expires margin clock (time c) table later h) in
      run-Spent jti expires margin (time c) (step table c) cs o after.1 after.0

  -- a ticket that passes has not been expired for longer than the skew
  precheck-fresh :
      (claim : Claim) (provider intent : String) (now skew : ℕ)
      → precheck claim provider intent now skew ≡ none
      → now < claim.expires_at + skew
  unfolding precheck
  precheck-fresh claim provider intent now skew h = ground arith

  -- a spent ticket is not accepted
  Spent-consume :
      (fault : Bool) (claim : Claim) (provider intent : String) (now skew margin : ℕ)
      (table : Table)
      → skew ≤ margin
      → Spent claim.jti claim.expires_at margin now table
      → accepts (consume digest fault claim provider intent now skew table).0 ≡ false
  unfolding consume redeem replayed
  Spent-consume fault claim provider intent now skew margin table s h =
      elim (Option-cases (precheck claim provider intent now skew)) [
        | inr (code, p) ↦ rw (p, consume) refl
        | inl p ↦
            let fresh = precheck-fresh claim provider intent now skew p in
            elim h [ inr late ↦ absurd (omega arith) | inl (row, here, e) ↦ ground arith ]
      ]

  rejected-consume :
      (fault : Bool) (claim : Claim) (provider intent : String) (now skew : ℕ) (table : Table)
      (code : Code)
      → precheck claim provider intent now skew ≡ some code
      → consume digest fault claim provider intent now skew table ≡ (ok (rejection code), table)
  unfolding consume
  rejected-consume fault claim provider intent now skew table code p = rw (p, consume) refl

  -- an accepted ticket has its row
  accepted-row :
      (fault : Bool) (claim : Claim) (provider intent : String) (now skew : ℕ) (table : Table)
      → accepts (consume digest fault claim provider intent now skew table).0 ≡ true
      → Dict.get (consume digest fault claim provider intent now skew table).1 claim.jti
        ≡ some (new_record digest claim now)
  unfolding consume redeem replayed
  accepted-row fault claim provider intent now skew table h =
      let row = new_record digest claim now in
      elim (Option-cases (precheck claim provider intent now skew)) [
        | inr (code, p) ↦ absurd (
            ground (
              arith,
              ap (λ (r : Result AdmissionError Decision × Table). accepts r.0)
                  (rejected-consume fault claim provider intent now skew table code p),
            ))
        | inl p ↦ elim (Option-cases (Dict.get table claim.jti)) [
          | inr (old, e) ↦ absurd (ground arith)
          | inl e ↦
              ground (arith, Dict.get-put table claim.jti claim.jti row, str_eq_refl claim.jti)
        ]
      ]

  accepted-Unique :
      (fault : Bool) (claim : Claim) (provider intent : String) (now skew : ℕ) (table : Table)
      → Dict.Unique table
      → Dict.Unique (consume digest fault claim provider intent now skew table).1
  accepted-Unique fault claim provider intent now skew table u =
      let row = new_record digest claim now in
      elim (consume_cases fault claim provider intent now skew table) [
        | inl e ↦ rw e u
        | inr (absent, e) ↦ rw e (Dict.Unique-put table claim.jti row u)
      ]

  -- Once a ticket has been accepted, in a table where no key stands twice, no later call accepts it
  -- again: whatever calls come between,
  -- failing ones included, provided that times do not fall, that every clean-up in between keeps
  -- rows for at least `margin` seconds after their expiry, and that the later call allows no more
  -- clock skew than `margin`.
  pub single_redemption :
      (fault : Bool) (claim : Claim) (provider intent : String) (now skew margin : ℕ)
      (table : Table) (between : List Call) (fault' : Bool) (provider' intent' : String)
      (now' skew' : ℕ)
      → Dict.Unique table
      → accepts (consume digest fault claim provider intent now skew table).0 ≡ true
      → Orderly margin now between
      → end_time now between ≤ now'
      → skew' ≤ margin
      → accepts
          (consume digest fault' claim provider' intent' now' skew'
            (run (consume digest fault claim provider intent now skew table).1 between)).0
        ≡ false
  unfolding new_record
  single_redemption fault claim provider intent now skew margin table between fault' provider'
        intent' now' skew' u h o l s =
      let row = accepted-row fault claim provider intent now skew table h in
      let first = (consume digest fault claim provider intent now skew table).1 in
      let last = run first between in
      Spent-consume fault' claim provider' intent' now' skew' margin last s (
        Spent-later claim.jti claim.expires_at margin (end_time now between) now' last l (
          run-Spent claim.jti claim.expires_at margin now first between o
            (accepted-Unique fault claim provider intent now skew table u)
            (inl (new_record digest claim now, row, refl))))
