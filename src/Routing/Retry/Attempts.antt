-- ===== src/Routing/Retry/Attempts.antt =====
-- `RetryManager.run`: its calls, its waits and its outcome.
use iicp_client_python.Prelude.{
  ℕ, zero, suc, ◌+◌, ◌<◌, ◌≡◌, refl, ap, ◌∙◌, Option, none, some, length, arith, ◌⊎◌, inl, inr,
}
use iicp_client_python.Prelude.Exec.{Result, ok, err, Result-cases}
use iicp_client_python.Routing.Retry.{
  Failure, handle, Next, again, raises, Outcome, returned, raised, ended, called_before,
  attempts_from, run,
}

-- The specification: the first attempt from `attempt` on, of so many, that is not to be repeated.
module _ {A : Type 0} (fn : ℕ → Result Failure A) where
  -- what the call comes to for the manager: `none` when it is to be repeated
  abbrev pub verdict : Result Failure A → Option (Outcome A)
  verdict (ok result) = some (returned result)
  verdict (err failure) = elim (handle failure) [
    | again ↦ none
    | raises exception ↦ some (raised exception)
  ]

  pub Next-cases : (n : Next) → (n ≡ again) ⊎ ((e : Failure) × (n ≡ raises e))
  Next-cases again = inl refl
  Next-cases (raises e) = inr (e, refl)

  attempts_from-final :
      (left attempt : ℕ) (last_exc : Option Failure) (outcome : Outcome A)
      → verdict (fn attempt) ≡ some outcome
      → attempts_from fn (suc left) attempt last_exc ≡ ended fn outcome
  unfolding attempts_from
  attempts_from-final left attempt last_exc outcome h = elim (Result-cases (fn attempt)) [
    | inl (a, e) ↦ ground arith
    | inr (f, e) ↦ elim (Next-cases (handle f)) [ inl n ↦ ground arith | inr (x, n) ↦ ground arith ]
  ]

  attempts_from-again :
      (left attempt : ℕ) (last_exc : Option Failure)
      → verdict (fn attempt) ≡ none
      → (failure : Failure) × (fn attempt ≡ err failure)
        × (attempts_from fn (suc left) attempt last_exc
            ≡ called_before fn attempt left (attempts_from fn left (suc attempt) (some failure)))
  unfolding attempts_from
  attempts_from-again left attempt last_exc h = elim (Result-cases (fn attempt)) [
    | inl (a, e) ↦ absurd (ground arith)
    | inr (f, e) ↦ elim (Next-cases (handle f)) [
      | inl n ↦ (f, e, rw (e, attempts_from) (rw n refl))
      | inr (x, n) ↦ absurd (ground arith)
    ]
  ]

  -- every attempt from one on, so many of them, is to be repeated
  abbrev pub AllAgain : ℕ → ℕ → Type 0
  AllAgain attempt zero = Unit
  AllAgain attempt (suc n) = (verdict (fn attempt) ≡ none) × AllAgain (suc attempt) n

  attempts_from-first :
      (total before attempt final : ℕ) (last_exc : Option Failure) (outcome : Outcome A)
      → before < total
      → final ≡ attempt + before
      → AllAgain attempt before
      → verdict (fn final) ≡ some outcome
      → ((attempts_from fn total attempt last_exc).outcome ≡ outcome)
        × ((attempts_from fn total attempt last_exc).calls ≡ suc before)
        × (length (attempts_from fn total attempt last_exc).waits ≡ before)
  attempts_from-first zero before attempt final last_exc outcome p e a h = absurd (omega arith)
  attempts_from-first (suc left) zero attempt final last_exc outcome p e a h =
      let same : final ≡ attempt = omega arith in
      let now : verdict (fn attempt) ≡ some outcome = rw⁻¹ same h in
      rw (attempts_from-final left attempt last_exc outcome now) (refl, refl, refl)
  attempts_from-first (suc left) (suc before) attempt final last_exc outcome p e a h =
      let (failure, f, step) = attempts_from-again left attempt last_exc a.0 in
      let (o, c, w) =
        attempts_from-first left before (suc attempt) final (some failure) outcome (omega arith)
          (omega arith) a.1 h in
      rw step (o, omega arith, ground arith)

  -- When the first calls are all to be repeated, and the next, which is within `max_retries`, is not,
  -- the run comes to that call's verdict: its result, or the exception that the manager makes of its
  -- failure. No call follows it, and there was one wait before each repetition.
  pub run_first :
      (max_retries before : ℕ) (outcome : Outcome A)
      → before < max_retries
      → AllAgain 0 before
      → verdict (fn before) ≡ some outcome
      → ((run fn max_retries).outcome ≡ outcome)
        × ((run fn max_retries).calls ≡ suc before)
        × (length (run fn max_retries).waits ≡ before)
  unfolding run
  run_first max_retries before outcome p a h =
      attempts_from-first max_retries before 0 before none outcome p (omega arith) a h

  attempts_from-exhausted :
      (total attempt final : ℕ) (last_exc : Option Failure)
      → suc final ≡ attempt + suc total
      → AllAgain attempt (suc total)
      → ((failure : Failure) × (fn final ≡ err failure)
          × ((attempts_from fn (suc total) attempt last_exc).outcome ≡ raised failure))
        × ((attempts_from fn (suc total) attempt last_exc).calls ≡ suc total)
        × (length (attempts_from fn (suc total) attempt last_exc).waits ≡ total)
  unfolding attempts_from
  attempts_from-exhausted zero attempt final last_exc e a =
      let (failure, f, step) = attempts_from-again zero attempt last_exc a.0 in
      let same : final ≡ attempt = omega arith in
      rw step ((failure, ap fn same ∙ f, refl), refl, refl)
  attempts_from-exhausted (suc left) attempt final last_exc e a =
      let (failure, f, step) = attempts_from-again (suc left) attempt last_exc a.0 in
      let (o, c, w) =
        attempts_from-exhausted left (suc attempt) final (some failure) (omega arith) a.1 in
      rw step (o, omega arith, ground arith)

  -- When every call up to the last that is allowed is to be repeated, the run raises the failure of
  -- the last one, after `max_retries` calls, with a wait between any two of them.
  pub run_exhausted :
      (last : ℕ)
      → AllAgain 0 (suc last)
      → ((failure : Failure) × (fn last ≡ err failure)
          × ((run fn (suc last)).outcome ≡ raised failure))
        × ((run fn (suc last)).calls ≡ suc last)
        × (length (run fn (suc last)).waits ≡ last)
  unfolding run
  run_exhausted last a = attempts_from-exhausted last 0 last none (omega arith) a
