-- ===== src/Admission.antt =====
-- dispatch_admission.py: single-use redemption of dispatch tickets. The SQLite table is a dictionary
-- under its primary key; a statement that SQLite fails, at whatever point, rolls the transaction
-- back, so `fault` stands for such a failure. Times are seconds since the epoch.
pub mod Spent
pub mod SingleUse
mod Tests
use iicp_client_python.Prelude.{
  ℕ, zero, suc, ◌+◌, Bool, true, false, not, ◌&&◌, ◌||◌, String, Option, none, some, List, [], ◌∷◌,
  str_eq, leb, ltb, max, length, if◌then◌else◌,
}
use iicp_client_python.Prelude.Exec.{Result, ok, err}
use iicp_client_python.Prelude.Text.{codes, is_token, all_codes}
use iicp_client_python.Prelude.Dict
use iicp_client_python.Prelude.Dict.{Dict}

-- `DispatchAdmissionClaim`
pub record Claim : Type 0 where
  pub jti : String
  pub provider_id : String
  pub intent : String
  pub not_before : ℕ
  pub expires_at : ℕ

-- The states of a row: `accepted`, and those of `TERMINAL_STATES`.
pub data State : Type 0 where
  accepted completed failed cancelled expired rejected : State
  other_state : String → State

-- The codes of a decision.
pub data Code : Type 0 where
  reject_issuer_key reject_store_unavailable reject_invalid_jti reject_provider_binding : Code
  reject_intent_binding reject_not_yet_valid reject_expired reject_terminal : Code
  reject_replay accept : Code

pub record Decision : Type 0 where
  pub code : Code
  pub is_accepted : Bool
  pub state : Option State

-- `DispatchAdmissionRecord`, a row of the table
pub record AdmissionRecord : Type 0 where
  pub jti : String
  pub provider_digest : String
  pub intent_digest : String
  pub state : State
  pub expires_at : ℕ
  pub consumed_at : ℕ
  pub updated_at : ℕ

pub data AdmissionError : Type 0 where
  storage_error key_error value_error : AdmissionError

abbrev pub Table : Type 0
Table = Dict AdmissionRecord

unfoldable pub is_terminal : State → Bool
is_terminal completed = true
is_terminal failed = true
is_terminal cancelled = true
is_terminal expired = true
is_terminal rejected = true
is_terminal _ = false

-- `_JTI.fullmatch(jti)`
unfoldable pub valid_jti : String → Bool
valid_jti jti =
    leb 16 (length (codes jti)) && leb (length (codes jti)) 256 && all_codes is_token (codes jti)

abbrev pub rejection : Code → Decision
rejection code = record { code = code; is_accepted = false; state = none }

-- the checks of `consume` before the database is opened; `none` lets the claim through
unfoldable pub precheck : Claim → String → String → ℕ → ℕ → Option Code
precheck claim provider intent now skew =
    if not (valid_jti claim.jti)
    then some reject_invalid_jti
    else if not (str_eq claim.provider_id provider)
    then some reject_provider_binding
    else if not (str_eq claim.intent intent)
    then some reject_intent_binding
    else if ltb (now + skew) claim.not_before
    then some reject_not_yet_valid
    else if leb (claim.expires_at + skew) now
    then some reject_expired
    else none

-- SHA-256 with its prefix, of the standard library
module _ (digest : String → String) where
  unfoldable pub new_record : Claim → ℕ → AdmissionRecord
  new_record claim now = record {
    jti = claim.jti;
    provider_digest = digest claim.provider_id;
    intent_digest = digest claim.intent;
    state = accepted;
    expires_at = claim.expires_at;
    consumed_at = now;
    updated_at = now;
  }

  -- the decision for a row that is there already
  unfoldable pub replayed : AdmissionRecord → Decision
  replayed row = record {
    code = if is_terminal row.state then reject_terminal else reject_replay;
    is_accepted = false;
    state = some row.state;
  }

  -- the transaction of `consume`
  unfoldable pub redeem : Bool → Claim → ℕ → Table → Result AdmissionError Decision × Table
  redeem fault claim now table =
      if fault then (err storage_error, table) else elim (Dict.get table claim.jti) [
        | some row ↦ (ok (replayed row), table)
        | none ↦ (
          ok (record { code = accept; is_accepted = true; state = some accepted }),
          Dict.put table claim.jti (new_record claim now),
        )
      ]

  unfoldable pub consume :
      Bool → Claim → String → String → ℕ → ℕ → Table → Result AdmissionError Decision × Table
  consume fault claim provider intent now skew table =
      elim (precheck claim provider intent now skew) [
        | some code ↦ (ok (rejection code), table)
        | none ↦ redeem fault claim now table
      ]

  -- storage failures become a rejection
  abbrev fail_closed : Result AdmissionError Decision × Table → Decision × Table
  fail_closed (ok decision, table) = (decision, table)
  fail_closed (err e, table) = (rejection reject_store_unavailable, table)

  unfoldable pub evaluate_dispatch_admission :
      Bool → Claim → String → String → ℕ → Bool → ℕ → Table → Decision × Table
  evaluate_dispatch_admission fault claim provider intent now trust_verified skew table =
      if trust_verified
      then fail_closed (consume fault claim provider intent now skew table)
      else (rejection reject_issuer_key, table)

abbrev pub state_eq : State → State → Bool
state_eq accepted accepted = true
state_eq completed completed = true
state_eq failed failed = true
state_eq cancelled cancelled = true
state_eq expired expired = true
state_eq rejected rejected = true
state_eq (other_state a) (other_state b) = str_eq a b
state_eq _ _ = false

abbrev pub moved : AdmissionRecord → State → ℕ → AdmissionRecord
moved row state now =
    if state_eq row.state state then row else record row { state = state; updated_at = now }

-- the transaction of `transition` on a row that is there
unfoldable pub move_row :
    String → AdmissionRecord → State → ℕ → Table → Result AdmissionError AdmissionRecord × Table
move_row jti row state now table =
    if is_terminal row.state && not (state_eq row.state state)
    then (err value_error, table)
    else (ok (moved row state now), Dict.put table jti (moved row state now))

unfoldable pub transition :
    Bool → String → State → ℕ → Table → Result AdmissionError AdmissionRecord × Table
transition fault jti state now table =
    if not (is_terminal state)
    then (err value_error, table)
    else if fault
    then (err storage_error, table)
    else elim (Dict.get table jti) [
      | none ↦ (err key_error, table)
      | some row ↦ move_row jti row state now table
    ]

abbrev pub earlier : String → ℕ → Option (String × ℕ) → Option (String × ℕ)
earlier k at none = some (k, at)
earlier k at (some (j, other)) = if leb at other then some (k, at) else some (j, other)

-- `WHERE expires_at < ? ORDER BY expires_at LIMIT 1`, with `? = now - retention`; of equal times
-- SQLite may take any, here the first
unfoldable pub oldest : ℕ → ℕ → Table → Option (String × ℕ)
oldest now retention [] = none
oldest now retention ((k, row) ∷ table) =
    let rest = oldest now retention table in
    if ltb (row.expires_at + retention) now then earlier k row.expires_at rest else rest

-- the deletion of up to `limit` rows, and their number
unfoldable pub delete_oldest : ℕ → ℕ → ℕ → Table → ℕ × Table
delete_oldest zero now retention table = (0, table)
delete_oldest (suc limit) now retention table = elim (oldest now retention table) [
  | none ↦ (0, table)
  | some (k, at) ↦
      let (count, rest) = delete_oldest limit now retention (Dict.remove table k) in
      (suc count, rest)
]

unfoldable pub cleanup : Bool → ℕ → ℕ → ℕ → Table → Result AdmissionError ℕ × Table
cleanup fault now retention limit table =
    if fault
    then (err storage_error, table)
    else let (count, rest) = delete_oldest (max 1 limit) now retention table in (ok count, rest)

unfoldable pub lookup : Bool → String → Table → Result AdmissionError (Option AdmissionRecord)
lookup fault jti table = if fault then err storage_error else ok (Dict.get table jti)
