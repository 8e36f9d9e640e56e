-- ===== src/Admission/Spent.antt =====
-- dispatch_admission.py: what transitions and clean-ups do to the row of a ticket.
use iicp_client_python.Prelude.{
  ℕ, zero, suc, ◌+◌, ◌≤◌, ◌<◌, max, ◌≡◌, refl, ◌⊎◌, inl, inr, Bool, true, false, String, none, some,
  [], ◌∷◌, arith, eq_iff, Option-cases, Bool-cases, str-cases, ap, ◌∙◌,
}
use iicp_client_python.Prelude.Dict
use iicp_client_python.Admission.{
  State, AdmissionRecord, Table, state_eq, transition, move_row, oldest, delete_oldest, cleanup,
  moved,
}

-- The ticket with this identifier and expiry cannot be redeemed any more: it has a row, or it has
-- been expired for longer than the margin.
abbrev pub Spent : String → ℕ → ℕ → ℕ → Table → Type 0
Spent jti expires margin clock table =
    ((row : AdmissionRecord) × (Dict.get table jti ≡ some row) × (row.expires_at ≡ expires))
    ⊎ (expires + margin < clock)

pub Spent-later :
    (jti : String) (expires margin clock clock' : ℕ) (table : Table)
    → clock ≤ clock'
    → Spent jti expires margin clock table
    → Spent jti expires margin clock' table
Spent-later jti expires margin clock clock' table h (inl row) = inl row
Spent-later jti expires margin clock clock' table h (inr p) = inr (omega arith)

oldest_cons :
    (now retention : ℕ) (j : String) (row : AdmissionRecord) (table : Table) (k : String) (at : ℕ)
    → oldest now retention ((j, row) ∷ table) ≡ some (k, at)
    → ((j ≡ k) × (row.expires_at + retention < now)) ⊎ (oldest now retention table ≡ some (k, at))
unfolding oldest
oldest_cons now retention j row table k at h = elim (Option-cases (oldest now retention table)) [
  | inl e ↦ ground arith
  | inr ((i, t), e) ↦ ground arith
]

-- A row with this key, expired for the retention time.
abbrev Old : ℕ → ℕ → String → Table → Type 0
Old now retention k table =
    (row : AdmissionRecord) × (Dict.get table k ≡ some row) × (row.expires_at + retention < now)

Old-head :
    (now retention : ℕ) (j k : String) (row : AdmissionRecord) (table : Table)
    → j ≡ k
    → row.expires_at + retention < now
    → Old now retention k ((j, row) ∷ table)
unfolding Dict.get
Old-head now retention j k row table e p = (row, ground (arith, eq_iff j k), p)

Old-tail :
    (now retention : ℕ) (j k : String) (row : AdmissionRecord) (table : Table)
    → Dict.get table j ≡ none
    → Old now retention k table
    → Old now retention k ((j, row) ∷ table)
unfolding Dict.get
Old-tail now retention j k row table absent (old, at, p) = (old, ground (arith, eq_iff j k), p)

-- What is deleted has been expired for the retention time.
oldest-Old :
    (now retention : ℕ) (table : Table) (k : String) (at : ℕ)
    → oldest now retention table ≡ some (k, at)
    → Dict.Unique table
    → Old now retention k table
unfolding oldest
oldest-Old now retention [] k at h u = cc
oldest-Old now retention ((j, row) ∷ table) k at h u =
    elim (oldest_cons now retention j row table k at h) [
      | inl (e, p) ↦ Old-head now retention j k row table e p
      | inr e ↦ Old-tail now retention j k row table u.0 (oldest-Old now retention table k at e u.1)
    ]

remove-Spent :
    (now retention : ℕ) (jti : String) (expires margin clock : ℕ) (table : Table) (k : String)
    → margin ≤ retention
    → now ≤ clock
    → Old now retention k table
    → Spent jti expires margin clock table
    → Spent jti expires margin clock (Dict.remove table k)
remove-Spent now retention jti expires margin clock table k m c old (inr p) = inr p
remove-Spent now retention jti expires margin clock table k m c (row, at, p)
      (inl (mine, here, is)) =
    elim (str-cases k jti) [
      | inl e ↦
          let same : row ≡ mine = cc in
          inr (omega (arith, ap (λ (r : AdmissionRecord). r.expires_at) same))
      | inr ne ↦ inl (mine, ground (arith, Dict.get-remove table k jti), is)
    ]

-- The table after a clean-up at a time within the rules.
deleted : ℕ → ℕ → ℕ → Table → Table
deleted limit now retention table = (delete_oldest limit now retention table).1

deleted_step :
    (limit now retention : ℕ) (table : Table) (k : String) (at : ℕ)
    → oldest now retention table ≡ some (k, at)
    → deleted (suc limit) now retention table ≡ deleted limit now retention (Dict.remove table k)
unfolding deleted delete_oldest
deleted_step limit now retention table k at h = ground arith

deleted_stop :
    (limit now retention : ℕ) (table : Table)
    → oldest now retention table ≡ none
    → deleted (suc limit) now retention table ≡ table
unfolding deleted delete_oldest
deleted_stop limit now retention table h = ground arith

deleted-zero : (now retention : ℕ) (table : Table) → deleted zero now retention table ≡ table
unfolding deleted delete_oldest
deleted-zero now retention table = refl

delete-Spent :
    (limit now retention : ℕ) (jti : String) (expires margin clock : ℕ) (table : Table)
    → margin ≤ retention
    → now ≤ clock
    → Dict.Unique table
    → Spent jti expires margin clock table
    → Spent jti expires margin clock (deleted limit now retention table)
      × Dict.Unique (deleted limit now retention table)
delete-Spent zero now retention jti expires margin clock table m c u h =
    rw (deleted-zero now retention table) (h, u)
delete-Spent (suc limit) now retention jti expires margin clock table m c u h =
    elim (Option-cases (oldest now retention table)) [
      | inl e ↦ rw (deleted_stop limit now retention table e) (h, u)
      | inr ((k, at), e) ↦ rw (deleted_step limit now retention table k at e) (
          delete-Spent limit now retention jti expires margin clock (Dict.remove table k) m c
            (Dict.Unique-remove table k u)
            (remove-Spent now retention jti expires margin clock table k m c
              (oldest-Old now retention table k at e u) h))
    ]

-- what stands under the key of a row that is written
pub put-Spent :
    (jti : String) (expires margin clock : ℕ) (table : Table) (k : String) (row : AdmissionRecord)
    → ((old : AdmissionRecord) → Dict.get table k ≡ some old → row.expires_at ≡ old.expires_at)
    → Spent jti expires margin clock table
    → Spent jti expires margin clock (Dict.put table k row)
put-Spent jti expires margin clock table k row keeps (inr p) = inr p
put-Spent jti expires margin clock table k row keeps (inl (mine, here, is)) =
    elim (str-cases k jti) [
      | inl e ↦ inl (
        row,
        ground (arith, Dict.get-put table k jti row, eq_iff k jti),
        keeps mine (rw e here) ∙ is,
      )
      | inr ne ↦ inl (mine, ground (arith, Dict.get-put table k jti row), is)
    ]

-- A transition leaves the table, or writes a row over one with the same expiry.
transition_cases :
    (fault : Bool) (j : String) (state : State) (now : ℕ) (table : Table)
    → ((transition fault j state now table).1 ≡ table)
      ⊎ ((row : AdmissionRecord) × (Dict.get table j ≡ some row)
          × ((transition fault j state now table).1 ≡ Dict.put table j (moved row state now)))
unfolding transition move_row
transition_cases fault j state now table = elim (Option-cases (Dict.get table j)) [
  | inl e ↦ inl (ground arith)
  | inr (row, e) ↦ ground arith
]

moved-expires_at :
    (row : AdmissionRecord) (state : State) (now : ℕ)
    → (moved row state now).expires_at ≡ row.expires_at
moved-expires_at row state now = elim (Bool-cases (state_eq row.state state)) [
  | inl e ↦ ground arith
  | inr e ↦ ground arith
]

pub transition-Spent :
    (jti : String) (expires margin : ℕ) (fault : Bool) (j : String) (state : State) (now : ℕ)
    (table : Table)
    → Dict.Unique table
    → Spent jti expires margin now table
    → Spent jti expires margin now (transition fault j state now table).1
      × Dict.Unique (transition fault j state now table).1
transition-Spent jti expires margin fault j state now table u h =
    elim (transition_cases fault j state now table) [
      | inl e ↦ rw e (h, u)
      | inr (row, here, e) ↦ rw e (
        put-Spent jti expires margin now table j (moved row state now)
            (λ old at.
              let same : row ≡ old = cc in
              moved-expires_at row state now ∙ ap (λ (r : AdmissionRecord). r.expires_at) same)
            h,
        Dict.Unique-put table j (moved row state now) u,
      )
    ]

pub cleanup-Spent :
    (jti : String) (expires margin : ℕ) (fault : Bool) (now retention limit : ℕ) (table : Table)
    → margin ≤ retention
    → Dict.Unique table
    → Spent jti expires margin now table
    → Spent jti expires margin now (cleanup fault now retention limit table).1
      × Dict.Unique (cleanup fault now retention limit table).1
unfolding cleanup deleted
cleanup-Spent jti expires margin true now retention limit table m u h = (h, u)
cleanup-Spent jti expires margin false now retention limit table m u h =
    delete-Spent (max 1 limit) now retention jti expires margin now table m (omega arith) u h
