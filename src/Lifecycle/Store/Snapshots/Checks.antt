-- ===== src/Lifecycle/Store/Snapshots/Checks.antt =====
-- What `restore` of `LifecycleStore` lets through.
use iicp_client_python.Prelude.{
  String, ◌≡◌, refl, ◌⊎◌, inl, inr, true, some, List, [], ◌∷◌, arith, Bool-cases,
}
use iicp_client_python.Prelude.Exec.{Result, ok, err}
use iicp_client_python.Prelude.Dict
use iicp_client_python.Prelude.Dict.{Dict}
use iicp_client_python.Lifecycle.Store.{
  LifecycleEvent, LifecycleRecord, LifecycleStore, LifecycleError, key_error,
}
use iicp_client_python.Lifecycle.Store.Snapshots.{
  RawRecord, Snapshot, and_then, at_key, events_from, well_sequenced, build_record, checked_record,
  record_from, restore_records, has_profile, records_or_empty, install, restore,
}

and_then-ok :
    {A B : Type 0} (x : Result LifecycleError A) (f : A → Result LifecycleError B) (b : B)
    → and_then x f ≡ ok b
    → (a : A) × (x ≡ ok a) × (f a ≡ ok b)
and_then-ok (ok a) f b h = (a, refl, h)
and_then-ok (err e) f b h = cc

build_record-events :
    (raw : RawRecord) (events : List LifecycleEvent) (r : LifecycleRecord)
    → build_record raw events ≡ ok r
    → r.events ≡ events
unfolding build_record
build_record-events raw events r h =
    let (_, _, h₁) = and_then-ok (at_key key_error raw.task_id) _ r h in
    let (_, _, h₂) = and_then-ok (at_key key_error raw.idempotency_key) _ r h₁ in
    let (_, _, h₃) = and_then-ok (at_key key_error raw.request_digest) _ r h₂ in
    let (_, _, h₄) = and_then-ok (at_key key_error raw.state) _ r h₃ in
    let (_, _, h₅) = and_then-ok (at_key key_error raw.updated_at) _ r h₄ in ground arith

record_from-checked :
    (raw : RawRecord) (r : LifecycleRecord)
    → record_from raw ≡ ok r
    → well_sequenced r.events ≡ true
unfolding record_from
record_from-checked raw r h =
    let (raws, _, h₁) = and_then-ok (at_key key_error raw.events) _ r h in
    let (events, _, h₂) = and_then-ok (events_from raws) (checked_record raw) r h₁ in
    ground (arith, build_record-events raw events r)

restore_records_checked :
    (raws : List RawRecord) (d d' : Dict LifecycleRecord) (k : String) (r : LifecycleRecord)
    → restore_records raws d ≡ ok d'
    → Dict.get d' k ≡ some r
    → (Dict.get d k ≡ some r) ⊎ ((well_sequenced r.events ≡ true) × (r.task_id ≡ k))
unfolding restore_records
restore_records_checked [] d d' k r h p = inl (ground arith)
restore_records_checked (raw ∷ raws) d d' k r h p =
    let (a, built, rest) = and_then-ok (record_from raw) _ d' h in
    elim (restore_records_checked raws (Dict.put d a.task_id a) d' k r rest p) [
      | inr checked ↦ inr checked
      | inl e ↦
          ground (arith, Dict.get-put_cases d a.task_id k a r, record_from-checked raw a built)
    ]

installed_checked :
    (raws : List RawRecord) (s : LifecycleStore)
    (result : Result LifecycleError (Dict LifecycleRecord)) (k : String) (r : LifecycleRecord)
    → restore_records raws [] ≡ result
    → (install s result).0 ≡ ok tt
    → Dict.get (install s result).1.records k ≡ some r
    → (well_sequenced r.events ≡ true) × (r.task_id ≡ k)
installed_checked raws s (ok d) k r e h p =
    ground (arith, restore_records_checked raws [] d k r, Dict.get-nil {V = LifecycleRecord} k)
installed_checked raws s (err x) k r e h p = cc

-- Whatever snapshot is restored: if the call returns, every record that the store then has consists
-- of events with consecutive sequence numbers, at least one, and stands under its own identifier.
pub restore_checked :
    (snap : Snapshot) (s : LifecycleStore) (k : String) (r : LifecycleRecord)
    → (restore snap s).0 ≡ ok tt
    → Dict.get (restore snap s).1.records k ≡ some r
    → (well_sequenced r.events ≡ true) × (r.task_id ≡ k)
unfolding restore
restore_checked snap s k r h p = elim (Bool-cases (has_profile snap.profile_name)) [
  | inr b ↦ cc (rw (b, restore) at h)
  | inl b ↦
      installed_checked (records_or_empty snap.raw_records) s
        (restore_records (records_or_empty snap.raw_records) []) k r refl (rw (b, restore) at h)
        (rw (b, restore) at p)
]
