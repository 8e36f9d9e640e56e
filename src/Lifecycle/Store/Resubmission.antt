-- ===== src/Lifecycle/Store/Resubmission.antt =====
-- Resubmissions to a `LifecycleStore` after other calls.
use iicp_client_python.Prelude.{String, ◌≡◌, ◌≢◌, some, List, [], ◌∷◌}
use iicp_client_python.Prelude.Dict
use iicp_client_python.Prelude.Dict.{Dict}
use iicp_client_python.Lifecycle.Store.{LifecycleRecord, LifecycleStore}
use iicp_client_python.Lifecycle.Store.Runs.{Call, submits, asks, moves, cancels, reads}

module _ (task_id key digest : String) where
  -- the task's record, if there is one, has this key and this digest
  abbrev Keeps : LifecycleStore → Type 0
  Keeps s =
      (r : LifecycleRecord)
      → Dict.get s.records task_id ≡ some r
      → (r.idempotency_key ≡ key) × (r.request_digest ≡ digest)

  -- not a submission of the task
  abbrev pub Other : Call → Type 0
  Other (submits other key' digest' now) = other ≢ task_id
  Other (asks other now) = Unit
  Other (moves other state detail checked now) = Unit
  Other (cancels other checked again now) = Unit
  Other (reads other after limit now) = Unit

  abbrev pub Others : List Call → Type 0
  Others [] = Unit
  Others (c ∷ cs) = Other c × Others cs
