-- ===== src/Lifecycle/Store/Recording.antt =====
-- What `transition` of `LifecycleStore` records of a task.
use iicp_client_python.Prelude.{
  ◌⊎◌, ap, sym, [], ◌∷◌, ◌++◌, take_last, ℕ, suc, String, ◌≡◌, refl, ◌≢◌, inl, inr, true, some,
  arith, str_eq, Option-cases, get_last?, if◌then◌else◌,
}
use iicp_client_python.Prelude.Dict
use iicp_client_python.Prelude.Dict.{Dict}
use iicp_client_python.Lifecycle.States.{
  State, submitted, accepted, rejected, queued, running, waiting, streaming, completed, failed,
  expired, timed_out, named, cancelled, is_terminal, legal, normalise,
}
use iicp_client_python.Lifecycle.Store.{
  LifecycleEvent, LifecycleRecord, LifecycleStore, write, latest_sequence, next_event, advanced,
}

-- What a transition that returned has done to the task under `task_id`.
pub record Recorded (task_id : String) (state : State) (detail : Dict String) (now : ℕ)
    (s s' : LifecycleStore) (e : LifecycleEvent) : Type 0 where
  pub before : LifecycleRecord
  pub stored : Dict.get s.records task_id ≡ some before
  pub newest : LifecycleEvent
  pub newest_is : get_last? before.events ≡ some newest
  -- the event
  pub allowed : legal before.state e.state ≡ true
  pub requested :
      ((state ≡ timed_out) × (e.state ≡ expired)) ⊎ ((state ≢ timed_out) × (e.state ≡ state))
  pub finality : e.is_final ≡ is_terminal e.state
  pub next : e.sequence ≡ suc newest.sequence
  pub entries : (e.task_id ≡ task_id) × (e.observed_at ≡ now) × (e.detail ≡ detail)
  -- the record
  pub after : LifecycleRecord
  pub events : after.events ≡ take_last s.max_events (before.events ++ e ∷ [])
  pub reached : (after.state ≡ e.state) × (after.updated_at ≡ now)
  pub bound :
      (after.task_id ≡ before.task_id)
      × (after.idempotency_key ≡ before.idempotency_key)
      × (after.request_digest ≡ before.request_digest)
  -- the store
  pub records :
      (k : String)
      → Dict.get s'.records k ≡ (if str_eq task_id k then some after else Dict.get s.records k)
  pub settings :
      (s'.max_events ≡ s.max_events)
      × (s'.terminal_status_ttl_s ≡ s.terminal_status_ttl_s)
      × (s'.cancel_hook ≡ s.cancel_hook)

normalise-requested :
    (state : State)
    → ((state ≡ timed_out) × (normalise state ≡ expired))
      ⊎ ((state ≢ timed_out) × (normalise state ≡ state))
unfolding normalise
normalise-requested timed_out = inl (refl, refl)
normalise-requested submitted = inr (λ q. cc, refl)
normalise-requested accepted = inr (λ q. cc, refl)
normalise-requested rejected = inr (λ q. cc, refl)
normalise-requested queued = inr (λ q. cc, refl)
normalise-requested running = inr (λ q. cc, refl)
normalise-requested waiting = inr (λ q. cc, refl)
normalise-requested streaming = inr (λ q. cc, refl)
normalise-requested completed = inr (λ q. cc, refl)
normalise-requested failed = inr (λ q. cc, refl)
normalise-requested cancelled = inr (λ q. cc, refl)
normalise-requested expired = inr (λ q. cc, refl)
normalise-requested (named t) = inr (λ q. cc, refl)

pub latest_sequence-last :
    (r : LifecycleRecord) (n : ℕ)
    → latest_sequence r ≡ some n
    → (l : LifecycleEvent) × (get_last? r.events ≡ some l) × (l.sequence ≡ n)
unfolding latest_sequence
latest_sequence-last r n h = elim (Option-cases (get_last? r.events)) [
  | inl e ↦ absurd (ground arith)
  | inr (l, e) ↦ (l, e, ground arith)
]

pub next_event-Recorded :
    (task_id : String) (state : State) (detail : Dict String) (now : ℕ) (s : LifecycleStore)
    (r : LifecycleRecord) (n : ℕ)
    → Dict.get s.records task_id ≡ some r
    → latest_sequence r ≡ some n
    → legal r.state (normalise state) ≡ true
    → let e = next_event r task_id n (normalise state) now detail in
      Recorded task_id state detail now s (write task_id (advanced s.max_events r e) s) e
unfolding next_event advanced write
next_event-Recorded task_id state detail now s r n at latest allowed =
    let (l, ends, same) = latest_sequence-last r n latest in
    let e : LifecycleEvent = next_event r task_id n (normalise state) now detail in
    let after : LifecycleRecord = advanced s.max_events r e in
    record {
      before = r;
      stored = at;
      newest = l;
      newest_is = ends;
      allowed = allowed;
      requested = normalise-requested state;
      finality = refl;
      next = ap suc (sym same);
      entries = (refl, refl, refl);
      after = after;
      events = refl;
      reached = (refl, refl);
      bound = (refl, refl, refl);
      records = λ k. Dict.get-put s.records task_id k after;
      settings = (refl, refl, refl);
    }
