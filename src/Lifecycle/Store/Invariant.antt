-- ===== src/Lifecycle/Store/Invariant.antt =====
-- What holds of a `LifecycleStore` between two calls, and that every method but `restore`
-- keeps it; of `restore`, see Runs.antt.
use iicp_client_python.Prelude.{
  ℕ, ◌≤◌, String, ◌≡◌, refl, sym, ◌∙◌, ◌≢◌, inl, inr, Bool, true, false, ◌||◌, Option, some, [],
  ◌∷◌, ◌++◌, arith, str_eq, eq_iff, length, get_last?, Bool-cases, Option-cases, get_last?-append,
  get_last?-take_last, length-take_last-le, ℤ,
}
use iicp_client_python.Prelude.Exec.{ok, bind-state}
use iicp_client_python.Prelude.Dict
use iicp_client_python.Prelude.Dict.{any-values, get-put_cases, get-remove-some}
use iicp_client_python.Lifecycle.States.{State, cancelled, is_terminal, legal, normalise}
use iicp_client_python.Lifecycle.Store.{
  LifecycleEvent, LifecycleRecord, LifecycleStore, init, write, forget, new_record, key_taken,
  submit, status, transition, record_event, cancel, cancel_active, run_hook, outcome_cancelled,
  events_after, advanced, next_event, latest_sequence,
}
use iicp_client_python.Lifecycle.Store.Events.{History, Ends, History-append, History-take_last}

pub record RecordValid (limit : ℕ) (r : LifecycleRecord) : Type 0 where
  pub history : History r.events
  pub bounded : length r.events ≤ limit
  pub ends : Ends r.state r.updated_at (get_last? r.events)
  -- a task that has not ended can be cancelled
  pub endable : (is_terminal r.state || legal r.state cancelled) ≡ true

pub record StoreValid (s : LifecycleStore) : Type 0 where
  pub room : 2 ≤ s.max_events
  pub unique : Dict.Unique s.records
  pub entry :
      (k : String) (r : LifecycleRecord)
      → Dict.get s.records k ≡ some r
      → RecordValid s.max_events r × (r.task_id ≡ k)
  -- no two tasks share an idempotency key
  pub keys :
      (j k : String) (a b : LifecycleRecord)
      → Dict.get s.records j ≡ some a
      → Dict.get s.records k ≡ some b
      → a.idempotency_key ≡ b.idempotency_key
      → j ≡ k

pub init-StoreValid :
    (limit ttl : ℕ) (hook : Option (String → Bool)) → StoreValid (init limit ttl hook)
unfolding init
init-StoreValid limit ttl hook = record {
  room = omega arith;
  unique = tt;
  entry = λ k r p. cc (Dict.get-nil {V = LifecycleRecord} k);
  keys = λ j k a b p q e. cc (Dict.get-nil {V = LifecycleRecord} j);
}

-- A valid record may be written where it agrees with the store about the idempotency keys.
write-StoreValid :
    (s : LifecycleStore) (k : String) (r : LifecycleRecord)
    → StoreValid s
    → RecordValid s.max_events r
    → r.task_id ≡ k
    → ((j : String) (a : LifecycleRecord)
        → Dict.get s.records j ≡ some a
        → a.idempotency_key ≡ r.idempotency_key
        → j ≡ k)
    → StoreValid (write k r s)
unfolding write
write-StoreValid s k r v rv at fresh = record {
  room = v.room;
  unique = Dict.Unique-put s.records k r v.unique;
  entry = λ j a p. elim (get-put_cases s.records k j r a p) [
    | inl (e, f) ↦ rw (← f, ← e) (rv, at)
    | inr q ↦ v.entry j a q
  ];
  keys = λ i j a b p q e. elim (get-put_cases s.records k i r a p) [
    | inl (e₁, f₁) ↦ elim (get-put_cases s.records k j r b q) [
      | inl (e₂, f₂) ↦ sym e₁ ∙ e₂
      | inr q' ↦ sym e₁ ∙ sym (fresh j b q' (cc))
    ]
    | inr p' ↦ elim (get-put_cases s.records k j r b q) [
      | inl (e₂, f₂) ↦ fresh i a p' (cc) ∙ e₂
      | inr q' ↦ v.keys i j a b p' q' e
    ]
  ];
}

forget-StoreValid : (s : LifecycleStore) (k : String) → StoreValid s → StoreValid (forget k s)
unfolding forget
forget-StoreValid s k v = record {
  room = v.room;
  unique = Dict.Unique-remove s.records k v.unique;
  entry = λ j a p. v.entry j a (get-remove-some s.records k j a p);
  keys = λ i j a b p q e.
      v.keys i j a b (get-remove-some s.records k i a p) (get-remove-some s.records k j b q) e;
}

new_record-RecordValid :
    (limit : ℕ) (task_id key digest : String) (now : ℕ)
    → 2 ≤ limit
    → RecordValid limit (new_record task_id key digest now)
unfolding new_record is_terminal legal
new_record-RecordValid limit task_id key digest now h = record {
  history = tt;
  bounded = omega arith;
  ends = (refl, refl, refl);
  endable = refl;
}

key_taken-fresh :
    (s : LifecycleStore) (key : String) (j : String) (a : LifecycleRecord)
    → key_taken key s ≡ false
    → Dict.get s.records j ≡ some a
    → a.idempotency_key ≢ key
unfolding key_taken
key_taken-fresh s key j a h p e = ground (
  arith,
  any-values (λ (r : LifecycleRecord). str_eq r.idempotency_key key) s.records j a h p,
  eq_iff a.idempotency_key key,
)

pub submit-StoreValid :
    (task_id key digest : String) (now : ℕ) (s : LifecycleStore)
    → StoreValid s
    → StoreValid (submit task_id key digest now s).1
unfolding submit
submit-StoreValid task_id key digest now s v = elim (Option-cases (Dict.get s.records task_id)) [
  | inr (r, e) ↦ rw (e, submit) (ground (arith))
  | inl e ↦ elim (Bool-cases (key_taken key s)) [
    | inl t ↦ rw (e, submit) (rw t v)
    | inr t ↦
        rw (e, submit)
          (rw t (
            write-StoreValid s task_id (new_record task_id key digest now) v
              (new_record-RecordValid s.max_events task_id key digest now v.room) refl
              λ j a p q. absurd (key_taken-fresh s key j a t p q)))
  ]
]

-- The stored record ends with an event that shows its state.
abbrev pub Latest : LifecycleRecord → ℕ → Type 0
Latest r n =
    (l : LifecycleEvent) × (get_last? r.events ≡ some l) × (l.sequence ≡ n) × (l.state ≡ r.state)

Latest-event :
    (limit : ℕ) (r : LifecycleRecord) (n : ℕ)
    → RecordValid limit r
    → latest_sequence r ≡ some n
    → Latest r n
unfolding latest_sequence
Latest-event limit r n v h = elim (Option-cases (get_last? r.events)) [
  | inl e ↦ absurd (rw e at v.ends)
  | inr (l, e) ↦ (l, e, ground arith, (rw e at v.ends).0)
]

-- Every state that a transition leads to is terminal or can be cancelled.
legal-endable : (a b : State) → legal a b ≡ true → (is_terminal b || legal b cancelled) ≡ true
unfolding legal is_terminal
legal-endable a b h = ground arith

advanced-RecordValid :
    (limit : ℕ) (r : LifecycleRecord) (task_id : String) (n now : ℕ) (state : State)
    (detail : Dict.Dict String)
    → 2 ≤ limit
    → RecordValid limit r
    → latest_sequence r ≡ some n
    → legal r.state state ≡ true
    → RecordValid limit (advanced limit r (next_event r task_id n state now detail))
unfolding advanced next_event
advanced-RecordValid limit r task_id n now state detail room v h allowed =
    let (l, at, seq, same) = Latest-event limit r n v h in
    let e : LifecycleEvent = next_event r task_id n state now detail in
    record {
      history = History-take_last limit (r.events ++ e ∷ []) (omega arith) (
          History-append r.events l e v.history at
            (record { consecutive = cc; allowed = rw same allowed }));
      bounded = length-take_last-le limit (r.events ++ e ∷ []);
      ends =
          rw (get_last?-take_last limit (r.events ++ e ∷ []) (omega arith))
            (rw (get_last?-append r.events e) (refl, refl, refl));
      endable = legal-endable r.state state allowed;
    }

pub status-StoreValid :
    (task_id : String) (now : ℕ) (s : LifecycleStore)
    → StoreValid s
    → StoreValid (status task_id now s).1
unfolding status
status-StoreValid task_id now s v = ground (arith, forget-StoreValid s task_id v)

-- What `status` returns is stored, and the store is as it was.
pub status_ok :
    (task_id : String) (now : ℕ) (s : LifecycleStore) (r : LifecycleRecord)
    → (status task_id now s).0 ≡ ok r
    → ((status task_id now s).1 ≡ s) × (Dict.get s.records task_id ≡ some r)
unfolding status
status_ok task_id now s r h = ground arith

record_event-StoreValid :
    (task_id : String) (state : State) (detail : Dict.Dict String) (now : ℕ) (r : LifecycleRecord)
    (s : LifecycleStore)
    → StoreValid s
    → Dict.get s.records task_id ≡ some r
    → StoreValid (record_event task_id state detail now r s).1
unfolding record_event
record_event-StoreValid task_id state detail now r s v at =
    elim (Bool-cases (legal r.state (normalise state))) [
      | inr b ↦ rw (b, record_event) v
      | inl b ↦ elim (Option-cases (latest_sequence r)) [
        | inl e ↦ rw (b, record_event) (rw (e, record_event) v)
        | inr (n, e) ↦
            rw (b, record_event)
              (rw (e, record_event)
                (write-StoreValid s task_id _ v
                  (advanced-RecordValid s.max_events r task_id n now (normalise state) detail v.room
                    (v.entry task_id r at).0 e b)
                  (unfold advanced in (v.entry task_id r at).1)
                  λ j a p q. v.keys j task_id a r p at q))
      ]
    ]

pub transition-StoreValid :
    (task_id : String) (state : State) (detail : Dict.Dict String) (checked now : ℕ)
    (s : LifecycleStore)
    → StoreValid s
    → StoreValid (transition task_id state detail checked now s).1
unfolding transition
transition-StoreValid task_id state detail checked now s v =
    bind-state StoreValid (status task_id checked) (record_event task_id state detail now) s
      (status-StoreValid task_id checked s v)
      λ r e.
        let (same, at) = status_ok task_id checked s r e in
        rw same (record_event-StoreValid task_id state detail now r s v at)

cancel_active-StoreValid :
    (task_id : String) (again now : ℕ) (r : LifecycleRecord) (s : LifecycleStore)
    → StoreValid s
    → StoreValid (cancel_active task_id again now r s).1
unfolding cancel_active
cancel_active-StoreValid task_id again now r s v =
    elim (Bool-cases (run_hook s.cancel_hook task_id)) [
      | inr b ↦ rw b v
      | inl b ↦ rw b (
          bind-state StoreValid (transition task_id cancelled outcome_cancelled again now) _ s
            (transition-StoreValid task_id cancelled outcome_cancelled again now s v)
            λ e _. transition-StoreValid task_id cancelled outcome_cancelled again now s v)
    ]

pub cancel-StoreValid :
    (task_id : String) (checked again now : ℕ) (s : LifecycleStore)
    → StoreValid s
    → StoreValid (cancel task_id checked again now s).1
unfolding cancel
cancel-StoreValid task_id checked again now s v =
    bind-state StoreValid (status task_id checked) _ s (status-StoreValid task_id checked s v)
      λ r e. elim (Bool-cases (is_terminal r.state)) [
        | inl t ↦ rw t (status-StoreValid task_id checked s v)
        | inr t ↦
            rw t (
              cancel_active-StoreValid task_id again now r _
                (status-StoreValid task_id checked s v))
      ]

pub events_after-StoreValid :
    (task_id : String) (after : ℤ) (limit : Option ℕ) (now : ℕ) (s : LifecycleStore)
    → StoreValid s
    → StoreValid (events_after task_id after limit now s).1
unfolding events_after
events_after-StoreValid task_id after limit now s v =
    bind-state StoreValid (status task_id now) _ s (status-StoreValid task_id now s v)
      λ r e. ground (arith, status-StoreValid task_id now s v)
