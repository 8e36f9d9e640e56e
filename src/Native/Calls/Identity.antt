-- ===== src/Native/Calls/Identity.antt =====
-- `NativeCallIdentityRegistry` over sequences of CALLs.
use iicp_client_python.Prelude.{
  ◌≡◌, ◌≢◌, true, inl, inr, String, some, List, [], ◌∷◌, arith, eq_iff, str_eq_refl, if◌then◌else◌,
  ◌∙◌, Option-cases, Bool-cases,
}
use iicp_client_python.Prelude.Exec.{ok, err}
use iicp_client_python.Prelude.Dict
use iicp_client_python.Prelude.Dict.{Dict}
use iicp_client_python.Native.Values.{Value, text, field, value_eq}
use iicp_client_python.Native.Calls.{
  call_id_reuse, task_identity_conflict, Registry, lifecycle_profile, nonempty_text, record_call,
  accept_lifecycle, accept,
}

-- A lifecycle CALL with its three identifiers.
pub record IsCall (call : Dict Value) (task_id call_id key : String) : Type 0 where
  pub profile : field call "profile" ≡ text lifecycle_profile
  pub has_task : nonempty_text (field call "task_id") ≡ some task_id
  pub has_call : nonempty_text (field call "call_id") ≡ some call_id
  pub has_key : nonempty_text (field call "idempotency_key") ≡ some key

accept_lem :
    (call : Dict Value) (task_id call_id key : String) (s : Registry)
    → IsCall call task_id call_id key
    → accept call s ≡ record_call task_id call_id key s
unfolding accept accept_lifecycle
accept_lem call task_id call_id key s c = ground (arith, str_eq_refl lifecycle_profile)

unfoldable pub run : Registry → List (Dict Value) → Registry
run s [] = s
run s (call ∷ calls) = run (accept call s).1 calls

-- What was recorded stays recorded.
record Extends (s t : Registry) : Type 0 where
  tasks : (k : String) (v : String) → Dict.get s.tasks k ≡ some v → Dict.get t.tasks k ≡ some v
  calls : (k : String) → Dict.contains s.calls k ≡ true → Dict.contains t.calls k ≡ true

record_call-Extends :
    (task_id call_id key : String) (s : Registry) → Extends s (record_call task_id call_id key s).1
unfolding record_call
record_call-Extends task_id call_id key s = record {
  tasks =
      λ k v p. ground (arith, Dict.get-put s.tasks task_id k key, eq_iff task_id k, eq_iff v key);
  calls = λ k p. ground (arith, Dict.get-put s.calls call_id k tt, eq_iff call_id k);
}

Extends-refl : (s : Registry) → Extends s s
Extends-refl s = record { tasks = λ k v p. p; calls = λ k p. p }

Extends-trans : (s t u : Registry) → Extends s t → Extends t u → Extends s u
Extends-trans s t u a b = record {
  tasks = λ k v p. b.tasks k v (a.tasks k v p);
  calls = λ k p. b.calls k (a.calls k p);
}

accept_lifecycle-Extends :
    (call : Dict Value) (s : Registry) → Extends s (accept_lifecycle call s).1
unfolding accept_lifecycle
accept_lifecycle-Extends call s = elim (Option-cases (nonempty_text (field call "task_id"))) [
  | inl e ↦ rw e (Extends-refl s)
  | inr (t, e) ↦ rw e (elim (Option-cases (nonempty_text (field call "call_id"))) [
    | inl e' ↦ rw e' (Extends-refl s)
    | inr (c, e') ↦ rw e' (elim (Option-cases (nonempty_text (field call "idempotency_key"))) [
      | inl e'' ↦ rw e'' (Extends-refl s)
      | inr (k, e'') ↦ rw e'' (record_call-Extends t c k s)
    ])
  ])
]

accept-Extends : (call : Dict Value) (s : Registry) → Extends s (accept call s).1
unfolding accept
accept-Extends call s =
    elim (Bool-cases (value_eq (field call "profile") (text lifecycle_profile))) [
      | inl b ↦ rw b (accept_lifecycle-Extends call s)
      | inr b ↦ rw b (Extends-refl s)
    ]

run-Extends : (s : Registry) (calls : List (Dict Value)) → Extends s (run s calls)
unfolding run
run-Extends s [] = Extends-refl s
run-Extends s (call ∷ calls) =
    Extends-trans s (accept call s).1 (run s (call ∷ calls)) (accept-Extends call s)
      (run-Extends (accept call s).1 calls)

recorded :
    (task_id call_id key : String) (s : Registry)
    → (record_call task_id call_id key s).0 ≡ ok tt
    → (Dict.get (record_call task_id call_id key s).1.tasks task_id ≡ some key)
      × (Dict.contains (record_call task_id call_id key s).1.calls call_id ≡ true)
unfolding record_call
recorded task_id call_id key s h = ground (
  arith,
  Dict.get-put s.tasks task_id task_id key,
  Dict.get-put s.calls call_id call_id tt,
  str_eq_refl task_id,
  str_eq_refl call_id,
)

-- After an accepted CALL, and any further CALLs, the registry knows the CALL and the task's key.
accepted_known :
    (call : Dict Value) (task_id call_id key : String) (s : Registry) (calls : List (Dict Value))
    → IsCall call task_id call_id key
    → (accept call s).0 ≡ ok tt
    → (Dict.get (run (accept call s).1 calls).tasks task_id ≡ some key)
      × (Dict.contains (run (accept call s).1 calls).calls call_id ≡ true)
accepted_known call task_id call_id key s calls c h =
    let same : accept call s ≡ record_call task_id call_id key s =
      accept_lem call task_id call_id key s c in
    let (task, known) = recorded task_id call_id key s (rw same at h) in
    let more : Extends (accept call s).1 (run (accept call s).1 calls) =
      run-Extends (accept call s).1 calls in
    (more.tasks task_id key (rw same task), more.calls call_id (rw same known))

-- The identifier of an accepted CALL is not accepted again: whatever CALLs come between, a later
-- lifecycle CALL with the same identifier is refused as a reuse, and the registry is unchanged.
pub call_id_once :
    (call later : Dict Value) (task_id task_id' call_id key key' : String) (s : Registry)
    (between : List (Dict Value))
    → IsCall call task_id call_id key
    → IsCall later task_id' call_id key'
    → (accept call s).0 ≡ ok tt
    → accept later (run (accept call s).1 between)
      ≡ (err call_id_reuse, run (accept call s).1 between)
unfolding record_call
call_id_once call later task_id task_id' call_id key key' s between c c' h =
    let (_, known) = accepted_known call task_id call_id key s between c h in
    accept_lem later task_id' call_id key' (run (accept call s).1 between) c'
    ∙ ground (arith, known)

-- A task keeps its idempotency key: whatever CALLs come between, a later lifecycle CALL for the task
-- of an accepted CALL, with another key, is refused (as a reuse, if its CALL identifier is known, and
-- else as a conflict), and the registry is unchanged.
pub task_key_stable :
    (call later : Dict Value) (task_id call_id call_id' key key' : String) (s : Registry)
    (between : List (Dict Value))
    → IsCall call task_id call_id key
    → IsCall later task_id call_id' key'
    → (accept call s).0 ≡ ok tt
    → key ≢ key'
    → let t = run (accept call s).1 between in
      accept later t
      ≡ (err (if Dict.contains t.calls call_id' then call_id_reuse else task_identity_conflict), t)
unfolding record_call
task_key_stable call later task_id call_id call_id' key key' s between c c' h ne =
    let (known, _) = accepted_known call task_id call_id key s between c h in
    accept_lem later task_id call_id' key' (run (accept call s).1 between) c'
    ∙ ground (arith, known, eq_iff key key')
