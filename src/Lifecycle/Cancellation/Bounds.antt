-- ===== src/Lifecycle/Cancellation/Bounds.antt =====
-- The evidence of a `BackendCancellationRegistry` over sequences of calls.
use iicp_client_python.Prelude.{
  ◌≤◌, ◌<◌, String, ◌≡◌, refl, Option, none, some, List, [], ◌∷◌, ◌++◌, arith, length,
  length-append, Bool-cases, Option-cases, eq_iff, ap, ◌∙◌, ◌==◌, inl, inr,
}
use iicp_client_python.Prelude.Dict
use iicp_client_python.Prelude.Dict.{Dict}
use iicp_client_python.Lifecycle.States.{State, is_terminal}
use iicp_client_python.Lifecycle.Cancellation.{
  BackendCancellationEvidence, Handler, answers_false, answers_other, raises, Registry,
  max_evidence, init, register, remember, report, reported, complete, completed_evidence, request,
  evict, call_handler, called, signal,
}

-- The order lists the keys of the evidence, oldest first, and at most 256 of them.
pub record IsBounded (s : Registry) : Type 0 where
  pub unique : Dict.Unique s.evidence
  pub ordered : Dict.keys s.evidence ≡ s.evidence_order
  pub bounded : length s.evidence_order ≤ max_evidence

init-IsBounded : IsBounded init
unfolding init Dict.keys
init-IsBounded = record { unique = tt; ordered = refl; bounded = omega arith }

remove-first :
    (d : Dict BackendCancellationEvidence) (i j : String) (e : BackendCancellationEvidence)
    → Dict.get d i ≡ none
    → i ≡ j
    → Dict.remove ((i, e) ∷ d) j ≡ d
unfolding Dict.remove
remove-first d i j e h p = ground (arith, Dict.remove-absent d j, eq_iff i j)

get-tail_none :
    (d : Dict BackendCancellationEvidence) (i k : String) (e : BackendCancellationEvidence)
    → Dict.get ((i, e) ∷ d) k ≡ none
    → Dict.get d k ≡ none
unfolding Dict.get
get-tail_none d i k e h = ground arith

-- What evicting leaves: the order in step with the evidence, and room for one entry.
record Evicted (order : List String) (d : Dict BackendCancellationEvidence) (k : String)
    : Type 0 where
  unique : Dict.Unique d
  ordered : Dict.keys d ≡ order
  room : length order < max_evidence
  absent : Dict.get d k ≡ none

evict-Evicted :
    (order : List String) (d : Dict BackendCancellationEvidence) (k : String)
    → Dict.Unique d
    → Dict.keys d ≡ order
    → length order ≤ max_evidence
    → Dict.get d k ≡ none
    → Evicted (evict order d).0 (evict order d).1 k
unfolding Dict.keys
evict-Evicted [] d k u q b a = record { unique = u; ordered = q; room = omega arith; absent = a }
evict-Evicted (j ∷ order) [] k u q b a = cc
evict-Evicted (j ∷ order) ((i, e) ∷ d) k u q b a =
    elim (Bool-cases (length (j ∷ order) == max_evidence)) [
      | inr n ↦ rw n (record { unique = u; ordered = q; room = ground arith; absent = a })
      | inl y ↦
          let p : Dict.remove ((i, e) ∷ d) j ≡ d = remove-first d i j e u.0 (cc) in
          rw (y, p)
            (record {
              unique = u.1;
              ordered = cc;
              room = ground arith;
              absent = get-tail_none d i k e a;
            })
    ]

remember-IsBounded :
    (e : BackendCancellationEvidence) (s : Registry) → IsBounded s → IsBounded (remember e s)
unfolding remember
remember-IsBounded e s v = elim (Bool-cases (Dict.contains s.evidence e.task_id)) [
  | inl y ↦ rw y (record {
    unique = Dict.Unique-put s.evidence e.task_id e v.unique;
    ordered = ground (arith, Dict.keys-put s.evidence e.task_id e, v.ordered);
    bounded = v.bounded;
  })
  | inr n ↦
      let w : Evicted _ _ e.task_id =
        evict-Evicted s.evidence_order s.evidence e.task_id v.unique v.ordered v.bounded
          (ground arith) in
      rw n (record {
        unique = Dict.Unique-put _ e.task_id e w.unique;
        ordered =
            Dict.keys-put (evict s.evidence_order s.evidence).1 e.task_id e
            ∙ rw w.absent (ap (λ (l : List String). l ++ e.task_id ∷ []) w.ordered);
        bounded =
            omega
              (arith, w.room, length-append (evict s.evidence_order s.evidence).0 (e.task_id ∷ []));
      })
]

-- the parts of a registry that the invariant does not speak of
same_evidence :
    (s t : Registry)
    → IsBounded s
    → t.evidence ≡ s.evidence
    → t.evidence_order ≡ s.evidence_order
    → IsBounded t
same_evidence s t v p q = record {
  unique = rw p v.unique;
  ordered = rw (p, q) v.ordered;
  bounded = rw q v.bounded;
}

report-IsBounded :
    (task_id outcome : String) (s : Registry) → IsBounded s → IsBounded (report task_id outcome s).1
unfolding report
report-IsBounded task_id outcome s v =
    ground (arith, remember-IsBounded (reported task_id outcome s) s v)

complete-IsBounded :
    (task_id : String) (outcome : Option String) (s : Registry)
    → IsBounded s
    → IsBounded (complete task_id outcome s).1
unfolding complete
complete-IsBounded task_id outcome s v =
    remember-IsBounded (completed_evidence task_id outcome s) _ (same_evidence s _ v refl refl)

call_handler-IsBounded :
    (task_id : String) (handler : Handler) (s : Registry)
    → IsBounded s
    → IsBounded (call_handler task_id handler s).1
unfolding call_handler called signal
call_handler-IsBounded task_id raises s v = same_evidence s _ v refl refl
call_handler-IsBounded task_id answers_false s v =
    complete-IsBounded task_id (some "cancel_unsupported") (called task_id s)
      (same_evidence s (called task_id s) v refl refl)
call_handler-IsBounded task_id answers_other s v =
    report-IsBounded task_id "cancel_requested" (signal task_id (called task_id s))
      (same_evidence s (signal task_id (called task_id s)) v refl refl)

request-IsBounded :
    (task_id : String) (state : State) (s : Registry)
    → IsBounded s
    → IsBounded (request task_id state s).1
unfolding request
request-IsBounded task_id state s v = elim (Bool-cases (is_terminal state)) [
  | inl t ↦ rw t (complete-IsBounded task_id (some "already_terminal") s v)
  | inr t ↦ rw t (elim (Option-cases (Dict.get s.handlers task_id)) [
    | inl e ↦ rw (e, request) (complete-IsBounded task_id (some "cancel_unsupported") s v)
    | inr (h, e) ↦
        rw (e, request)
          (elim (Bool-cases (Dict.contains s.signalled task_id)) [
            | inl b ↦ rw b v
            | inr b ↦ rw b (call_handler-IsBounded task_id h s v)
          ])
  ])
]

-- A call of a method that changes the registry.
pub data Call : Type 0 where
  registers : String → Handler → Call
  reports : String → String → Call
  completes : String → Option String → Call
  requests : String → State → Call

unfoldable pub step : Registry → Call → Registry
step s (registers task_id handler) = register task_id handler s
step s (reports task_id outcome) = (report task_id outcome s).1
step s (completes task_id outcome) = (complete task_id outcome s).1
step s (requests task_id state) = (request task_id state s).1

unfoldable pub run : Registry → List Call → Registry
run s [] = s
run s (c ∷ cs) = run (step s c) cs

step-IsBounded : (s : Registry) (c : Call) → IsBounded s → IsBounded (step s c)
unfolding step register
step-IsBounded s (registers task_id handler) v = same_evidence s _ v refl refl
step-IsBounded s (reports task_id outcome) v = report-IsBounded task_id outcome s v
step-IsBounded s (completes task_id outcome) v = complete-IsBounded task_id outcome s v
step-IsBounded s (requests task_id state) v = request-IsBounded task_id state s v

run-IsBounded : (s : Registry) (cs : List Call) → IsBounded s → IsBounded (run s cs)
unfolding run
run-IsBounded s [] v = v
run-IsBounded s (c ∷ cs) v = run-IsBounded (step s c) cs (step-IsBounded s c v)

-- After any calls on a new registry the order lists exactly the tasks that have evidence, in the
-- order in which their entries were made, no task twice, and there are at most 256 of them.
pub run-init-IsBounded : (cs : List Call) → IsBounded (run init cs)
run-init-IsBounded cs = run-IsBounded init cs init-IsBounded
