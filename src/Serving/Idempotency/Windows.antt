-- ===== src/Serving/Idempotency/Windows.antt =====
-- `IdempotencyGuard` over sequences of registrations.
use iicp_client_python.Prelude.{
  ℕ, ◌+◌, ◌<◌, ◌≡◌, Bool, true, false, not, String, some, List, [], ◌∷◌, arith, str_eq_refl, ltb,
  is_some, Bool-cases, All, ◌∙◌, str-cases, inl, inr,
}
use iicp_client_python.Prelude.Dict
use iicp_client_python.Prelude.Dict.{Dict}
use iicp_client_python.Serving.Idempotency.{Guard, init, evict, register, is_replay}

-- the guard after registrations of these texts at these times
unfoldable pub run : Guard → List (String × ℕ) → Guard
run guard [] = guard
run guard ((task_id, now) ∷ calls) = run (register task_id now guard).1 calls

-- whether a text counts as seen at a time
abbrev pub known : Guard → String → ℕ → Bool
known guard task_id now =
    is_some (Dict.kept (λ expiry. ltb now expiry) (Dict.get guard.seen task_id))

register-known :
    (guard : Guard) (task_id : String) (now : ℕ)
    → Dict.Unique guard.seen
    → (register task_id now guard).0 ≡ not (known guard task_id now)
unfolding register
register-known guard task_id now u =
    let found = Dict.get-keep (λ expiry. ltb now expiry) guard.seen task_id u in ground arith

Unique-register :
    (guard : Guard) (task_id : String) (now : ℕ)
    → Dict.Unique guard.seen
    → Dict.Unique (register task_id now guard).1.seen
unfolding register
Unique-register guard task_id now u =
    let live = Dict.Unique-keep (λ expiry. ltb now expiry) guard.seen u in
    let more = Dict.Unique-put (evict now guard) task_id (now + guard.ttl) live in
    elim (Bool-cases (Dict.contains (evict now guard) task_id)) [
      | inl e ↦ rw (e, register) live
      | inr e ↦ rw (e, register) more
    ]

Unique-run :
    (guard : Guard) (calls : List (String × ℕ))
    → Dict.Unique guard.seen
    → Dict.Unique (run guard calls).seen
unfolding run
Unique-run guard [] u = u
Unique-run guard ((task_id, now) ∷ calls) u =
    Unique-run (register task_id now guard).1 calls (Unique-register guard task_id now u)

-- an entry stays while its time is not up
seen-register :
    (guard : Guard) (k : String) (expiry : ℕ) (task_id : String) (now : ℕ)
    → Dict.Unique guard.seen
    → now < expiry
    → Dict.get guard.seen k ≡ some expiry
    → Dict.get (register task_id now guard).1.seen k ≡ some expiry
unfolding register
seen-register guard k expiry task_id now u p h =
    let live : Dict.get (evict now guard) k ≡ some expiry =
      Dict.get-keep (λ e. ltb now e) guard.seen k u ∙ rw h (ground arith) in
    elim (str-cases task_id k) [
      | inl e ↦ rw e (ground arith)
      | inr ne ↦ ground (arith, Dict.get-put (evict now guard) task_id k (now + guard.ttl))
    ]

seen-run :
    (guard : Guard) (k : String) (expiry : ℕ) (calls : List (String × ℕ))
    → Dict.Unique guard.seen
    → All (λ (call : String × ℕ). call.1 < expiry) calls
    → Dict.get guard.seen k ≡ some expiry
    → Dict.get (run guard calls).seen k ≡ some expiry
unfolding run
seen-run guard k expiry [] u a h = h
seen-run guard k expiry ((task_id, now) ∷ calls) u a h =
    seen-run (register task_id now guard).1 k expiry calls (Unique-register guard task_id now u) a.1
      (seen-register guard k expiry task_id now u a.0 h)

registered-seen :
    (guard : Guard) (task_id : String) (now : ℕ)
    → (register task_id now guard).0 ≡ true
    → Dict.get (register task_id now guard).1.seen task_id ≡ some (now + guard.ttl)
unfolding register
registered-seen guard task_id now h =
    ground
      (arith, Dict.get-put (evict now guard) task_id task_id (now + guard.ttl), str_eq_refl task_id)

-- After any registrations from a new guard, when a text is registered as new, then it is a duplicate
-- at every later registration whose time, like those of all the registrations between, is before the
-- end of the text's own window.
pub duplicate_in_window :
    (ttl_s : ℕ) (earlier : List (String × ℕ)) (task_id : String) (now : ℕ)
    (between : List (String × ℕ)) (now' : ℕ)
    → (register task_id now (run (init ttl_s) earlier)).0 ≡ true
    → All (λ (call : String × ℕ). call.1 < now + (run (init ttl_s) earlier).ttl) between
    → now' < now + (run (init ttl_s) earlier).ttl
    → (register task_id now' (run (register task_id now (run (init ttl_s) earlier)).1 between)).0
      ≡ false
unfolding init
duplicate_in_window ttl_s earlier task_id now between now' h a p =
    let guard = run (init ttl_s) earlier in
    let first = (register task_id now guard).1 in
    let unique = Unique-register guard task_id now (Unique-run (init ttl_s) earlier tt) in
    let there =
      seen-run first task_id (now + guard.ttl) between unique a
        (registered-seen guard task_id now h) in
    let last = register-known (run first between) task_id now' (Unique-run first between unique) in
    ground arith

-- After any registrations from a new guard, a registration is new exactly when the guard has no entry
-- of the text, or one whose time is up.
pub new_iff_unknown :
    (ttl_s : ℕ) (earlier : List (String × ℕ)) (task_id : String) (now : ℕ)
    → (register task_id now (run (init ttl_s) earlier)).0
      ≡ not (known (run (init ttl_s) earlier) task_id now)
unfolding init
new_iff_unknown ttl_s earlier task_id now =
    register-known (run (init ttl_s) earlier) task_id now (Unique-run (init ttl_s) earlier tt)

-- The replay cache is the guard with the answer turned round.
pub is_replay-register :
    (guard : Guard) (nonce : String) (now : ℕ)
    → is_replay nonce now guard ≡ (not (register nonce now guard).0, (register nonce now guard).1)
unfolding is_replay register
is_replay-register guard nonce now = ground arith
