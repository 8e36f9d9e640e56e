-- ===== src/Routing/Peers/Election.antt =====
-- `elect_relay` of peer_manager.py.
use iicp_client_python.Prelude.{
  ◌∙◌, ◌≢◌, Bool, false, not, ◌&&◌, select, str_eq, eq_iff, ◌<◌, ◌≤◌, ℕ, ◌≡◌, ◌⊎◌, inl, inr, refl,
  ap, sym, if◌then◌else◌, true, false, String, some, List, [], ◌∷◌, All, arith, Bool-cases,
}
use mathlib.Core.Path.{subst}
use iicp_client_python.Prelude.Dict
use iicp_client_python.Routing.Peers.{
  Peer, PeerManager, get_relay_candidates, is_better, least, elect_of, elect_relay,
}

abbrev pub OneOf : Peer → List Peer → Type 0
OneOf p [] = ⊥
OneOf p (q ∷ qs) = (p ≡ q) ⊎ OneOf p qs

OneOf-skip : (r p q : Peer) (qs : List Peer) → OneOf r (p ∷ qs) → OneOf r (p ∷ q ∷ qs)
OneOf-skip r p q qs (inl e) = inl e
OneOf-skip r p q qs (inr h) = inr (inr h)

module _ (score : String → ℕ) where
  least-then :
      (p q : Peer) (qs : List Peer)
      → is_better score q p ≡ true
      → least score p (q ∷ qs) ≡ least score q qs
  unfolding least
  least-then p q qs e = ap (λ b. least score (if b then q else p) qs) e

  least-else :
      (p q : Peer) (qs : List Peer)
      → is_better score q p ≡ false
      → least score p (q ∷ qs) ≡ least score p qs
  unfolding least
  least-else p q qs e = ap (λ b. least score (if b then q else p) qs) e

  least-OneOf : (p : Peer) (qs : List Peer) → OneOf (least score p qs) (p ∷ qs)
  least-OneOf p [] = unfold least in inl refl
  least-OneOf p (q ∷ qs) = elim (Bool-cases (is_better score q p)) [
    | inl e ↦ subst (λ r. OneOf r (p ∷ q ∷ qs)) (sym (least-then p q qs e)) (inr (least-OneOf q qs))
    | inr e ↦
        subst (λ r. OneOf r (p ∷ q ∷ qs)) (sym (least-else p q qs e))
          (OneOf-skip (least score p qs) p q qs (least-OneOf p qs))
  ]

  -- what is not better than a candidate is not better than the least
  least-better :
      (p : Peer) (qs : List Peer) (r : Peer)
      → is_better score r p ≡ false
      → is_better score r (least score p qs) ≡ false
  least-better p [] r h = unfold least in h
  least-better p (q ∷ qs) r h = elim (Bool-cases (is_better score q p)) [
    | inl e ↦
        subst (λ s. is_better score r s ≡ false) (sym (least-then p q qs e))
          (least-better q qs r (ground arith))
    | inr e ↦
        subst (λ s. is_better score r s ≡ false) (sym (least-else p q qs e)) (least-better p qs r h)
  ]

  abbrev Least : Peer → List Peer → Type 0
  Least s rs = All (λ r. is_better score r s ≡ false) rs

  least-Least : (p : Peer) (qs : List Peer) → Least (least score p qs) (p ∷ qs)
  least-Least p [] = unfold least in (ground arith, tt)
  least-Least p (q ∷ qs) = elim (Bool-cases (is_better score q p)) [
    | inl e ↦
        subst (λ s. Least s (p ∷ q ∷ qs)) (sym (least-then p q qs e))
          (least-better q qs p (ground arith), least-Least q qs)
    | inr e ↦
        subst (λ s. Least s (p ∷ q ∷ qs)) (sym (least-else p q qs e))
          ((least-Least p qs).0, (least-better p qs q e, (least-Least p qs).1))
  ]

elect_of_least :
    (score : String → ℕ) (host_of : String → String) (cs : List Peer) (p : Peer) (host : String)
    (port : ℕ)
    → elect_of score host_of cs ≡ some (p, host, port)
    → OneOf p cs × All (λ r. is_better score r p ≡ false) cs × (port ≡ p.relay_accept_port)
elect_of_least score host_of [] p host port h = cc
elect_of_least score host_of (c ∷ cs) p host port h =
    let same : least score c cs ≡ p = ground arith in
    (
      subst (λ r. OneOf r (c ∷ cs)) same (least-OneOf score c cs),
      subst (λ r. Least score r (c ∷ cs)) same (least-Least score c cs),
      ground arith,
    )

-- `p` has a smaller load than `q`, or the same load and no greater score.
abbrev pub NoWorse : (String → ℕ) → Peer → Peer → Type 0
NoWorse score p q =
    (p.relay_load < q.relay_load)
    ⊎ ((p.relay_load ≡ q.relay_load) × (score p.node_id ≤ score q.node_id))

not_better-NoWorse :
    (score : String → ℕ) (p q : Peer) → is_better score q p ≡ false → NoWorse score p q
not_better-NoWorse score p q h = ground arith

Least-NoWorse :
    (score : String → ℕ) (p : Peer) (rs : List Peer)
    → All (λ r. is_better score r p ≡ false) rs
    → All (λ r. NoWorse score p r) rs
Least-NoWorse score p [] h = tt
Least-NoWorse score p (r ∷ rs) h = (not_better-NoWorse score p r h.0, Least-NoWorse score p rs h.1)

-- a peer that can relay, and whose endpoint is known
abbrev pub CanRelay : Peer → Type 0
CanRelay p = (p.relay_capable ≡ true) × (p.endpoint ≢ "")

module _ (f : Peer → Bool) where
  OneOf-select : (p : Peer) (qs : List Peer) → OneOf p (select f qs) → OneOf p qs × (f p ≡ true)
  OneOf-select p [] h = absurd h
  OneOf-select p (q ∷ qs) h = elim (Bool-cases (f q)) [
    | inr e ↦ let (among, able) = OneOf-select p qs (rw e at h) in (inr among, able)
    | inl e ↦ elim (let k : OneOf p (q ∷ select f qs) = rw e at h in k) [
      | inl same ↦ (inl same, ap f same ∙ e)
      | inr later ↦ let (among, able) = OneOf-select p qs later in (inr among, able)
    ]
  ]

  All-select :
      (P : Peer → Type 0) (qs : List Peer) → All P (select f qs) → All (λ q. (f q ≡ false) ⊎ P q) qs
  All-select P [] h = tt
  All-select P (q ∷ qs) h = elim (Bool-cases (f q)) [
    | inr e ↦ (inl e, All-select P qs (rw e at h))
    | inl e ↦ let k : P q × All P (select f qs) = rw e at h in (inr k.0, All-select P qs k.1)
  ]

able-CanRelay : (p : Peer) → (p.relay_capable && not (str_eq p.endpoint "")) ≡ true → CanRelay p
able-CanRelay p h = (
  ground arith,
  λ e. let same : str_eq p.endpoint "" ≡ true = (eq_iff p.endpoint "").1 e in ground arith,
)

not-CanRelay : (p : Peer) → (p.relay_capable && not (str_eq p.endpoint "")) ≡ false → ¬ CanRelay p
not-CanRelay p h k = k.1 (ground (arith, eq_iff p.endpoint ""))

Passed-by :
    (score : String → ℕ) (p : Peer) (rs : List Peer)
    → All (λ r. ((r.relay_capable && not (str_eq r.endpoint "")) ≡ false) ⊎ NoWorse score p r) rs
    → All (λ r. (¬ CanRelay r) ⊎ NoWorse score p r) rs
Passed-by score p [] h = tt
Passed-by score p (r ∷ rs) h =
    (elim h.0 [ inl e ↦ inl (not-CanRelay r e) | inr n ↦ inr n ], Passed-by score p rs h.1)

-- An elected relay is a known peer that can relay; every other known peer cannot relay, or has a
-- greater load, or the same load and no smaller digest with the worker's identifier; and the relay's own
-- port comes back with it.
pub elect_relay_least :
    (digest : String → String → ℕ) (host_of : String → String) (worker_id : String)
    (m : PeerManager) (p : Peer) (host : String) (port : ℕ)
    → elect_relay digest host_of worker_id m ≡ some (p, host, port)
    → OneOf p (Dict.values m.peers)
      × CanRelay p
      × All (λ r. (¬ CanRelay r) ⊎ NoWorse (digest worker_id) p r) (Dict.values m.peers)
      × (port ≡ p.relay_accept_port)
unfolding elect_relay get_relay_candidates
elect_relay_least digest host_of worker_id m p host port h =
    let (among, best, own) =
      elect_of_least (digest worker_id) host_of (get_relay_candidates m) p host port h in
    let can = λ (r : Peer). r.relay_capable && not (str_eq r.endpoint "") in
    let (known, able) = OneOf-select can p (Dict.values m.peers) among in
    (
      known,
      able-CanRelay p able,
      Passed-by (digest worker_id) p (Dict.values m.peers) (
          All-select can (NoWorse (digest worker_id) p) (Dict.values m.peers)
            (Least-NoWorse (digest worker_id) p (get_relay_candidates m) best)),
      own,
    )
