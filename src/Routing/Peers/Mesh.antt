-- ===== src/Routing/Peers/Mesh.antt =====
-- The peers that `PeerManager` of peer_manager.py keeps.
use iicp_client_python.Prelude.{
  ℕ, ◌+◌, ◌≤◌, ◌<◌, ◌≡◌, refl, ap, sym, ◌∙◌, inl, inr, Bool, true, false, String, Option, none,
  some, List, [], ◌∷◌, All, arith, length, str_eq, str_eq_refl, Option-cases, Bool-cases, ltb,
}
use iicp_client_python.Prelude.Dict
use iicp_client_python.Prelude.Dict.{Dict}
use iicp_client_python.Routing.Peers.{
  Peer, PeerManager, Incoming, Reply, raised, peer_of, is_skipped, count_new, store, merge_from,
  persist, persist_if, merged, merge_peers, is_recent, prune, contact, exchange, gossip_round,
  peer_expiry,
}

-- An entry stands under its own identifier, which is neither empty nor that of the node itself.
abbrev pub Foreign : String → String × Peer → Type 0
Foreign own_id (node_id, p) = (p.node_id ≡ node_id) × (is_skipped own_id node_id ≡ false)

abbrev pub IsMesh : String → Dict Peer → Type 0
IsMesh own_id peers = Dict.Unique peers × All (Foreign own_id) peers

All-put :
    (own_id : String) (d : Dict Peer) (k : String) (p : Peer)
    → Foreign own_id (k, p)
    → All (Foreign own_id) d
    → All (Foreign own_id) (Dict.put d k p)
unfolding Dict.put
All-put own_id [] k p h hs = (h, tt)
All-put own_id ((j, q) ∷ d) k p h hs = elim (Bool-cases (str_eq j k)) [
  | inl e ↦ rw e (h, hs.1)
  | inr e ↦ rw e (hs.0, All-put own_id d k p h hs.1)
]

put-IsMesh :
    (own_id : String) (d : Dict Peer) (k : String) (p : Peer)
    → IsMesh own_id d
    → Foreign own_id (k, p)
    → IsMesh own_id (Dict.put d k p)
put-IsMesh own_id d k p h f = (Dict.Unique-put d k p h.0, All-put own_id d k p f h.1)

-- the entry that is stored has the identifier of the one that came in
peer_of-id : (p : Incoming) (now : ℕ) (q : Peer) → peer_of p now ≡ some q → q.node_id ≡ p.node_id
unfolding peer_of
peer_of-id p now q h = ground arith

-- the loop keeps the mesh, and counts the entries that are new
record Merged (own_id : String) (added : ℕ) (peers : Dict Peer) (r : Option ℕ × Dict Peer)
    : Type 0 where
  mesh : IsMesh own_id r.1
  count : (total : ℕ) → r.0 ≡ some total → total + length peers ≡ added + length r.1
  grows : length peers ≤ length r.1

store-Merged :
    (p : Incoming) (own_id : String) (now added : ℕ) (peers : Dict Peer)
    (rest : ℕ → Dict Peer → Option ℕ × Dict Peer) (o : Option Peer)
    → peer_of p now ≡ o
    → is_skipped own_id p.node_id ≡ false
    → IsMesh own_id peers
    → ((n : ℕ) (d : Dict Peer) → IsMesh own_id d → Merged own_id n d (rest n d))
    → Merged own_id added peers (store rest p added peers o)
store-Merged p own_id now added peers rest none k e h next = record {
  mesh = h;
  count = λ total l. cc;
  grows = omega arith;
}
store-Merged p own_id now added peers rest (some q) k e h next =
    let put : Dict Peer = Dict.put peers p.node_id q in
    let n : ℕ = count_new (Dict.contains peers p.node_id) added in
    let m : Merged own_id n put (rest n put) =
      next n put (put-IsMesh own_id peers p.node_id q h (peer_of-id p now q k, e)) in
    let size : length put + added ≡ length peers + n =
      ground (arith, Dict.size-put peers p.node_id q) in
    let less : length peers ≤ length put = ground (arith, Dict.size-put peers p.node_id q) in
    record {
      mesh = m.mesh;
      count = λ total l. omega (arith, m.count total l, size);
      grows = omega (arith, m.grows, less);
    }

merge_from-Merged :
    (ps : List Incoming) (own_id : String) (now added : ℕ) (peers : Dict Peer)
    → IsMesh own_id peers
    → Merged own_id added peers (merge_from ps own_id now added peers)
unfolding merge_from
merge_from-Merged [] own_id now added peers h = record {
  mesh = h;
  count = λ total e. ground arith;
  grows = omega arith;
}
merge_from-Merged (p ∷ ps) own_id now added peers h =
    elim (Bool-cases (is_skipped own_id p.node_id)) [
      | inl e ↦ rw (e, merge_from) (merge_from-Merged ps own_id now added peers h)
      | inr e ↦
          rw (e, merge_from)
            (store-Merged p own_id now added peers (merge_from ps own_id now) (peer_of p now) refl e
              h (λ n d. merge_from-Merged ps own_id now n d))
    ]

persist_if-peers :
    (b : Bool) (m : PeerManager)
    → ((persist_if b m).peers ≡ m.peers) × ((persist_if b m).own_id ≡ m.own_id)
unfolding persist
persist_if-peers true m = (refl, refl)
persist_if-peers false m = (refl, refl)

-- what a peer manager keeps
abbrev pub MeshOf : PeerManager → Type 0
MeshOf m = IsMesh m.own_id m.peers

merged-peers :
    (m : PeerManager) (r : Option ℕ × Dict Peer)
    → ((merged m r).1.peers ≡ r.1) × ((merged m r).1.own_id ≡ m.own_id) × ((merged m r).0 ≡ r.0)
unfolding persist
merged-peers m (none, peers) = (refl, refl, refl)
merged-peers m (some n, peers) =
    let (p, o) = persist_if-peers (ltb 0 n) (record m { peers = peers }) in (p, o, refl)

-- `merge_peers` returns how many peers are new, which is by how much the peers have grown.
pub merge_peers-count :
    (incoming : List Incoming) (now : ℕ) (m : PeerManager) (added : ℕ)
    → MeshOf m
    → (merge_peers incoming now m).0 ≡ some added
    → length (merge_peers incoming now m).1.peers ≡ length m.peers + added
unfolding merge_peers
merge_peers-count incoming now m added h e =
    let r : Option ℕ × Dict Peer = merge_from incoming m.own_id now 0 m.peers in
    let (peers, own, result) = merged-peers m r in
    let c : Merged m.own_id 0 m.peers r = merge_from-Merged incoming m.own_id now 0 m.peers h in
    omega (arith, ap length peers, c.count added (sym result ∙ e))

-- What a peer manager goes through: a round of gossip, or peers that an HTTP handler merges.
pub data Step : Type 0 where
  gossips : (Peer → List Peer → Peer) → Reply → Reply → ℕ → ℕ → Step
  merges : List Incoming → ℕ → Step

unfoldable pub step : Step → PeerManager → PeerManager
step (gossips choose boot reply now later) m = gossip_round choose boot reply now later m
step (merges incoming now) m = (merge_peers incoming now m).1

unfoldable pub run : List Step → PeerManager → PeerManager
run [] m = m
run (s ∷ ss) m = run ss (step s m)

contact-none :
    (node_id : String) (time : ℕ) (m : PeerManager)
    → Dict.get m.peers node_id ≡ none
    → contact node_id time m ≡ m
unfolding contact
contact-none node_id time m e = rw (e, contact) refl

contact-some :
    (node_id : String) (time : ℕ) (m : PeerManager) (p : Peer)
    → Dict.get m.peers node_id ≡ some p
    → contact node_id time m
      ≡ record m { peers = Dict.put m.peers node_id (record p { last_contact = time }) }
unfolding contact
contact-some node_id time m p e = rw (e, contact) refl

-- what is left of a peer after `prune`
abbrev pruned_get : String → ℕ → PeerManager → Option Peer
pruned_get node_id later m = Dict.get (Dict.keep (is_recent later) m.peers) node_id

-- A peer whose exchange raised is gone after the same round of gossip, if the clock then reads more
-- than the expiry.
pub exchange-dropped :
    (target : Peer) (now later : ℕ) (m : PeerManager)
    → MeshOf m
    → peer_expiry < later
    → Dict.get (prune later (exchange target raised now m)).1.peers target.node_id ≡ none
unfolding prune exchange
exchange-dropped target now later m h l = elim (Option-cases (Dict.get m.peers target.node_id)) [
  | inl e ↦
      ap (pruned_get target.node_id later) (contact-none target.node_id 0 m e)
      ∙ Dict.get-keep (is_recent later) m.peers target.node_id h.0
      ∙ ap (Dict.kept (is_recent later)) e
  | inr (p, e) ↦
      let q : Peer = record p { last_contact = 0 } in
      let written : Dict.get (Dict.put m.peers target.node_id q) target.node_id ≡ some q =
        rw (str_eq_refl target.node_id) at (Dict.get-put m.peers target.node_id target.node_id q) in
      ap (pruned_get target.node_id later) (contact-some target.node_id 0 m p e)
      ∙ Dict.get-keep (is_recent later) (Dict.put m.peers target.node_id q) target.node_id
          (Dict.Unique-put m.peers target.node_id q h.0)
      ∙ ap (Dict.kept (is_recent later)) written
      ∙ ground arith
]
