-- ===== src/Routing/Peers.antt =====
-- peer_manager.py: `PeerManager`. Times are readings of the monotonic clock in thousandths of a second,
-- loads are thousandths, and a SHA-256 digest is the number it writes: hexadecimal texts of one length are ordered like
-- their numbers. What a request comes to is an argument; the file that keeps the peers is the
-- list that was written last. The readings of the clock in one exchange are taken as one.
pub mod Mesh
pub mod Election
mod Tests
use iicp_client_python.Prelude.{
  ℕ, suc, ◌+◌, ◌-◌, Bool, true, false, not, ◌&&◌, ◌||◌, String, Option, none, some, List, [], ◌∷◌,
  length, str_eq, ltb, leb, ◌==◌, is_some, if◌then◌else◌, select,
}
use iicp_client_python.Prelude.Exec.{Result, ok, err}
use iicp_client_python.Prelude.Dict
use iicp_client_python.Prelude.Dict.{Dict}

pub record Peer : Type 0 where
  pub node_id : String
  pub endpoint : String
  pub region : String
  pub last_seen : String
  pub last_contact : ℕ
  pub relay_capable : Bool
  pub relay_accept_port : ℕ
  pub relay_load : ℕ

-- a key of an incoming entry that is converted by `int` or `float`
pub data Number : Type 0 where
  missing refused : Number
  number : ℕ → Number

-- An incoming entry; texts stand as `get` with its default reads them, and no or an empty `node_id` is "".
pub record Incoming : Type 0 where
  pub node_id : String
  pub endpoint : String
  pub region : String
  pub last_seen : String
  pub relay_capable : Bool
  pub relay_accept_port : Number
  pub relay_load : Number

pub record PeerManager : Type 0 where
  pub peers : Dict Peer
  pub own_id : String
  pub persisted : List Peer

-- `_PEER_EXPIRY_S`
abbrev pub peer_expiry : ℕ
peer_expiry = 90000

abbrev pub number_or : Number → ℕ → Option ℕ
number_or missing default = some default
number_or refused default = none
number_or (number n) default = some n

abbrev pub new_peer : Incoming → ℕ → ℕ → ℕ → Peer
new_peer p now port load = record {
  node_id = p.node_id;
  endpoint = p.endpoint;
  region = p.region;
  last_seen = p.last_seen;
  last_contact = now;
  relay_capable = p.relay_capable;
  relay_accept_port = port;
  relay_load = load;
}

-- the entry that is stored; `none` is the exception of `int` or `float`
unfoldable pub peer_of : Incoming → ℕ → Option Peer
peer_of p now = elim (number_or p.relay_accept_port 9485) [
  | none ↦ none
  | some port ↦ elim (number_or p.relay_load 0) [
    | none ↦ none
    | some load ↦ some (new_peer p now port load)
  ]
]

abbrev pub is_skipped : String → String → Bool
is_skipped own_id node_id = str_eq node_id "" || str_eq node_id own_id

abbrev pub count_new : Bool → ℕ → ℕ
count_new true added = added
count_new false added = suc added

abbrev pub store :
    (ℕ → Dict Peer → Option ℕ × Dict Peer)
    → Incoming
    → ℕ
    → Dict Peer
    → Option Peer
    → Option ℕ × Dict Peer
store rest p added peers none = (none, peers)
store rest p added peers (some peer) =
    rest (count_new (Dict.contains peers p.node_id) added) (Dict.put peers p.node_id peer)

-- the loop of `merge_peers`: the count, or none where an entry raises; what was stored stays
unfoldable pub merge_from : List Incoming → String → ℕ → ℕ → Dict Peer → Option ℕ × Dict Peer
unfolding peer_of
merge_from [] own_id now added peers = (some added, peers)
merge_from (p ∷ ps) own_id now added peers = elim (is_skipped own_id p.node_id) [
  | true ↦ merge_from ps own_id now added peers
  | false ↦ store (merge_from ps own_id now) p added peers (peer_of p now)
]

-- `_persist`
unfoldable pub persist : PeerManager → PeerManager
persist m = record m { persisted = Dict.values m.peers }

abbrev pub persist_if : Bool → PeerManager → PeerManager
persist_if true m = persist m
persist_if false m = m

abbrev pub merged : PeerManager → Option ℕ × Dict Peer → Option ℕ × PeerManager
merged m (none, peers) = (none, record m { peers = peers })
merged m (some added, peers) = (some added, persist_if (ltb 0 added) (record m { peers = peers }))

-- the count of the added peers, or none for an exception
unfoldable pub merge_peers : List Incoming → ℕ → PeerManager → Option ℕ × PeerManager
merge_peers incoming now m = merged m (merge_from incoming m.own_id now 0 m.peers)

unfoldable pub get_relay_candidates : PeerManager → List Peer
get_relay_candidates m =
    select (λ p. p.relay_capable && not (str_eq p.endpoint "")) (Dict.values m.peers)

-- the order of `_score`: by the load, and then by the digest of both identifiers
abbrev pub is_better : (String → ℕ) → Peer → Peer → Bool
is_better score p q =
    ltb p.relay_load q.relay_load
    || (p.relay_load == q.relay_load && ltb (score p.node_id) (score q.node_id))

-- `min(candidates, key=_score)`, of at least one: the first of the least
unfoldable pub least : (String → ℕ) → Peer → List Peer → Peer
least score p [] = p
least score p (q ∷ qs) = least score (if is_better score q p then q else p) qs

-- the elected one of the candidates, and the host and the port to bind to
abbrev pub elect_of : (String → ℕ) → (String → String) → List Peer → Option (Peer × String × ℕ)
elect_of score host_of [] = none
elect_of score host_of (p ∷ ps) =
    let elected = least score p ps in
    some (elected, host_of elected.endpoint, elected.relay_accept_port)

unfoldable pub elect_relay :
    (String → String → ℕ) → (String → String) → String → PeerManager → Option (Peer × String × ℕ)
elect_relay digest host_of worker_id m =
    elect_of (digest worker_id) host_of (get_relay_candidates m)

-- `p["last_contact"] >= cutoff`, with the cutoff as a subtraction that may be negative
abbrev pub is_recent : ℕ → Peer → Bool
is_recent now p = leb now (p.last_contact + peer_expiry)

unfoldable pub prune : ℕ → PeerManager → ℕ × PeerManager
prune now m =
    let kept = Dict.keep (is_recent now) m.peers in
    (length m.peers - length kept, record m { peers = kept })

-- `verify_exchange`, with the HMAC as an argument
unfoldable pub verify_exchange : (String → String → String) → String → String → Option String → Bool
verify_exchange sign_body token body signature = if str_eq token "" then true else elim signature [
  | none ↦ false
  | some s ↦ if str_eq s "" then false else str_eq (sign_body body token) s
]

-- What a request comes to: the entries of an answer, another status, or an exception.
pub data Reply : Type 0 where
  answered : List Incoming → Reply
  not_success raised : Reply

-- `self._peers[node_id]["last_contact"] = time`, where the peer is known
unfoldable pub contact : String → ℕ → PeerManager → PeerManager
contact node_id time m = elim (Dict.get m.peers node_id) [
  | none ↦ m
  | some p ↦ record m { peers = Dict.put m.peers node_id (record p { last_contact = time }) }
]

-- the rest of the `try` block after `merge_peers`, or the `except` clause
abbrev pub after_merge : String → ℕ → Option ℕ × PeerManager → PeerManager
after_merge node_id now (some added, m) = contact node_id now m
after_merge node_id now (none, m) = contact node_id 0 m

unfoldable pub exchange : Peer → Reply → ℕ → PeerManager → PeerManager
exchange target (answered incoming) now m =
    after_merge target.node_id now (merge_peers incoming now m)
exchange target not_success now m = m
exchange target raised now m = contact target.node_id 0 m

-- `_bootstrap`; an exception of `merge_peers` is caught
unfoldable pub bootstrap : Reply → ℕ → PeerManager → PeerManager
bootstrap (answered incoming) now m = let (added, m') = merge_peers incoming now m in m'
bootstrap _ now m = m

-- `gossip_round` for the peers that are known: `choose` is the random choice among them
abbrev pub gossip_with :
    (Peer → List Peer → Peer) → Reply → Reply → ℕ → ℕ → List Peer → PeerManager → PeerManager
gossip_with choose bootstrap_reply exchange_reply now later [] m = bootstrap bootstrap_reply now m
gossip_with choose bootstrap_reply exchange_reply now later (p ∷ ps) m =
    let (pruned, m') = prune later (exchange (choose p ps) exchange_reply now m) in m'

unfoldable pub gossip_round :
    (Peer → List Peer → Peer) → Reply → Reply → ℕ → ℕ → PeerManager → PeerManager
gossip_round choose bootstrap_reply exchange_reply now later m =
    gossip_with choose bootstrap_reply exchange_reply now later (Dict.values m.peers) m
