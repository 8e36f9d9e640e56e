-- ===== src/Routing/Peers/Tests.antt =====
-- Two peers, one of which can relay.
use iicp_client_python.Prelude.{◌⊎◌, ◌≡◌, refl, true, false, some, List, [], ◌∷◌, All}
use iicp_client_python.Prelude.Dict
use iicp_client_python.Routing.Peers.{
  Peer, Incoming, missing, number, PeerManager, raised, merge_peers, merge_from, peer_of, persist,
  get_relay_candidates, least, elect_relay,
}
use iicp_client_python.Routing.Peers.Mesh.{MeshOf, Step, gossips, merges}
use iicp_client_python.Routing.Peers.Election.{OneOf, NoWorse, CanRelay, elect_relay_least}

abbrev relay : Incoming
relay = record {
  node_id = "r";
  endpoint = "https://r";
  region = "";
  last_seen = "";
  relay_capable = true;
  relay_accept_port = number 9000;
  relay_load = missing;
}

abbrev plain : Incoming
plain = record {
  node_id = "p";
  endpoint = "https://p";
  region = "";
  last_seen = "";
  relay_capable = false;
  relay_accept_port = missing;
  relay_load = missing;
}

abbrev self : Incoming
self = record {
  node_id = "me";
  endpoint = "https://me";
  region = "";
  last_seen = "";
  relay_capable = true;
  relay_accept_port = missing;
  relay_load = missing;
}

abbrev alone : PeerManager
alone = record { peers = []; own_id = "me"; persisted = [] }

abbrev chosen : Peer → List Peer → Peer
chosen p ps = p

abbrev steps : List Step
steps = merges (relay ∷ self ∷ plain ∷ []) 5 ∷ gossips chosen raised raised 7 100000 ∷ []

abbrev relay_peer : Peer
relay_peer = record {
  node_id = "r";
  endpoint = "https://r";
  region = "";
  last_seen = "";
  last_contact = 5;
  relay_capable = true;
  relay_accept_port = 9000;
  relay_load = 0;
}

abbrev known : PeerManager
known = record { peers = ("r", relay_peer) ∷ []; own_id = "me"; persisted = [] }

merge_known : (merge_peers (plain ∷ relay ∷ []) 6 known).0 ≡ some 1
unfolding merge_peers merge_from peer_of persist Dict.get Dict.put
merge_known = refl

known-MeshOf : MeshOf known
unfolding Dict.get
known-MeshOf = ((refl, tt), ((refl, refl), tt))

elected : elect_relay (λ w r. 0) (λ e. e) "w" known ≡ some (relay_peer, "https://r", 9000)
unfolding elect_relay get_relay_candidates Dict.values least
elected = refl

elect_relay_least_example :
    OneOf relay_peer (Dict.values known.peers)
    × CanRelay relay_peer
    × All (λ r. (¬ CanRelay r) ⊎ NoWorse (λ s. 0) relay_peer r) (Dict.values known.peers)
    × (9000 ≡ relay_peer.relay_accept_port)
elect_relay_least_example =
    elect_relay_least (λ w r. 0) (λ e. e) "w" known relay_peer "https://r" 9000 elected
