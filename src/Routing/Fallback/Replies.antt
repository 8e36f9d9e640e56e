-- ===== src/Routing/Fallback/Replies.antt =====
-- One response of a candidate in proxy/routing/fallback.py: when it is kept, and what is returned of it.
use iicp_client_python.Prelude.{
  ◌≡◌, refl, sym, ◌⊎◌, inl, inr, String, Option, none, some, arith, eq_iff, Option-cases,
}
use iicp_client_python.Cooperative.Aggregation.{CipAggregationResult}
use iicp_client_python.Routing.Router.{Node}
use iicp_client_python.Routing.Fallback.{
  build_cip_aggregation, key_error, hash_error, Response, Receipt, Envelope, discards,
  verify_receipt_hash, finished,
}

-- the response goes with the envelope: the session key is echoed, and the receipt's hash is that of the result
abbrev pub Bound : {A : Type 0} → (Option A → String) → Option Envelope → Response A → Type 0
Bound digest none r = Unit
Bound digest (some e) r =
    ((e.session_key ≡ none)
      ⊎ ((key : String) × (e.session_key ≡ some key) × (r.cip_session_key ≡ some key)))
    × ((r.cip_receipt ≡ none)
        ⊎ ((receipt : Receipt) × (r.cip_receipt ≡ some receipt)
            × (receipt.response_hash ≡ some (digest r.result))))

module _ {A : Type 0} (digest : Option A → String) where
  key_error-none :
      (expected actual : Option String)
      → key_error digest expected actual ≡ none
      → (expected ≡ none) ⊎ ((key : String) × (expected ≡ some key) × (actual ≡ some key))
  key_error-none none actual h = inl refl
  key_error-none (some key) none h = cc
  key_error-none (some key) (some other) h = inr (key, refl, ground (arith, eq_iff other key))

  hash_error-none :
      (result : Option A) (hash : Option String)
      → hash_error digest result hash ≡ none
      → hash ≡ some (digest result)
  hash_error-none result none h = cc
  hash_error-none result (some hash) h = ground (arith, eq_iff (digest result) hash)

  receipt-none :
      (r : Response A) (receipt : Option Receipt)
      → r.cip_receipt ≡ receipt
      → verify_receipt_hash digest r ≡ none
      → (receipt ≡ none)
        ⊎ ((c : Receipt) × (receipt ≡ some c) × (c.response_hash ≡ some (digest r.result)))
  unfolding verify_receipt_hash
  receipt-none r none e h = inl refl
  receipt-none r (some c) e h = inr (c, refl, hash_error-none r.result c.response_hash (rw e at h))

  pub discards-Bound :
      (envelope : Option Envelope) (r : Response A)
      → discards digest envelope r ≡ none
      → Bound digest envelope r
  unfolding discards
  discards-Bound none r h = tt
  discards-Bound (some e) r h =
      elim (Option-cases (key_error digest e.session_key r.cip_session_key)) [
        | inl k ↦ (
          key_error-none e.session_key r.cip_session_key k,
          receipt-none r r.cip_receipt refl (rw (k, discards) at h),
        )
        | inr (why, k) ↦ absurd (ground arith)
      ]

-- without an envelope the response itself; else with an aggregation for this node, and nothing else
-- that is new
abbrev pub Aggregated : {A : Type 0} → Option Envelope → Node → Response A → Response A → Type 0
Aggregated none node raw response = response ≡ raw
Aggregated (some e) node raw response =
    (response.cip_session_key ≡ raw.cip_session_key)
    × (response.cip_receipt ≡ raw.cip_receipt)
    × (response.result ≡ raw.result)
    × (response.body ≡ raw.body)
    × ((g : CipAggregationResult) × (response.cip_aggregation ≡ some g)
        × (g.policy ≡ e.policy)
        × (g.replicas_dispatched ≡ e.replicas)
        × (g.replicas_responded ≡ 1)
        × (g.selected_worker_id ≡ some node.node_id))

pub finished-Aggregated :
    {A : Type 0} (envelope : Option Envelope) (node : Node) (raw response : Response A)
    → finished envelope node raw ≡ response
    → Aggregated envelope node raw response
unfolding finished build_cip_aggregation
finished-Aggregated none node raw response h = sym h
finished-Aggregated (some e) node raw response h = rw (← h) (
  refl,
  refl,
  refl,
  refl,
  (build_cip_aggregation e 1 (some node.node_id), refl, refl, refl, refl, refl),
)
