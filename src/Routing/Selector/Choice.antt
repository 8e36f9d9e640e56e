-- ===== src/Routing/Selector/Choice.antt =====
-- `NodeSelector.select`: what it returns of the directory's list.
use iicp_client_python.Prelude.{
  ℕ, ◌≤◌, ◌<◌, ◌≡◌, refl, Bool, true, false, String, Option, none, some, List, [], ◌∷◌, leb, ltb,
  select as filter, arith, Bool-cases, All, sym, ◌⊎◌, inl, inr,
}
use mathlib.Core.Path.{subst}
use iicp_client_python.Routing.Selector.{
  Node, Selector, get_or, is_empty, model_matches, is_usable, rank, multiplier, estimated,
  filter_min, filter_max, cheapest, cheapest_of, in_budget, within_credits, select_nodes,
}

-- one list is what is left of the other when some elements are taken out
pub data Sublist : List Node → List Node → Type 0 where
  nothing : Sublist [] []
  skips : (n : Node) (xs ys : List Node) → Sublist xs ys → Sublist xs (n ∷ ys)
  keeps : (n : Node) (xs ys : List Node) → Sublist xs ys → Sublist (n ∷ xs) (n ∷ ys)

Sublist-refl : (xs : List Node) → Sublist xs xs
Sublist-refl [] = nothing
Sublist-refl (x ∷ xs) = keeps x xs xs (Sublist-refl xs)

Sublist-trans : (xs ys zs : List Node) → Sublist xs ys → Sublist ys zs → Sublist xs zs
Sublist-trans xs ys zs s nothing = s
Sublist-trans xs ys zs s (skips n _ below t) = skips n xs below (Sublist-trans xs ys below s t)
Sublist-trans xs ys zs (skips _ _ middle s) (keeps n _ below t) =
    skips n xs below (Sublist-trans xs middle below s t)
Sublist-trans xs ys zs (keeps _ above middle s) (keeps n _ below t) =
    keeps n above below (Sublist-trans above middle below s t)

filter-Sublist : (p : Node → Bool) (xs : List Node) → Sublist (filter p xs) xs
filter-Sublist p [] = nothing
filter-Sublist p (x ∷ xs) = elim (Bool-cases (p x)) [
  | inl e ↦ rw e (keeps x (filter p xs) xs (filter-Sublist p xs))
  | inr e ↦ rw e (skips x (filter p xs) xs (filter-Sublist p xs))
]

Sublist-nil : (xs : List Node) → Sublist [] xs
Sublist-nil [] = nothing
Sublist-nil (x ∷ xs) = skips x [] xs (Sublist-nil xs)

rank-Sublist :
    (selector : Selector) (nodes : List Node) (requested : List String)
    → Sublist (rank selector nodes requested) nodes
unfolding rank
rank-Sublist selector nodes requested =
    let available = filter (is_usable selector) nodes in
    let first = filter-Sublist (is_usable selector) nodes in
    let second = filter-Sublist (λ node. model_matches node requested) available in
    let matching = filter (λ node. model_matches node requested) available in
    elim (Bool-cases (is_empty requested)) [
      | inl e ↦ rw (e, rank) first
      | inr e ↦ elim (Bool-cases (is_empty matching)) [
        | inl m ↦ rw (e, m, rank) first
        | inr m ↦ rw (e, m, rank) (Sublist-trans matching available nodes second first)
      ]
    ]

filter_min-Sublist : (low : Option ℕ) (nodes : List Node) → Sublist (filter_min low nodes) nodes
filter_min-Sublist none nodes = Sublist-refl nodes
filter_min-Sublist (some low) nodes = filter-Sublist (λ node. leb low (get_or 0 node.score)) nodes

filter_max-Sublist : (high : Option ℕ) (nodes : List Node) → Sublist (filter_max high nodes) nodes
filter_max-Sublist none nodes = Sublist-refl nodes
filter_max-Sublist (some high) nodes = filter-Sublist (λ node. leb (multiplier node) high) nodes

-- one more element before the last that were looked at
Sublist-insert :
    (c node other : Node) (nodes : List Node)
    → Sublist (c ∷ []) (node ∷ nodes)
    → Sublist (c ∷ []) (node ∷ other ∷ nodes)
Sublist-insert c node other nodes (skips _ _ _ s) =
    skips node (c ∷ []) (other ∷ nodes) (skips other (c ∷ []) nodes s)
Sublist-insert c node other nodes (keeps _ _ _ s) =
    keeps node [] (other ∷ nodes) (Sublist-nil (other ∷ nodes))

cheapest-Sublist :
    (node : Node) (nodes : List Node) → Sublist (cheapest node nodes ∷ []) (node ∷ nodes)
unfolding cheapest
cheapest-Sublist node [] = Sublist-refl (node ∷ [])
cheapest-Sublist node (other ∷ nodes) =
    elim (Bool-cases (ltb (multiplier other) (multiplier node))) [
      | inl e ↦
          rw e
            (skips node (cheapest other nodes ∷ []) (other ∷ nodes) (cheapest-Sublist other nodes))
      | inr e ↦
          rw e (Sublist-insert (cheapest node nodes) node other nodes (cheapest-Sublist node nodes))
    ]

cheapest_of-Sublist : (nodes : List Node) → Sublist (cheapest_of nodes) nodes
cheapest_of-Sublist [] = nothing
cheapest_of-Sublist (node ∷ nodes) = cheapest-Sublist node nodes

within_credits-Sublist :
    (credits : Option ℕ) (tokens : ℕ) (nodes : List Node)
    → Sublist (within_credits credits tokens nodes) nodes
unfolding within_credits
within_credits-Sublist none tokens nodes = Sublist-refl nodes
within_credits-Sublist (some credits) tokens nodes =
    elim (Bool-cases (is_empty (in_budget tokens credits nodes))) [
      | inl e ↦ rw e (cheapest_of-Sublist nodes)
      | inr e ↦ rw e (filter-Sublist (λ node. leb (estimated tokens node) credits) nodes)
    ]

Sublist-All : (P : Node → Type 0) (xs ys : List Node) → Sublist xs ys → All P ys → All P xs
Sublist-All P xs ys nothing h = h
Sublist-All P xs ys (skips n _ below s) h = Sublist-All P xs below s h.1
Sublist-All P xs ys (keeps n above below s) h = (h.0, Sublist-All P above below s h.1)

filter-All : (p : Node → Bool) (xs : List Node) → All (λ node. p node ≡ true) (filter p xs)
filter-All p [] = tt
filter-All p (x ∷ xs) = elim (Bool-cases (p x)) [
  | inl e ↦
      let both : All (λ node. p node ≡ true) (x ∷ filter p xs) = (e, filter-All p xs) in rw e both
  | inr e ↦ rw e (filter-All p xs)
]

abbrev pub Usable : Selector → Node → Type 0
Usable selector node =
    (node.available ≡ true)
    × (get_or 0 node.load < selector.max_load)
    × (selector.min_reputation ≤ get_or 1000 node.reputation_score)

is_usable-Usable :
    (selector : Selector) (node : Node) → is_usable selector node ≡ true → Usable selector node
unfolding is_usable
is_usable-Usable selector node h = (ground arith, ground arith, ground arith)

All-map : (P Q : Node → Type 0) (xs : List Node) → ((n : Node) → P n → Q n) → All P xs → All Q xs
All-map P Q [] f h = tt
All-map P Q (x ∷ xs) f h = (f x h.0, All-map P Q xs f h.1)

rank-Usable :
    (selector : Selector) (nodes : List Node) (requested : List String)
    → All (Usable selector) (rank selector nodes requested)
unfolding rank
rank-Usable selector nodes requested =
    let available = filter (is_usable selector) nodes in
    let matching = filter (λ node. model_matches node requested) available in
    let good : All (Usable selector) available =
      All-map (λ node. is_usable selector node ≡ true) (Usable selector) available
        (is_usable-Usable selector) (filter-All (is_usable selector) nodes) in
    let part =
      Sublist-All (Usable selector) matching available
        (filter-Sublist (λ node. model_matches node requested) available) good in
    elim (Bool-cases (is_empty requested)) [
      | inl e ↦ rw (e, rank) good
      | inr e ↦ elim (Bool-cases (is_empty matching)) [
        | inl m ↦ rw (e, m, rank) good
        | inr m ↦ rw (e, m, rank) part
      ]
    ]

-- Whatever the limits, what is selected is left of the directory's list, in its order, and each node
-- of it is available, below the load that is the ceiling, and of at least the least reputation.
pub select_nodes_sound :
    (selector : Selector) (nodes : List Node) (requested : List String)
    (max_multiplier min_quality max_credits : Option ℕ) (expected_tokens : ℕ)
    → Sublist
        (select_nodes selector nodes requested max_multiplier min_quality max_credits
          expected_tokens)
        nodes
      × All (Usable selector) (
          select_nodes selector nodes requested max_multiplier min_quality max_credits
            expected_tokens)
unfolding select_nodes
select_nodes_sound selector nodes requested max_multiplier min_quality max_credits expected_tokens =
    let ranked = rank selector nodes requested in
    let good = filter_min min_quality ranked in
    let cheap = filter_max max_multiplier good in
    let result = within_credits max_credits expected_tokens cheap in
    let of_ranked =
      Sublist-trans result cheap ranked (within_credits-Sublist max_credits expected_tokens cheap) (
        Sublist-trans cheap good ranked (filter_max-Sublist max_multiplier good)
          (filter_min-Sublist min_quality ranked)) in
    (
      Sublist-trans result ranked nodes of_ranked (rank-Sublist selector nodes requested),
      Sublist-All (Usable selector) result ranked of_ranked (rank-Usable selector nodes requested),
    )

cheapest-nil : (node : Node) → cheapest node [] ≡ node
unfolding cheapest
cheapest-nil node = refl

cheapest-lower :
    (node other : Node) (nodes : List Node)
    → ltb (multiplier other) (multiplier node) ≡ true
    → cheapest node (other ∷ nodes) ≡ cheapest other nodes
unfolding cheapest
cheapest-lower node other nodes e = rw e refl

cheapest-same :
    (node other : Node) (nodes : List Node)
    → ltb (multiplier other) (multiplier node) ≡ false
    → cheapest node (other ∷ nodes) ≡ cheapest node nodes
unfolding cheapest
cheapest-same node other nodes e = rw e refl

cheapest-least :
    (node : Node) (nodes : List Node)
    → All (λ n. multiplier (cheapest node nodes) ≤ multiplier n) (node ∷ nodes)
cheapest-least node [] = rw (cheapest-nil node) (omega arith, tt)
cheapest-least node (other ∷ nodes) = elim (Bool-cases (ltb (multiplier other) (multiplier node))) [
  | inl e ↦
      let least = cheapest-least other nodes in
      let first : multiplier (cheapest other nodes) ≤ multiplier node = ground arith in
      subst (λ c. All (λ n. multiplier c ≤ multiplier n) (node ∷ other ∷ nodes))
        (sym (cheapest-lower node other nodes e)) (first, (least.0, least.1))
  | inr e ↦
      let least = cheapest-least node nodes in
      let second : multiplier (cheapest node nodes) ≤ multiplier other = ground arith in
      subst (λ c. All (λ n. multiplier c ≤ multiplier n) (node ∷ other ∷ nodes))
        (sym (cheapest-same node other nodes e)) (least.0, (second, least.1))
]

-- The limit on credits never empties the list: of nodes of which at least one is left before it, at
-- least one is left after it, and each that is left is within the limit, or it is the only one and
-- none of the nodes has a smaller multiplier.
pub within_credits-nonempty :
    (max_credits expected_tokens : ℕ) (node : Node) (nodes : List Node)
    → (is_empty (within_credits (some max_credits) expected_tokens (node ∷ nodes)) ≡ false)
      × (All
            (λ n. estimated expected_tokens n ≤ max_credits)
            (within_credits (some max_credits) expected_tokens (node ∷ nodes))
          ⊎ ((least : Node) × (within_credits (some max_credits) expected_tokens (node ∷ nodes)
                ≡ least ∷ [])
              × All (λ n. multiplier least ≤ multiplier n) (node ∷ nodes)))
unfolding within_credits
within_credits-nonempty max_credits expected_tokens node nodes =
    let fits = λ (n : Node). leb (estimated expected_tokens n) max_credits in
    let all : All (λ n. estimated expected_tokens n ≤ max_credits) (filter fits (node ∷ nodes)) =
      All-map (λ n. fits n ≡ true) (λ n. estimated expected_tokens n ≤ max_credits)
        (filter fits (node ∷ nodes)) (λ n e. ground arith) (filter-All fits (node ∷ nodes)) in
    elim (Bool-cases (is_empty (in_budget expected_tokens max_credits (node ∷ nodes)))) [
      | inl e ↦ rw e (refl, inr (cheapest node nodes, refl, cheapest-least node nodes))
      | inr e ↦ rw e (e, inl all)
    ]
