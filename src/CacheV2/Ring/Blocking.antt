-- ===== src/CacheV2/Ring/Blocking.antt =====
-- sonnet-cache-v2/consistent_hash/consistent_hash.go: the balancer holds the lock that `Remove` takes.
use sonnet_pro.Prelude.{
  ℕ, ◌≡◌, ◌≢◌, ◌≤◌, refl, arith, List, [], ◌∷◌, Bool, true, false, inl, inr, ℕ_discrete, none, some,
  Text, length, ◌⊎◌,
}
use sonnet_pro.CacheV2.Ring.{
  Ring, count_of, with_lock, remove, new_replicas, rebalance_node, rebalance_each, rebalance_nodes,
  check_and_rebalance,
}

-- Some counted node is to get another number of replicas.
abbrev pub IsUneven : (ℕ → ℕ → ℕ → ℕ → ℕ) → Ring → List (Text × ℕ) → Type 0
IsUneven resize m [] = ⊥
IsUneven resize m (([], count) ∷ rest) = IsUneven resize m rest
IsUneven resize m ((c ∷ node, count) ∷ rest) =
    (new_replicas resize count (count_of (c ∷ node) m.node_replicas) m
      ≢ count_of (c ∷ node) m.node_replicas)
    ⊎ IsUneven resize m rest

module _ (hash : Text → ℕ) (resize : ℕ → ℕ → ℕ → ℕ → ℕ) where
  nameless : (count : ℕ) (m : Ring) → rebalance_node hash resize [] count m ≡ some m
  unfolding rebalance_node remove
  nameless count m = ground arith

  settled :
      (node : Text) (count : ℕ) (m : Ring)
      → new_replicas resize count (count_of node m.node_replicas) m ≡ count_of node m.node_replicas
      → rebalance_node hash resize node count m ≡ some m
  unfolding rebalance_node
  settled node count m e = ground (arith, e)

  waits :
      (c : ℕ) (node : Text) (count : ℕ) (m : Ring)
      → m.locked ≡ true
      → new_replicas resize count (count_of (c ∷ node) m.node_replicas) m
        ≢ count_of (c ∷ node) m.node_replicas
      → rebalance_node hash resize (c ∷ node) count m ≡ none
  unfolding rebalance_node remove with_lock
  waits c node count m held uneven = ground (arith, held, uneven)

  each_waits :
      (counts : List (Text × ℕ)) (m : Ring)
      → m.locked ≡ true
      → IsUneven resize m counts
      → rebalance_each hash resize counts m ≡ none
  unfolding rebalance_each
  each_waits [] m held uneven = absurd uneven
  each_waits (([], count) ∷ rest) m held uneven =
      ground (arith, nameless count m, each_waits rest m held uneven)
  each_waits ((c ∷ node, count) ∷ rest) m held (inl uneven) =
      ground (arith, waits c node count m held uneven)
  each_waits ((c ∷ node, count) ∷ rest) m held (inr later) =
      elim (ℕ_discrete (new_replicas resize count (count_of (c ∷ node) m.node_replicas) m)
        (count_of (c ∷ node) m.node_replicas)) [
          | yes e ↦ ground (arith, settled (c ∷ node) count m e, each_waits rest m held later)
          | no uneven ↦ ground (arith, waits c node count m held uneven)
        ]

  round_cases :
      (node : Text) (count : ℕ) (m : Ring)
      → m.locked ≡ true
      → (rebalance_node hash resize node count m ≡ none)
        ⊎ (rebalance_node hash resize node count m ≡ some m)
  round_cases [] count m held = inr (nameless count m)
  round_cases (c ∷ node) count m held =
      elim (ℕ_discrete (new_replicas resize count (count_of (c ∷ node) m.node_replicas) m)
        (count_of (c ∷ node) m.node_replicas)) [
          | yes e ↦ inr (settled (c ∷ node) count m e)
          | no uneven ↦ inl (waits c node count m held uneven)
        ]

  -- With the lock held the loop of the balancer waits, or changes nothing.
  pub each_cases :
      (counts : List (Text × ℕ)) (m : Ring)
      → m.locked ≡ true
      → (rebalance_each hash resize counts m ≡ none)
        ⊎ (rebalance_each hash resize counts m ≡ some m)
  unfolding rebalance_each
  each_cases [] m held = inr refl
  each_cases ((node, count) ∷ rest) m held = elim (round_cases node count m held) [
    | inl stuck ↦ inl (ground (arith, stuck))
    | inr same ↦ elim (each_cases rest m held) [
      | inl stuck ↦ inl (ground (arith, same, stuck))
      | inr kept ↦ inr (ground (arith, same, kept))
    ]
  ]

  -- When a tick of the balancer finds a free ring with a thousand requests and a load that is too
  -- uneven, and the new number of replicas of some counted node is not the one it has, the tick never
  -- ends: it waits for the lock that it holds.
  pub check_and_rebalance-blocks :
      (rates : List (Text × ℕ) → ℕ → ℕ → Bool) (m : Ring)
      → m.locked ≡ false
      → 1000 ≤ m.total_requests
      → rates m.node_counts m.total_requests (length m.node_replicas) ≡ true
      → IsUneven resize (record m { locked = true }) m.node_counts
      → check_and_rebalance hash resize rates m ≡ none
  unfolding check_and_rebalance rebalance_nodes
  check_and_rebalance-blocks rates m free many high uneven =
      let stuck = each_waits m.node_counts (record m { locked = true }) refl uneven in
      ground (arith, free, many, high, stuck)
