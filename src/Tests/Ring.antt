-- ===== src/Tests/Ring.antt =====
-- The ring of sonnet-cache-v2 on small inputs; the hash of a text is a number of its bytes.
use sonnet_pro.Prelude.Maps.{lookup, insert, delete}
use sonnet_pro.Prelude.{
  ℕ, ◌≡◌, ◌≢◌, ◌*◌, ◌+◌, ◌%◌, refl, arith, List, [], ◌∷◌, Option, none, some, Text, codes, text_dec,
  true, inl, ◌⊎◌, Bool, itoa,
}
use sonnet_pro.Cache.Ring.{sort_ints, insert_sorted, find_index, sort_search}
use sonnet_pro.CacheV2.Ring.{
  Ring, Config, Error, new_ring, point, count_of, cut, with_lock, add_points, add_node, add_nodes,
  add, remove_points, remove_locked, remove, get_locked, get, new_replicas, check_and_rebalance,
}
use sonnet_pro.CacheV2.Ring.Runs
use sonnet_pro.CacheV2.Ring.Blocking.{check_and_rebalance-blocks}

abbrev sum : Text → ℕ
sum [] = 0
sum (c ∷ s) = (c + 7 * sum s) % 1000

abbrev config : Config
config = record { default_replicas = 2; min_replicas = 1; max_replicas = 4 }

abbrev calls : List Runs.Call
calls = Runs.adds (codes "a" ∷ codes "b" ∷ []) ∷ Runs.gets (codes "k") ∷ Runs.ticks ∷ []

abbrev rates : List (Text × ℕ) → ℕ → ℕ → Bool
rates counts total nodes = true

abbrev resize : ℕ → ℕ → ℕ → ℕ → ℕ
resize count current total nodes = 1

run-remove_get_example :
    ((Runs.run sum rates resize calls (new_ring config) ≡ none) × Runs.HasTick calls)
    ⊎ ((m m' m'' : Ring) × (e : Option Error) × (answer : Text) × (Runs.run sum rates resize calls
            (new_ring config)
          ≡ some m)
        × (remove sum (codes "a") m ≡ some (m', e))
        × (get sum (codes "k") m' ≡ some (m'', answer))
        × (answer ≢ codes "a"))
run-remove_get_example = Runs.run-remove_get sum rates resize config calls 97 [] (codes "k")

-- A node that is added twice has two copies of each point; `Remove` cuts one, and the other leads to no
-- node.
abbrev answer_of : Option Ring → Option Text
answer_of none = none
answer_of (some m) = elim (get sum (codes "k") m) [ none ↦ none | some (m', node) ↦ some node ]

twice_test :
    answer_of (
      Runs.run sum rates resize
        (Runs.adds (codes "a" ∷ codes "b" ∷ codes "a" ∷ []) ∷ Runs.removes (codes "a") ∷ [])
        (new_ring config))
    ≡ some []
unfolding Runs.run Runs.step add remove get get_locked with_lock new_ring add_nodes add_node
    add_points point remove_locked remove_points cut count_of sort_ints insert_sorted find_index
    sort_search lookup insert delete text_dec itoa
twice_test = refl

-- A ring with a node of 2 replicas and 1000 requests, which the balancer would give one.
abbrev busy : Ring
busy = record (new_ring config) {
  node_replicas = (codes "a", 2) ∷ [];
  node_counts = (codes "a", 1000) ∷ [];
  total_requests = 1000;
}

check_and_rebalance-blocks_example : check_and_rebalance sum resize rates busy ≡ none
unfolding new_ring new_replicas count_of lookup text_dec
check_and_rebalance-blocks_example =
    check_and_rebalance-blocks sum resize rates busy refl (omega arith) refl (inl (omega arith))
