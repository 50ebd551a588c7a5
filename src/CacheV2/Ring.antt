-- ===== src/CacheV2/Ring.antt =====
-- sonnet-cache-v2/consistent_hash/consistent_hash.go: the ring that counts its requests and moves its
-- virtual nodes. The hash function and the float arithmetic of the balancer are parameters: `rates`
-- says whether the load is too uneven, and `resize` what the counts make of a node's replicas. `none`
-- is a method that waits for ever for the lock, which is not reentrant.
pub mod Blocking
pub mod Removal
pub mod Runs
use sonnet_pro.Prelude.Maps.{lookup, insert, delete}
use sonnet_pro.Prelude.{
  ℕ, zero, suc, ◌+◌, List, [], ◌∷◌, ◌++◌, map, Bool, true, false, Option, none, some, Text,
  text_dec, itoa, length, get_or, ltb, ◌==◌, if◌then◌else◌, ℕ_discrete,
}
use sonnet_pro.Cache.Ring.{sort_ints, find_index}

-- `Config`, without its hash function and its threshold.
pub record Config : Type 0 where
  pub default_replicas : ℕ
  pub min_replicas : ℕ
  pub max_replicas : ℕ

-- `Map`, with the state of its lock.
pub record Ring : Type 0 where
  pub locked : Bool
  pub config : Config
  pub keys : List ℕ
  pub hash_map : List (ℕ × Text)
  pub node_replicas : List (Text × ℕ)
  pub node_counts : List (Text × ℕ)
  pub total_requests : ℕ

pub data Error : Type 0 where
  no_nodes invalid_node node_not_found : Error

-- `New`.
unfoldable pub new_ring : Config → Ring
new_ring config = record {
  locked = false;
  config = config;
  keys = [];
  hash_map = [];
  node_replicas = [];
  node_counts = [];
  total_requests = 0;
}

-- `m[key]` of a Go map of integers: 0 where the key is not there.
unfoldable pub count_of : Text → List (Text × ℕ) → ℕ
count_of node m = elim (lookup text_dec node m) [ none ↦ 0 | some n ↦ n ]

-- The first copy of a key, cut out of the keys.
unfoldable pub cut : ℕ → List ℕ → List ℕ
cut h [] = []
cut h (k ∷ ks) = let rest = cut h ks in if k == h then ks else k ∷ rest

-- `m.mu.Lock()`, the body, and the unlocking.
unfoldable pub with_lock : {A : Type 0} → (Ring → Option (Ring × A)) → Ring → Option (Ring × A)
with_lock {A} body m =
    let outcome : Option (Ring × A) = elim (body (record m { locked = true })) [
      | none ↦ none
      | some (m', a) ↦ some (record m' { locked = false }, a)
    ] in
    if m.locked then none else outcome

-- The replicas of a node within the limits of the configuration.
unfoldable pub new_replicas : (ℕ → ℕ → ℕ → ℕ → ℕ) → ℕ → ℕ → Ring → ℕ
new_replicas resize count current m =
    let n = resize count current m.total_requests (length m.node_replicas) in
    let low = if ltb n m.config.min_replicas then m.config.min_replicas else n in
    if ltb m.config.max_replicas low then m.config.max_replicas else low

module _ (hash : Text → ℕ) where
  -- `fmt.Sprintf("%s-%d", node, i)`, hashed.
  unfoldable pub point : Text → ℕ → ℕ
  point node i = hash (node ++ 45 ∷ itoa i)

  -- The loop of `addNode` from `i` on, with `left` rounds to go.
  unfoldable pub add_points : ℕ → ℕ → Text → Ring → Ring
  unfolding point
  add_points zero i node m = m
  add_points (suc left) i node m = add_points left (suc i) node (record m {
    keys = m.keys ++ point node i ∷ [];
    hash_map = insert ℕ_discrete (point node i) node m.hash_map;
  })

  -- `addNode`.
  unfoldable pub add_node : Text → ℕ → Ring → Ring
  unfolding add_points
  add_node node replicas m =
      let m' = add_points replicas 0 node m in
      record m' { node_replicas = insert text_dec node replicas m'.node_replicas }

  -- The loop of `Add`.
  unfoldable pub add_nodes : List Text → Ring → Ring
  unfolding add_node
  add_nodes [] m = m
  add_nodes ([] ∷ nodes) m = add_nodes nodes m
  add_nodes ((c ∷ node) ∷ nodes) m =
      add_nodes nodes (add_node (c ∷ node) m.config.default_replicas m)

  -- `Add`, and its error.
  unfoldable pub add : List Text → Ring → Option (Ring × Option Error)
  unfolding add_nodes with_lock
  add [] m = some (m, some no_nodes)
  add (node ∷ nodes) m =
      with_lock
        (λ m.
          let m' = add_nodes (node ∷ nodes) m in
          some (record m' { keys = sort_ints m'.keys }, none))
        m

  -- The loop of `Remove`.
  unfoldable pub remove_points : ℕ → ℕ → Text → Ring → Ring
  unfolding point cut
  remove_points zero i node m = m
  remove_points (suc left) i node m = remove_points left (suc i) node (record m {
    keys = cut (point node i) m.keys;
    hash_map = delete ℕ_discrete (point node i) m.hash_map;
  })

  -- `Remove` under the lock.
  unfoldable pub remove_locked : Text → Ring → Ring × Option Error
  unfolding remove_points count_of
  remove_locked node m =
      let replicas = count_of node m.node_replicas in
      let m' = remove_points replicas 0 node m in
      let removed = record m' {
        node_replicas = delete text_dec node m'.node_replicas;
        node_counts = delete text_dec node m'.node_counts;
      } in
      if replicas == 0 then (m, some node_not_found) else (removed, none)

  -- `Remove`, and its error.
  unfoldable pub remove : Text → Ring → Option (Ring × Option Error)
  unfolding remove_locked with_lock
  remove [] m = some (m, some invalid_node)
  remove (c ∷ node) m = with_lock (λ m. some (remove_locked (c ∷ node) m)) m

  -- `Get` under the lock, of a ring with keys: the node of the first point from the hash on, whose
  -- request is counted.
  unfoldable pub get_locked : Text → Ring → Ring × Text
  unfolding count_of find_index
  get_locked key m =
      let idx = find_index m.keys (hash key) in
      let at = if idx == length m.keys then 0 else idx in
      let node : Text = elim (lookup ℕ_discrete (get_or m.keys at 0) m.hash_map) [
        | none ↦ []
        | some n ↦ n
      ] in
      (
        record m {
          node_counts = insert text_dec node (count_of node m.node_counts + 1) m.node_counts;
          total_requests = m.total_requests + 1;
        },
        node,
      )

  -- `Get`.
  unfoldable pub get : Text → Ring → Option (Ring × Text)
  unfolding get_locked with_lock
  get [] m = some (m, [])
  get (c ∷ key) m =
      with_lock (λ m. elim m.keys [ [] ↦ some (m, []) | k ∷ ks ↦ some (get_locked (c ∷ key) m) ]) m

  module _ (resize : ℕ → ℕ → ℕ → ℕ → ℕ) where
    -- A round of the loop of `rebalanceNodes`, which calls `Remove` with the lock held.
    unfoldable pub rebalance_node : Text → ℕ → Ring → Option Ring
    unfolding new_replicas remove add_node count_of
    rebalance_node node count m =
        let current = count_of node m.node_replicas in
        let wanted = new_replicas resize count current m in
        let moved : Option Ring = elim (remove node m) [
          | none ↦ none
          | some (m', some e) ↦ some m'
          | some (m', none) ↦ some (add_node node wanted m')
        ] in
        if wanted == current then some m else moved

    unfoldable pub rebalance_each : List (Text × ℕ) → Ring → Option Ring
    unfolding rebalance_node
    rebalance_each [] m = some m
    rebalance_each ((node, count) ∷ rest) m = elim (rebalance_node node count m) [
      | none ↦ none
      | some m' ↦ rebalance_each rest m'
    ]

    -- `rebalanceNodes`.
    unfoldable pub rebalance_nodes : Ring → Option Ring
    unfolding rebalance_each
    rebalance_nodes m =
        let outcome : Option Ring =
          elim (rebalance_each m.node_counts (record m { locked = true })) [
            | none ↦ none
            | some m' ↦ some (record m' {
              locked = false;
              node_counts = map (λ e. (e.0, 0)) m'.node_counts;
              total_requests = 0;
              keys = sort_ints m'.keys;
            })
          ] in
        if m.locked then none else outcome

    -- `checkAndRebalance`, one tick of the balancer.
    unfoldable pub check_and_rebalance : (List (Text × ℕ) → ℕ → ℕ → Bool) → Ring → Option Ring
    unfolding rebalance_nodes
    check_and_rebalance rates m =
        let outcome = rebalance_nodes m in
        if ltb m.total_requests 1000
        then some m
        else if rates m.node_counts m.total_requests (length m.node_replicas)
        then outcome
        else some m
