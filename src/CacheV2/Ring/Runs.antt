-- ===== src/CacheV2/Ring/Runs.antt =====
-- sonnet-cache-v2/consistent_hash/consistent_hash.go: sequences of calls on a ring.
use sonnet_pro.Prelude.Maps.{lookup, delete, lookup-delete}
use sonnet_pro.Prelude.{
  ℕ, zero, suc, ◌≡◌, ◌≢◌, ◌≤◌, ◌<◌, refl, sym, ◌∙◌, ap, subst, arith, List, [], ◌∷◌, true, false,
  Bool-cases, inl, inr, Option, none, some, Text, text_dec, ite, ltb, map, length, Bool, ◌⊎◌, ◌==◌,
  ℕ_discrete,
}
use sonnet_pro.Cache.Ring.{sort_ints}
use sonnet_pro.CacheV2.Ring.{
  Ring, Config, Error, new_ring, point, count_of, with_lock, add_node, add_nodes, add,
  remove_points, remove_locked, remove, get_locked, get, rebalance_nodes, check_and_rebalance,
}
use sonnet_pro.CacheV2.Ring.Blocking.{each_cases}
use sonnet_pro.CacheV2.Ring.Removal.{
  IsValid, new_ring-IsValid, add_node-IsValid, remove_points_map, get-remove, list_cases,
}

pub data Call : Type 0 where
  adds : (nodes : List Text) → Call
  removes gets : (key : Text) → Call
  ticks : Call

-- Some call is a tick of the balancer.
abbrev pub HasTick : List Call → Type 0
HasTick [] = ⊥
HasTick (adds nodes ∷ xs) = HasTick xs
HasTick (removes node ∷ xs) = HasTick xs
HasTick (gets key ∷ xs) = HasTick xs
HasTick (ticks ∷ xs) = Unit

module _ (hash : Text → ℕ) (rates : List (Text × ℕ) → ℕ → ℕ → Bool)
    (resize : ℕ → ℕ → ℕ → ℕ → ℕ) where
  -- What a call leaves.
  unfoldable pub step : Call → Ring → Option Ring
  unfolding add remove get check_and_rebalance
  step (adds nodes) m = elim (add hash nodes m) [ none ↦ none | some (m', e) ↦ some m' ]
  step (removes node) m = elim (remove hash node m) [ none ↦ none | some (m', e) ↦ some m' ]
  step (gets key) m = elim (get hash key m) [ none ↦ none | some (m', node) ↦ some m' ]
  step ticks m = check_and_rebalance hash resize rates m

  unfoldable pub run : List Call → Ring → Option Ring
  unfolding step
  run [] m = some m
  run (x ∷ xs) m = elim (step x m) [ none ↦ none | some m' ↦ run xs m' ]

  abbrev IsFree : Ring → Type 0
  IsFree m = (m.locked ≡ false) × IsValid hash m

  -- Validity is of the map, the replicas and the configuration.
  same-IsValid :
      (m m' : Ring)
      → IsValid hash m
      → m'.hash_map ≡ m.hash_map
      → m'.node_replicas ≡ m.node_replicas
      → m'.config ≡ m.config
      → IsValid hash m'
  same-IsValid m m' v maps counts config = record {
    owned = λ h n e.
        let (i, lt, at) = v.owned h n (ap (lookup ℕ_discrete h) (sym maps) ∙ e) in
        (i, subst (λ c. i < count_of n c) (sym counts) lt, at);
    replicas = λ n.
        subst (λ c. count_of n m'.node_replicas ≤ c.default_replicas) (sym config)
          (subst (λ c. count_of n c ≤ m.config.default_replicas) (sym counts) (v.replicas n));
  }

  add_nodes-IsValid :
      (nodes : List Text) (m : Ring) → IsValid hash m → IsValid hash (add_nodes hash nodes m)
  unfolding add_nodes
  add_nodes-IsValid [] m v = v
  add_nodes-IsValid ([] ∷ nodes) m v = add_nodes-IsValid nodes m v
  add_nodes-IsValid ((c ∷ node) ∷ nodes) m v =
      add_nodes-IsValid nodes (add_node hash (c ∷ node) m.config.default_replicas m)
        (add_node-IsValid hash (c ∷ node) m v)

  remove_points_kept :
      (left i : ℕ) (node : Text) (m : Ring)
      → ((remove_points hash left i node m).node_replicas ≡ m.node_replicas)
        × ((remove_points hash left i node m).config ≡ m.config)
  unfolding remove_points
  remove_points_kept zero i node m = (refl, refl)
  remove_points_kept (suc left) i node m = remove_points_kept left (suc i) node _

  removed-IsValid :
      (node : Text) (m : Ring)
      → IsValid hash m
      → let m' = remove_points hash (count_of node m.node_replicas) 0 node m in
        IsValid hash (record m' {
          node_replicas = delete text_dec node m'.node_replicas;
          node_counts = delete text_dec node m'.node_counts;
        })
  unfolding count_of
  removed-IsValid node m v =
      let size = count_of node m.node_replicas in
      let m' = remove_points hash size 0 node m in
      let (same, config) = remove_points_kept size 0 node m in
      let counted : (n : Text)
          → count_of n (delete text_dec node m'.node_replicas)
            ≡ ite (text_dec node n) 0 (count_of n m.node_replicas) =
        λ n. ground (arith, lookup-delete text_dec node n m'.node_replicas, same) in
      record {
        owned = λ h n e.
            let (before, apart) = remove_points_map hash size 0 node m h n e in
            let (i, lt, at) = v.owned h n before in
            elim (text_dec node n) [
              | yes q ↦
                  let below : i < size = subst (λ z. i < count_of z m.node_replicas) (sym q) lt in
                  absurd (
                    apart i (omega arith) (omega (arith, below))
                      (at ∙ ap (λ z. point hash z i) (sym q)))
              | no q ↦ (i, ground (arith, counted n, lt, q), at)
            ];
        replicas = λ n. let le = v.replicas n in ground (arith, counted n, le, config);
      }

  remove_locked-IsValid :
      (node : Text) (m : Ring) → IsValid hash m → IsValid hash (remove_locked hash node m).0
  unfolding remove_locked
  remove_locked-IsValid node m v = elim (Bool-cases (count_of node m.node_replicas == 0)) [
    | inl z ↦ rw z v
    | inr z ↦ rw z (removed-IsValid node m v)
  ]

  rebalanced :
      (m : Ring)
      → IsFree m
      → (rebalance_nodes hash resize m ≡ none)
        ⊎ ((m' : Ring) × (rebalance_nodes hash resize m ≡ some m') × IsFree m')
  unfolding rebalance_nodes
  rebalanced m (free, v) =
      let held = record m { locked = true } in
      elim (each_cases hash resize m.node_counts held refl) [
        | inl stuck ↦ inl (ground (arith, free, stuck))
        | inr kept ↦
            let done = record held {
              locked = false;
              node_counts = map (λ e. (e.0, 0)) m.node_counts;
              total_requests = 0;
              keys = sort_ints m.keys;
            } in
            inr (done, ground (arith, free, kept), (refl, same-IsValid m done v refl refl refl))
      ]

  -- A tick of the balancer never ends, or leaves a free and valid ring.
  tick_cases :
      (m : Ring)
      → IsFree m
      → (step ticks m ≡ none) ⊎ ((m' : Ring) × (step ticks m ≡ some m') × IsFree m')
  unfolding step check_and_rebalance
  tick_cases m free = elim (Bool-cases (ltb m.total_requests 1000)) [
    | inl few ↦ inr (m, ground (arith, few), free)
    | inr many ↦ elim (Bool-cases (rates m.node_counts m.total_requests (length m.node_replicas))) [
      | inr even ↦ inr (m, ground (arith, many, even), free)
      | inl uneven ↦ elim (rebalanced m free) [
        | inl stuck ↦ inl (ground (arith, many, uneven, stuck))
        | inr some_ ↦ let (m', e, free') = some_ in inr (m', ground (arith, many, uneven, e), free')
      ]
    ]
  ]

  abbrev IsTick : Call → Type 0
  IsTick x = HasTick (x ∷ [])

  step-IsValid :
      (x : Call) (m : Ring) → ¬ IsTick x → IsFree m → (m' : Ring) × (step x m ≡ some m') × IsFree m'
  unfolding step add remove get get_locked with_lock
  step-IsValid (adds []) m plain (free, v) = (m, refl, (free, v))
  step-IsValid (adds (node ∷ nodes)) m plain (free, v) =
      let held = record m { locked = true } in
      let held-IsValid = same-IsValid m held v refl refl refl in
      let m' = add_nodes hash (node ∷ nodes) held in
      let done = record m' { keys = sort_ints m'.keys; locked = false } in
      (
        done,
        ground (arith, free),
        (
          refl,
          same-IsValid m' done (add_nodes-IsValid (node ∷ nodes) held held-IsValid) refl refl refl,
        ),
      )
  step-IsValid (removes []) m plain (free, v) = (m, refl, (free, v))
  step-IsValid (removes (c ∷ node)) m plain (free, v) =
      let held = record m { locked = true } in
      let r = (remove_locked hash (c ∷ node) held).0 in
      let done = record r { locked = false } in
      (
        done,
        ground (arith, free),
        (
          refl,
          same-IsValid r done
              (remove_locked-IsValid (c ∷ node) held (same-IsValid m held v refl refl refl)) refl
              refl refl,
        ),
      )
  step-IsValid (gets []) m plain (free, v) = (m, refl, (free, v))
  step-IsValid (gets (c ∷ key)) m plain (free, v) = elim (list_cases m.keys) [
    | inl none_ ↦ (
      record m { locked = false },
      ground (arith, free, none_),
      (refl, same-IsValid m (record m { locked = false }) v refl refl refl),
    )
    | inr some_ ↦
        let (k, ks, e) = some_ in
        let r = (get_locked hash (c ∷ key) (record m { locked = true })).0 in
        let done = record r { locked = false } in
        (done, ground (arith, free, e), (refl, same-IsValid m done v refl refl refl))
  ]
  step-IsValid ticks m plain free = absurd (plain tt)

  unlocked : (config : Config) → (new_ring config).locked ≡ false
  unfolding new_ring
  unlocked config = refl

  step_cases :
      (x : Call) (xs : List Call) (m : Ring)
      → IsFree m
      → ((step x m ≡ none) × HasTick (x ∷ xs)) ⊎ ((m' : Ring) × (step x m ≡ some m') × IsFree m')
  step_cases (adds nodes) xs m free = inr (step-IsValid (adds nodes) m (λ t. t) free)
  step_cases (removes node) xs m free = inr (step-IsValid (removes node) m (λ t. t) free)
  step_cases (gets key) xs m free = inr (step-IsValid (gets key) m (λ t. t) free)
  step_cases ticks xs m free = elim (tick_cases m free) [
    | inl stuck ↦ inl (stuck, tt)
    | inr done ↦ inr done
  ]

  HasTick-cons : (x : Call) (xs : List Call) → HasTick xs → HasTick (x ∷ xs)
  HasTick-cons (adds nodes) xs t = t
  HasTick-cons (removes node) xs t = t
  HasTick-cons (gets key) xs t = t
  HasTick-cons ticks xs t = tt

  run_cases :
      (xs : List Call) (m : Ring)
      → IsFree m
      → ((run xs m ≡ none) × HasTick xs) ⊎ ((m' : Ring) × (run xs m ≡ some m') × IsFree m')
  unfolding run
  run_cases [] m free = inr (m, refl, free)
  run_cases (x ∷ xs) m free = elim (step_cases x xs m free) [
    | inl stuck ↦ inl (ground (arith, stuck.0), stuck.1)
    | inr done ↦
        let (m_1, e, free_1) = done in
        elim (run_cases xs m_1 free_1) [
          | inl stuck ↦ inl (ground (arith, e, stuck.0), HasTick-cons x xs stuck.1)
          | inr rest ↦ let (m_2, e', free_2) = rest in inr (m_2, ground (arith, e, e'), free_2)
        ]
  ]

  -- Of any calls of `Add`, `Remove` and `Get` on a new ring and any ticks of its balancer, one after
  -- another, a tick never ends, or all of them return; in the second case a `Remove` of a node after them
  -- returns, and so does any `Get` after that, which does not answer the node.
  pub run-remove_get :
      (config : Config) (xs : List Call) (c : ℕ) (rest key : Text)
      → ((run xs (new_ring config) ≡ none) × HasTick xs)
        ⊎ ((m m' m'' : Ring) × (e : Option Error) × (answer : Text) × (run xs (new_ring config)
              ≡ some m)
            × (remove hash (c ∷ rest) m ≡ some (m', e))
            × (get hash key m' ≡ some (m'', answer))
            × (answer ≢ c ∷ rest))
  run-remove_get config xs c rest key =
      elim (run_cases xs (new_ring config) (unlocked config, new_ring-IsValid hash config)) [
        | inl stuck ↦ inl stuck
        | inr done ↦
            let (m, ran, good) = done in
            let (m', m'', e, answer, removed, got, other) =
              get-remove hash c rest key m good.0 good.1 in
            inr (m, m', m'', e, answer, ran, removed, got, other)
      ]
