-- ===== src/CacheV2/Ring/Removal.antt =====
-- sonnet-cache-v2/consistent_hash/consistent_hash.go: a removed node is never selected.
use sonnet_pro.Prelude.Maps.{lookup, insert, delete, lookup-insert, lookup-delete}
use sonnet_pro.Prelude.{
  ℕ, zero, suc, ◌+◌, ◌≡◌, ◌≢◌, ◌≤◌, ◌<◌, refl, sym, ◌∙◌, ap, arith, List, [], ◌∷◌, ◌++◌, true,
  false, Bool-cases, inl, inr, Option, Option-cases, some, Text, text_dec, length, get_or, ite,
  ◌==◌, if◌then◌else◌, ◌⊎◌, ℕ_discrete,
}
use sonnet_pro.Cache.Ring.{find_index}
use sonnet_pro.CacheV2.Ring.{
  Ring, Config, new_ring, point, count_of, cut, with_lock, add_points, add_node, remove_points,
  remove_locked, remove, get_locked, get, Error,
}

pub list_cases : (ks : List ℕ) → (ks ≡ []) ⊎ ((k : ℕ) × (rest : List ℕ) × (ks ≡ k ∷ rest))
list_cases [] = inl refl
list_cases (k ∷ ks) = inr (k, ks, refl)

module _ (hash : Text → ℕ) where
  -- Every entry of the map is a point of its node, and no node has more replicas than the configuration
  -- gives.
  pub record IsValid (m : Ring) : Type 0 where
    pub owned :
        (h : ℕ) (node : Text)
        → lookup ℕ_discrete h m.hash_map ≡ some node
        → (i : ℕ) × (i < count_of node m.node_replicas) × (h ≡ point hash node i)
    pub replicas : (node : Text) → count_of node m.node_replicas ≤ m.config.default_replicas

  pub new_ring-IsValid : (config : Config) → IsValid (new_ring config)
  unfolding new_ring lookup count_of
  new_ring-IsValid config = record {
    owned = λ h node e. ground (arith, e);
    replicas = λ node. omega arith;
  }

  -- What the loop of `addNode` leaves.
  add_points_map :
      (left i : ℕ) (node : Text) (m : Ring) (h : ℕ) (n : Text)
      → lookup ℕ_discrete h (add_points hash left i node m).hash_map ≡ some n
      → (lookup ℕ_discrete h m.hash_map ≡ some n)
        ⊎ ((n ≡ node) × ((j : ℕ) × (j < i + left) × (h ≡ point hash node j)))
  unfolding add_points
  add_points_map zero i node m h n e = inl e
  add_points_map (suc left) i node m h n e =
      let m' : Ring = record m {
        keys = m.keys ++ point hash node i ∷ [];
        hash_map = insert ℕ_discrete (point hash node i) node m.hash_map;
      } in
      elim (add_points_map left (suc i) node m' h n e) [
        | inr later ↦
            let (same, place) = later in
            let (j, lt, at) = place in inr (same, (j, omega (arith, lt), at))
        | inl now ↦
            let law = lookup-insert ℕ_discrete (point hash node i) h node m.hash_map in
            elim (ℕ_discrete (point hash node i) h) [
              | yes q ↦ inr (ground (arith, law, now, q), (i, omega arith, sym q))
              | no q ↦ inl (ground (arith, law, now, q))
            ]
      ]

  add_points_kept :
      (left i : ℕ) (node : Text) (m : Ring)
      → ((add_points hash left i node m).node_replicas ≡ m.node_replicas)
        × ((add_points hash left i node m).config ≡ m.config)
  unfolding add_points
  add_points_kept zero i node m = (refl, refl)
  add_points_kept (suc left) i node m = add_points_kept left (suc i) node _

  pub remove_points_map :
      (left i : ℕ) (node : Text) (m : Ring) (h : ℕ) (n : Text)
      → lookup ℕ_discrete h (remove_points hash left i node m).hash_map ≡ some n
      → (lookup ℕ_discrete h m.hash_map ≡ some n)
        × ((j : ℕ) → i ≤ j → j < i + left → h ≢ point hash node j)
  unfolding remove_points
  remove_points_map zero i node m h n e = (e, λ j low high. absurd (omega (arith, low, high)))
  remove_points_map (suc left) i node m h n e =
      let m' : Ring = record m {
        keys = cut (point hash node i) m.keys;
        hash_map = delete ℕ_discrete (point hash node i) m.hash_map;
      } in
      let (now, later) = remove_points_map left (suc i) node m' h n e in
      let law = lookup-delete ℕ_discrete (point hash node i) h m.hash_map in
      let other : point hash node i ≢ h = λ q. ground (arith, law, now, q) in
      (
        ground (arith, law, now, other),
        λ j low high. elim (ℕ_discrete j i) [
          | yes q ↦ λ at. other (sym (at ∙ ap (point hash node) q))
          | no q ↦ later j (omega (arith, low, q)) (omega (arith, high))
        ],
      )

  -- No entry of the map leads to a node.
  abbrev pub IsGone : Text → Ring → Type 0
  IsGone node m = (h : ℕ) → lookup ℕ_discrete h m.hash_map ≢ some node

  remove_locked-IsGone :
      (node : Text) (m : Ring) → IsValid m → IsGone node (remove_locked hash node m).0
  unfolding remove_locked
  remove_locked-IsGone node m v h e = elim (Bool-cases (count_of node m.node_replicas == 0)) [
    | inl zero_ ↦
        let before : lookup ℕ_discrete h m.hash_map ≡ some node = ground (arith, e, zero_) in
        let (i, lt, at) = v.owned h node before in ground (arith, zero_, lt)
    | inr some_ ↦
        let replicas = count_of node m.node_replicas in
        let after : lookup ℕ_discrete h (remove_points hash replicas 0 node m).hash_map
            ≡ some node =
          ground (arith, e, some_) in
        let (before, apart) = remove_points_map replicas 0 node m h node after in
        let (i, lt, at) = v.owned h node before in apart i (omega arith) (omega (arith, lt)) at
  ]

  get_locked_gone :
      (c : ℕ) (rest key : Text) (m : Ring)
      → IsGone (c ∷ rest) m
      → (get_locked hash key m).1 ≢ c ∷ rest
  unfolding get_locked
  get_locked_gone c rest key m gone q =
      let at =
        if find_index m.keys (hash key) == length m.keys then 0 else find_index m.keys (hash key) in
      let h = get_or m.keys at 0 in
      elim (Option-cases (lookup ℕ_discrete h m.hash_map)) [
        | inl nothing ↦ ground (arith, q, nothing)
        | inr there ↦
            let (n, e) = there in
            let same : n ≡ c ∷ rest = ground (arith, q, e) in gone h (e ∙ ap some same)
      ]

  get_gone :
      (c : ℕ) (rest key : Text) (m : Ring)
      → m.locked ≡ false
      → IsGone (c ∷ rest) m
      → (m' : Ring) × (answer : Text) × (get hash key m ≡ some (m', answer)) × (answer ≢ c ∷ rest)
  unfolding get with_lock
  get_gone c rest [] m free gone = (m, [], refl, λ q. cc)
  get_gone c rest (k ∷ key) m free gone = elim (list_cases m.keys) [
    | inl none_ ↦ (record m { locked = false }, [], ground (arith, free, none_), λ q. cc)
    | inr some_ ↦
        let (j, js, e) = some_ in
        let r = get_locked hash (k ∷ key) (record m { locked = true }) in
        (
          record r.0 { locked = false },
          r.1,
          ground (arith, free, e),
          get_locked_gone c rest (k ∷ key) (record m { locked = true }) gone,
        )
  ]

  -- In a valid ring that is free, `Remove` of a node returns, and every `Get` afterwards returns and
  -- does not answer that node.
  pub get-remove :
      (c : ℕ) (rest key : Text) (m : Ring)
      → m.locked ≡ false
      → IsValid m
      → (m' m'' : Ring) × (e : Option Error) × (answer : Text) × (remove hash (c ∷ rest) m
          ≡ some (m', e))
        × (get hash key m' ≡ some (m'', answer))
        × (answer ≢ c ∷ rest)
  unfolding remove with_lock
  get-remove c rest key m free v =
      let held = record m { locked = true } in
      let r = remove_locked hash (c ∷ rest) held in
      let m' = record r.0 { locked = false } in
      let gone =
        remove_locked-IsGone (c ∷ rest) held (record { owned = v.owned; replicas = v.replicas }) in
      let (m'', answer, e, other) = get_gone c rest key m' refl gone in
      (m', m'', r.1, answer, ground (arith, free), e, other)

  pub add_node-IsValid :
      (node : Text) (m : Ring)
      → IsValid m
      → IsValid (add_node hash node m.config.default_replicas m)
  unfolding add_node count_of
  add_node-IsValid node m v =
      let size = m.config.default_replicas in
      let m' = add_points hash size 0 node m in
      let (same, config) = add_points_kept size 0 node m in
      let counted : (n : Text)
          → count_of n (insert text_dec node size m'.node_replicas)
            ≡ ite (text_dec node n) size (count_of n m.node_replicas) =
        λ n. ground (arith, lookup-insert text_dec node n size m'.node_replicas, same) in
      record {
        owned = λ h n e. elim (add_points_map size 0 node m h n e) [
          | inl old ↦
              let (i, lt, at) = v.owned h n old in
              let le = v.replicas n in (i, ground (arith, counted n, lt, le), at)
          | inr new ↦
              let (is_node, place) = new in
              let (i, lt, at) = place in
              (
                i,
                ground (arith, counted n, is_node, lt),
                at ∙ ap (λ z. point hash z i) (sym is_node),
              )
        ];
        replicas = λ n. let le = v.replicas n in ground (arith, counted n, le, config);
      }
