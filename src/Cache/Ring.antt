-- ===== src/Cache/Ring.antt =====
-- sonnet-cache/consistent_hash/consistent_hash.go: the ring of virtual nodes. The hash function is a
-- parameter, as in the source. `sort.Ints` and `sort.Search` are the standard library's: an insertion
-- sort and its binary search.
pub mod Search
pub mod Order
pub mod Owner
use sonnet_pro.Prelude.Maps.{lookup, insert}
use sonnet_pro.Prelude.{
  ℕ, zero, suc, ◌+◌, ◌/◌, ◌%◌, List, [], ◌∷◌, ◌++◌, Bool, true, false, Option, none, some, Text,
  itoa, length, get_or, leb, ltb, if◌then◌else◌, ℕ_discrete,
}

-- `Map`, without its hash function.
pub record Ring : Type 0 where
  pub replicas : ℕ
  pub keys : List ℕ
  pub hash_map : List (ℕ × Text)

-- `New`.
unfoldable pub new_ring : ℕ → Ring
new_ring replicas = record { replicas = replicas; keys = []; hash_map = [] }

-- `sort.Ints`.
unfoldable pub insert_sorted : ℕ → List ℕ → List ℕ
insert_sorted x [] = x ∷ []
insert_sorted x (y ∷ ys) = if leb x y then x ∷ y ∷ ys else y ∷ insert_sorted x ys

unfoldable pub sort_ints : List ℕ → List ℕ
unfolding insert_sorted
sort_ints [] = []
sort_ints (x ∷ xs) = insert_sorted x (sort_ints xs)

-- The loop of `sort.Search(n, f)` between `i` and `j`; its fuel is the width, which every round
-- makes smaller.
unfoldable pub sort_search : ℕ → (ℕ → Bool) → ℕ → ℕ → ℕ
sort_search zero f i j = i
sort_search (suc fuel) f i j =
    let h = (i + j) / 2 in
    let left = sort_search fuel f i h in
    let right = sort_search fuel f (suc h) j in if ltb i j then (if f h then left else right) else i

-- `m.hashMap[h]`, the empty string where there is none.
unfoldable pub node_at : Ring → ℕ → Text
node_at m h = elim (lookup ℕ_discrete h m.hash_map) [ none ↦ [] | some node ↦ node ]

-- The index that `Get` finds for a hash.
unfoldable pub find_index : List ℕ → ℕ → ℕ
find_index keys h = sort_search (length keys) (λ i. leb h (get_or keys i 0)) 0 (length keys)

module _ (hash : Text → ℕ) where
  -- The loop of `Add` over the replicas of a key, from `i` on, with `left` rounds to go.
  unfoldable pub add_replicas : ℕ → ℕ → Text → Ring → Ring
  add_replicas zero i key m = m
  add_replicas (suc left) i key m =
      let point = hash (itoa i ++ key) in
      add_replicas left (suc i) key (record m {
        keys = m.keys ++ point ∷ [];
        hash_map = insert ℕ_discrete point key m.hash_map;
      })

  unfoldable pub add_keys : List Text → Ring → Ring
  add_keys [] m = m
  add_keys (key ∷ keys) m = add_keys keys (add_replicas m.replicas 0 key m)

  -- `Add`.
  unfoldable pub add : List Text → Ring → Ring
  add keys m = let m' = add_keys keys m in record m' { keys = sort_ints m'.keys }

  -- `Get`.
  unfoldable pub get : Text → Ring → Text
  get key m =
      let idx = find_index m.keys (hash key) in
      elim m.keys [ [] ↦ [] | k ∷ ks ↦ node_at m (get_or m.keys (idx % length m.keys) 0) ]
