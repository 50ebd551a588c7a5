-- ===== src/Tests/Lru2.antt =====
-- The two-level store of sonnet-cache-v2 and its levels.
use sonnet_pro.Prelude.Maps.{lookup, insert, delete}
use sonnet_pro.Prelude.{
  ℕ, ◌≡◌, ◌>>=◌, refl, arith, List, [], ◌∷◌, Text, codes, text_dec, Option, some, none,
}
use sonnet_pro.CacheV2.Lru2.{
  Node, Level, create, put, get, del, adjust, to_head, to_tail, refresh, take_tail, take_new, walk,
  walk_from, in_links, in_nodes, can_adjust,
}
use sonnet_pro.CacheV2.Lru2.Refines.{IsView}
use sonnet_pro.CacheV2.Lru2.Runs
use sonnet_pro.CacheV2.Levels.{
  Options, Store, new_lru2_cache, get_value, set_with_expiration, bucket, hash_bkrd, hash_from,
  mask_of_next_pow_of_2, get_from, get_second, serve, promote, put_second, delete_in, expire,
  expire_at_of, len, len_of, live_nodes, buckets,
}
use sonnet_pro.CacheV2.Levels.Laws.{IsValid}
use sonnet_pro.CacheV2.Levels.Walks.{new_lru2_cache-IsValid}
use sonnet_pro.CacheV2.Levels.Runs as Calls

-- The answer of an operation that returns.
abbrev answer : {A B : Type 0} → Option (A × B) → Option B
answer none = none
answer (some (a, b)) = some b

-- A third key on two places takes that of the key that was used least recently.
abbrev level_calls : List (Runs.Call ℕ)
level_calls =
    Runs.puts (codes "a") (some 1) 9
    ∷ Runs.puts (codes "b") (some 2) 9
    ∷ Runs.gets (codes "a")
    ∷ Runs.puts (codes "c") (some 3) 9
    ∷ Runs.gets (codes "b")
    ∷ Runs.dels (codes "a")
    ∷ []

abbrev node_of : Text → ℕ → ℕ → Node ℕ
node_of k v e = record { k = k; v = some v; expire_at = e }

level_test :
    answer (Runs.run level_calls (create 2))
    ≡ some (
        Runs.stored 1
        ∷ Runs.stored 1
        ∷ Runs.got (some (node_of (codes "a") 1 9))
        ∷ Runs.stored 1
        ∷ Runs.got none
        ∷ Runs.deleted (some (node_of (codes "a") 1 0, 9))
        ∷ [])
unfolding Runs.run Runs.step put get del refresh take_tail take_new to_head to_tail adjust create
    lookup insert delete text_dec in_links in_nodes can_adjust
level_test = refl

run-create_example :
    (last : Level ℕ) × (Runs.run level_calls (create 2)
      ≡ some (last, (Runs.list_run 2 level_calls []).1))
    × IsView last (Runs.list_run 2 level_calls []).0
run-create_example = Runs.run-create level_calls 2 (omega arith) (omega arith)

-- The length of `dlnk` of a level for 65535 entries is 0, and its first `put` panics.
empty_links_test : put (codes "a") (some 1) 9 (create {V = ℕ} 65535) ≡ none
unfolding put get del refresh take_tail take_new to_head to_tail adjust create lookup insert delete
    text_dec in_links in_nodes can_adjust
empty_links_test = refl

abbrev two_places : Options
two_places = record { bucket_count = 3; cap_per_bucket = 1; level_2_cap = 2 }

abbrev one_bucket : Options
one_bucket = record { bucket_count = 1; cap_per_bucket = 1; level_2_cap = 2 }

-- A value that was read is kept in the second level, so that it comes back when a later value of its
-- key is evicted from the first.
abbrev stale_calls : List (Calls.Call ℕ)
stale_calls =
    Calls.sets 0 (codes "a") (some 1) 90
    ∷ Calls.gets 1 (codes "a")
    ∷ Calls.sets 2 (codes "a") (some 2) 90
    ∷ Calls.sets 3 (codes "b") (some 3) 90
    ∷ []

stale_test :
    answer (Calls.run stale_calls (new_lru2_cache one_bucket) >>= get_value 4 (codes "a"))
    ≡ some (some (some 1))
unfolding Calls.run Calls.step get_value set_with_expiration new_lru2_cache put get del refresh
    take_tail take_new to_head to_tail adjust create lookup insert delete text_dec bucket hash_bkrd
    hash_from mask_of_next_pow_of_2 get_from get_second serve promote put_second delete_in expire
    expire_at_of in_links in_nodes can_adjust
stale_test = refl

-- `Len` counts the value of each level.
len_test : (Calls.run stale_calls (new_lru2_cache one_bucket) >>= len) ≡ some 2
unfolding Calls.run Calls.step get_value set_with_expiration new_lru2_cache put get del refresh
    take_tail take_new to_head to_tail adjust create lookup insert delete text_dec bucket hash_bkrd
    hash_from mask_of_next_pow_of_2 get_from get_second serve promote put_second delete_in expire
    expire_at_of in_links in_nodes can_adjust len len_of live_nodes buckets walk walk_from
len_test = refl

-- Above 32768 buckets the count wraps to 0, and the first `Set` panics.
abbrev no_buckets : Options
no_buckets = record { bucket_count = 40000; cap_per_bucket = 1; level_2_cap = 2 }

no_buckets_test :
    set_with_expiration 0 (codes "a") (some 1) 9 (new_lru2_cache {V = ℕ} no_buckets) ≡ none
unfolding set_with_expiration new_lru2_cache mask_of_next_pow_of_2 put bucket hash_bkrd hash_from
    expire_at_of create
no_buckets_test = refl

abbrev start : Store ℕ
start = new_lru2_cache two_places

start-IsValid : IsValid start
start-IsValid = new_lru2_cache-IsValid two_places (omega arith) (omega arith) (omega arith)

get_value-set_with_expiration_example :
    (s_1 : Store ℕ) × (s_2 : Store ℕ) × (set_with_expiration 3 (codes "a") (some 5) 6 start
      ≡ some s_1)
    × (get_value 8 (codes "a") s_1 ≡ some (s_2, some (some 5)))
get_value-set_with_expiration_example =
    Calls.get_value-set_with_expiration start (codes "a") (some 5) 3 6 8 start-IsValid (omega arith)
      (omega arith) (omega arith)
