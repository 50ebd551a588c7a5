-- ===== src/Tests/Stores.antt =====
-- The lru store of sonnet-cache-v2 on small inputs.
use sonnet_pro.Prelude.Int.{pos, ◌≤ℤ◌}
use sonnet_pro.Prelude.{◌⊎◌, List, [], ◌∷◌, Text, codes, some, length}
use sonnet_pro.CacheV2.Lru.{LruCache, new_lru_cache, evict}
use sonnet_pro.CacheV2.Lru.Valid.{IsValid}
use sonnet_pro.CacheV2.Lru.Runs
use sonnet_pro.CacheV2.Lru.Runs.{Call}
use sonnet_pro.CacheV2.Lru.Evict.{evict-within}

-- Two keys of 4 bytes together, with a bound of 5.
abbrev calls : List (Call {V = Text} length)
calls =
    Runs.sets 0 (codes "a") (some (codes "1")) 9
    ∷ Runs.sets 1 (codes "b") (some (codes "2")) 0
    ∷ Runs.gets 2 (codes "a")
    ∷ []

abbrev two_keys : LruCache Text
two_keys = Runs.run length calls (new_lru_cache (pos 5))

two_keys-IsValid : IsValid length two_keys
two_keys-IsValid = Runs.run-new_lru_cache length calls (pos 5)

run-new_lru_cache_example : IsValid length (Runs.run length calls (new_lru_cache (pos 5)))
run-new_lru_cache_example = Runs.run-new_lru_cache length calls (pos 5)

-- A value grows past the bound.
abbrev grown : LruCache Text
grown = Runs.run length (Runs.sets 3 (codes "a") (some (codes "123")) 0 ∷ []) two_keys

grown-IsValid : IsValid length grown
grown-IsValid =
    Runs.run_valid length (Runs.sets 3 (codes "a") (some (codes "123")) 0 ∷ []) two_keys
      two_keys-IsValid

evict-within_example :
    ((evict length 4 grown).max_bytes ≤ℤ pos 0)
    ⊎ ((evict length 4 grown).used_bytes ≤ℤ (evict length 4 grown).max_bytes)
evict-within_example = evict-within length 4 grown grown-IsValid
