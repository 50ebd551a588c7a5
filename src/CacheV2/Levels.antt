-- ===== src/CacheV2/Levels.antt =====
-- sonnet-cache-v2/store/lru2.go, the store: buckets that a hash of the key selects, each of two
-- levels. A clock reading `now` is an argument of each operation that calls `Now`; a duration that is
-- not positive is 0. An `expireAt` that is not positive is 0 too: the code treats a negative one, from an
-- overflow of int64, as deleted. `none` is the panic of an index that is out of range. The calls of `onEvicted` from `put` are the `evicted` of the levels, those from
-- `delete` the `dropped` of the store.
pub mod Masks
pub mod Laws
pub mod Operations
pub mod Walks
pub mod Runs
use Prim.Native.Nat.{bit_and, bit_or}
use sonnet_pro.Prelude.{
  ℕ, zero, suc, ◌+◌, ◌-◌, ◌*◌, ◌/◌, ◌%◌, ◌^◌, List, [], ◌∷◌, ◌++◌, Bool, true, false, not, ◌&&◌,
  ◌||◌, Option, none, some, Text, text_dec, length, ltb, leb, update, ◌==◌, if◌then◌else◌, ite, map,
  ◌>>=◌,
}
use sonnet_pro.CacheV2.Lru2.{Node, Level, create, put, get, del, walk}

-- `hashBKRD`: an int32 as its residue modulo 2^32.
unfoldable pub hash_from : ℕ → Text → ℕ
hash_from hash [] = hash
hash_from hash (c ∷ s) = hash_from ((hash * 131 + c) % 2 ^ 32) s

unfoldable pub hash_bkrd : Text → ℕ
unfolding hash_from
hash_bkrd s = hash_from 0 s

-- `maskOfNextPowOf2`.
unfoldable pub mask_of_next_pow_of_2 : ℕ → ℕ
mask_of_next_pow_of_2 cap =
    let cap_1 = bit_or cap (cap / 2) in
    let cap_2 = bit_or cap_1 (cap_1 / 4) in
    let cap_4 = bit_or cap_2 (cap_2 / 16) in
    if ltb 0 cap && (bit_and cap (cap - 1) == 0) then cap - 1 else bit_or cap_4 (cap_4 / 256)

-- The fields of `Options` that the store reads, each a `uint16`.
pub record Options : Type 0 where
  pub bucket_count : ℕ
  pub cap_per_bucket : ℕ
  pub level_2_cap : ℕ

-- `lru2Store`: `first i` and `second i` are `caches[i]`, for `i` below `count`.
pub record Store (V : Type 0) : Type 0 where
  pub first : ℕ → Level V
  pub second : ℕ → Level V
  pub mask : ℕ
  pub count : ℕ
  pub dropped : List (Text × V)

abbrev pub or_default : ℕ → ℕ → ℕ
or_default d n = if n == 0 then d else n

-- `newLRU2Cache`, with the wrap-around of `mask+1`.
unfoldable pub new_lru2_cache : {V : Type 0} → Options → Store V
unfolding create mask_of_next_pow_of_2
new_lru2_cache opts = record {
  first = λ i. create (or_default 1024 opts.cap_per_bucket);
  second = λ i. create (or_default 1024 opts.level_2_cap);
  mask = mask_of_next_pow_of_2 (or_default 16 opts.bucket_count);
  count = (mask_of_next_pow_of_2 (or_default 16 opts.bucket_count) + 1) % 2 ^ 16;
  dropped = [];
}

abbrev pub is_some : {A : Type 0} → Option A → Bool
is_some none = false
is_some (some a) = true

abbrev pub from_to : ℕ → ℕ → List ℕ
from_to i zero = []
from_to i (suc n) = i ∷ from_to (suc i) n

abbrev pub has_key : Text → List Text → Bool
has_key k [] = false
has_key k (x ∷ xs) = ite (text_dec k x) true (has_key k xs)

-- `expireAt`: a sum above the int64 range is negative.
unfoldable pub expire_at_of : ℕ → ℕ → ℕ
expire_at_of now expiration =
    if ltb 0 expiration && ltb (now + expiration) (2 ^ 63) then now + expiration else 0

module _ {V : Type 0} where
  -- `hashBKRD(key) & s.mask`.
  unfoldable pub bucket : Text → Store V → ℕ
  unfolding hash_bkrd
  bucket key s = bit_and (hash_bkrd key) s.mask

  abbrev pub value_of : Option (Node V × ℕ) → Option V
  value_of none = none
  value_of (some (n, e)) = n.v

  -- The call of `onEvicted` in `delete`: for the first level's value, or for the second's.
  abbrev pub drop_value : Text → Option V → Option V → List (Text × V) → List (Text × V)
  drop_value key (some v) w log = log ++ (key, v) ∷ []
  drop_value key none (some w) log = log ++ (key, w) ∷ []
  drop_value key none none log = log

  -- A method of `s.caches[i][0]`, and one of `s.caches[i][1]`; a bucket that is not there panics.
  abbrev pub on_first :
      {A : Type 0} → ℕ → (Level V → Option (Level V × A)) → Store V → Option (Store V × A)
  on_first i f s =
      let rest = f (s.first i) >>= λ q. some (record s { first = update s.first i q.0 }, q.1) in
      if ltb i s.count then rest else none

  abbrev pub on_second :
      {A : Type 0} → ℕ → (Level V → Option (Level V × A)) → Store V → Option (Store V × A)
  on_second i f s =
      let rest = f (s.second i) >>= λ q. some (record s { second = update s.second i q.0 }, q.1) in
      if ltb i s.count then rest else none

  -- `delete` in a bucket.
  unfoldable pub delete_in : Text → ℕ → Store V → Option (Store V × Bool)
  unfolding del
  delete_in key i s = on_first i (del key) s >>= λ p. on_second i (del key) p.0 >>= λ q. some (
    record q.0 { dropped = drop_value key (value_of p.1) (value_of q.1) q.0.dropped },
    is_some p.1 || is_some q.1,
  )

  unfoldable pub delete : Text → Store V → Option (Store V × Bool)
  unfolding delete_in bucket
  delete key s = delete_in key (bucket key s) s

  -- `_get` on the second level.
  abbrev pub unless_expired : ℕ → Option (Node V) → Option (Node V)
  unless_expired now none = none
  unless_expired now (some n) = if (n.expire_at == 0) || leb n.expire_at now then none else some n

  unfoldable pub get_second : ℕ → Text → ℕ → Store V → Option (Store V × Option (Node V))
  unfolding get
  get_second now key i s = on_second i (get key) s >>= λ q. some (q.0, unless_expired now q.1)

  -- The branch of `Get` that deletes an expired item.
  unfoldable pub expire : Text → ℕ → Store V → Option (Store V × Option (Option V))
  unfolding delete_in
  expire key i s = delete_in key i s >>= λ q. some (q.0, none)

  -- What `Get` does with the node of the second level.
  unfoldable pub serve :
      ℕ → Text → ℕ → Option (Node V) → Store V → Option (Store V × Option (Option V))
  unfolding expire
  serve now key i none s = some (s, none)
  serve now key i (some n) s =
      if ltb 0 n.expire_at && leb n.expire_at now then expire key i s else some (s, some n.v)

  unfoldable pub put_second :
      Text → ℕ → Option V → ℕ → Store V → Option (Store V × Option (Option V))
  unfolding put
  put_second key i v e s = on_second i (put key v e) s >>= λ q. some (q.0, some v)

  -- What `Get` does with a node that `del` took off the first level.
  unfoldable pub promote :
      ℕ → Text → ℕ → Node V → ℕ → Store V → Option (Store V × Option (Option V))
  unfolding expire put_second
  promote now key i n e s =
      if ltb 0 e && leb e now then expire key i s else put_second key i n.v e s

  unfoldable pub get_from :
      ℕ → Text → ℕ → Option (Node V × ℕ) → Store V → Option (Store V × Option (Option V))
  unfolding promote get_second serve
  get_from now key i (some (n, e)) s = promote now key i n e s
  get_from now key i none s = get_second now key i s >>= λ q. serve now key i q.1 q.0

  -- `Get`: a value, which can be nil, and whether there is one.
  unfoldable pub get_value : ℕ → Text → Store V → Option (Store V × Option (Option V))
  unfolding bucket del get_from
  get_value now key s =
      let i = bucket key s in on_first i (del key) s >>= λ q. get_from now key i q.1 q.0

  -- `SetWithExpiration` and `Set`.
  unfoldable pub set_with_expiration : ℕ → Text → Option V → ℕ → Store V → Option (Store V)
  unfolding bucket put expire_at_of
  set_with_expiration now key value expiration s =
      on_first (bucket key s) (put key value (expire_at_of now expiration)) s >>= λ q. some q.0

  unfoldable pub set : ℕ → Text → Option V → Store V → Option (Store V)
  unfolding set_with_expiration
  set now key value s = set_with_expiration now key value 9999999999999999 s

  -- The indices of `s.caches`.
  unfoldable pub buckets : Store V → List ℕ
  buckets s = from_to 0 s.count

  -- `walk` over the two levels of a bucket.
  unfoldable pub live_nodes : ℕ → Store V → Option (List (Node V) × List (Node V))
  unfolding walk
  live_nodes i s = walk (s.first i) >>= λ ns. walk (s.second i) >>= λ ms. some (ns, ms)

  -- `Len`.
  unfoldable pub len_of : List ℕ → Store V → Option ℕ
  unfolding live_nodes
  len_of [] s = some 0
  len_of (i ∷ is) s =
      live_nodes i s >>= λ q. len_of is s >>= λ n. some (length q.0 + length q.1 + n)

  unfoldable pub len : Store V → Option ℕ
  unfolding buckets len_of
  len s = len_of (buckets s) s

  -- The keys of nodes, without those that are there.
  unfoldable pub add_keys : List (Node V) → List Text → List Text
  add_keys [] keys = keys
  add_keys (n ∷ ns) keys = add_keys ns (if has_key n.k keys then keys else keys ++ n.k ∷ [])

  unfoldable pub keys_of : List ℕ → List Text → Store V → Option (List Text)
  unfolding live_nodes add_keys
  keys_of [] keys s = some keys
  keys_of (i ∷ is) keys s =
      live_nodes i s >>= λ q. keys_of is (add_keys q.1 (keys ++ map (λ n. n.k) q.0)) s

  unfoldable pub delete_all : List Text → Store V → Option (Store V)
  unfolding delete
  delete_all [] s = some s
  delete_all (k ∷ ks) s = delete k s >>= λ q. delete_all ks q.0

  -- `Clear`.
  unfoldable pub clear : Store V → Option (Store V)
  unfolding keys_of delete_all buckets
  clear s = keys_of (buckets s) [] s >>= λ ks. delete_all ks s

  -- One tick of `cleanupLoop`.
  abbrev pub expired : ℕ → List (Node V) → List (Node V)
  expired now [] = []
  expired now (n ∷ ns) =
      let rest = expired now ns in
      if ltb 0 n.expire_at && leb n.expire_at now then n ∷ rest else rest

  unfoldable pub delete_keys_in : ℕ → List Text → Store V → Option (Store V)
  unfolding delete_in
  delete_keys_in i [] s = some s
  delete_keys_in i (k ∷ ks) s = delete_in k i s >>= λ q. delete_keys_in i ks q.0

  unfoldable pub cleanup_bucket : ℕ → ℕ → Store V → Option (Store V)
  unfolding live_nodes add_keys delete_keys_in
  cleanup_bucket now i s = live_nodes i s >>= λ q.
      delete_keys_in i (add_keys (expired now q.1) (map (λ n. n.k) (expired now q.0))) s

  unfoldable pub cleanup_each : ℕ → List ℕ → Store V → Option (Store V)
  unfolding cleanup_bucket
  cleanup_each now [] s = some s
  cleanup_each now (i ∷ is) s = cleanup_bucket now i s >>= λ s'. cleanup_each now is s'

  unfoldable pub cleanup : ℕ → Store V → Option (Store V)
  unfolding cleanup_each buckets
  cleanup now s = cleanup_each now (buckets s) s
