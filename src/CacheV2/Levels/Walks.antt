-- ===== src/CacheV2/Levels/Walks.antt =====
-- sonnet-cache-v2/store/lru2.go, the store: the operations that walk over its buckets, and a new store.
use sonnet_pro.Prelude.{
  ◌≤◌, ℕ, zero, suc, ◌+◌, ◌^◌, refl, arith, List, [], ◌∷◌, ◌++◌, map, Text, inl, inr, ◌<◌,
}
use sonnet_pro.Cache.Ring.Order.{In}
use sonnet_pro.CacheV2.Levels.{
  Store, Options, buckets, keys_of, cleanup_bucket, cleanup_each, cleanup, clear, or_default,
  add_keys, live_nodes, new_lru2_cache, from_to, len, len_of,
}
use sonnet_pro.CacheV2.Levels.Masks.{mask_fits}
use sonnet_pro.CacheV2.Lru2.{create}
use sonnet_pro.CacheV2.Lru2.Refines.{create-IsView}
use sonnet_pro.CacheV2.Lru2.Runs.{walk-live, live}
use sonnet_pro.CacheV2.Levels.Laws.{Gives, some-Gives, bind-Gives, IsSound, IsValid, Keeps}
use sonnet_pro.CacheV2.Levels.Operations.{delete_all-Keeps, delete_keys_in-Keeps}

-- Of an operation that only returns.
abbrev pub Any {ℓ} : {A : Type ℓ} → A → Type 0
Any a = ℕ

from_to_lt : (a k x : ℕ) → In x (from_to a k) → x < a + k
from_to_lt a zero x h = absurd h
from_to_lt a (suc k) x (inl e) = omega (arith, e)
from_to_lt a (suc k) x (inr h) = omega (arith, from_to_lt (suc a) k x h)

positive : (d n : ℕ) → 0 < d → 0 < or_default d n
positive d n p = ground arith

module _ {V : Type 0} where
  live_nodes-Gives : (i : ℕ) (s : Store V) → IsValid s → Gives Any (live_nodes i s)
  unfolding live_nodes
  live_nodes-Gives i s h =
      let a = h.first i in
      let b = h.second i in
      record {
        value = (live a.entries, live b.entries);
        returns =
            rw (walk-live (s.first i) a.entries a.view, walk-live (s.second i) b.entries b.view)
              refl;
        holds = 0;
      }

  len_of-Gives : (is : List ℕ) (s : Store V) → IsValid s → Gives Any (len_of is s)
  unfolding len_of
  len_of-Gives [] s h = some-Gives 0 0
  len_of-Gives (i ∷ is) s h =
      bind-Gives Any Any (live_nodes i s) _ (live_nodes-Gives i s h)
        (λ q x. bind-Gives Any Any (len_of is s) _ (len_of-Gives is s h) (λ n y. some-Gives _ 0))

  pub len-Gives : (s : Store V) → IsValid s → Gives Any (len s)
  unfolding len
  len-Gives s h = len_of-Gives (buckets s) s h

  keys_of-Gives :
      (is : List ℕ) (keys : List Text) (s : Store V) → IsValid s → Gives Any (keys_of is keys s)
  unfolding keys_of
  keys_of-Gives [] keys s h = some-Gives keys 0
  keys_of-Gives (i ∷ is) keys s h =
      bind-Gives Any Any (live_nodes i s) _ (live_nodes-Gives i s h)
        (λ q x. keys_of-Gives is (add_keys q.1 (keys ++ map (λ n. n.k) q.0)) s h)

  pub clear-Keeps : (n : ℕ) (s : Store V) → Keeps n s → Gives (Keeps n) (clear s)
  unfolding clear
  clear-Keeps n s h =
      bind-Gives Any (Keeps n) (keys_of (buckets s) [] s) _ (keys_of-Gives (buckets s) [] s h.valid)
        (λ ks x. delete_all-Keeps ks n s h)

  cleanup_bucket-Keeps :
      (now i n : ℕ) (s : Store V) → i < n → Keeps n s → Gives (Keeps n) (cleanup_bucket now i s)
  unfolding cleanup_bucket
  cleanup_bucket-Keeps now i n s p h =
      bind-Gives Any (Keeps n) (live_nodes i s) _ (live_nodes-Gives i s h.valid)
        (λ q x. delete_keys_in-Keeps i n _ s p h)

  cleanup_each-Keeps :
      (now n : ℕ) (is : List ℕ) (s : Store V)
      → ((x : ℕ) → In x is → x < n)
      → Keeps n s
      → Gives (Keeps n) (cleanup_each now is s)
  unfolding cleanup_each
  cleanup_each-Keeps now n [] s p h = some-Gives s h
  cleanup_each-Keeps now n (i ∷ is) s p h =
      bind-Gives (Keeps n) (Keeps n) (cleanup_bucket now i s) _
        (cleanup_bucket-Keeps now i n s (p i (inl refl)) h)
        (λ s' k. cleanup_each-Keeps now n is s' (λ x j. p x (inr j)) k)

  pub cleanup-Keeps : (now n : ℕ) (s : Store V) → Keeps n s → Gives (Keeps n) (cleanup now s)
  unfolding cleanup buckets
  cleanup-Keeps now n s h =
      cleanup_each-Keeps now n (buckets s) s
        (λ x j. let same = h.count in omega (arith, same, from_to_lt 0 s.count x j)) h

  created-IsSound : (size : ℕ) → 0 < size → suc size < 2 ^ 16 → IsSound (create {V = V} size)
  unfolding create
  created-IsSound size p fits = record { room = p; entries = []; view = create-IsView size fits }

  -- A new store, of options that the `uint16` sums leave room for.
  pub new_lru2_cache-IsValid :
      (opts : Options)
      → opts.bucket_count ≤ 2 ^ 15
      → suc opts.cap_per_bucket < 2 ^ 16
      → suc opts.level_2_cap < 2 ^ 16
      → IsValid (new_lru2_cache {V = V} opts)
  unfolding new_lru2_cache
  new_lru2_cache-IsValid opts most fits_1 fits_2 =
      let mask = mask_fits (or_default 16 opts.bucket_count) (ground (arith, most)) in
      record {
        wide = omega (arith, mask);
        first = λ i.
            created-IsSound (or_default 1024 opts.cap_per_bucket)
              (positive 1024 opts.cap_per_bucket (omega arith)) (ground (arith, fits_1));
        second = λ i.
            created-IsSound (or_default 1024 opts.level_2_cap)
              (positive 1024 opts.level_2_cap (omega arith)) (ground (arith, fits_2));
      }
