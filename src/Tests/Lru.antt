-- ===== src/Tests/Lru.antt =====
-- The LRU cache of sonnet-cache on small inputs.
use sonnet_pro.Prelude.{◌>>=◌}
use sonnet_pro.Prelude.Int.{ℤ, pos, negsuc, ◌+ℤ◌, ◌-ℤ◌}
use sonnet_pro.Prelude.Maps.{lookup, insert, delete}
use sonnet_pro.Prelude.{
  ◌≡◌, refl, arith, List, [], ◌∷◌, Text, codes, text_dec, Option, none, some, length, map, inr,
}
use sonnet_pro.Cache.Lru.{
  Lru, new_lru, add, get, put, evict, over, remove_oldest, back, drop_back, push_front, replace,
  unlink, element_at,
}
use sonnet_pro.Cache.Lru.Shape.{id_of}
use sonnet_pro.Cache.Lru.Valid.{IsValid}
use sonnet_pro.Cache.Lru.Evict.{IsEvicted}
use sonnet_pro.Cache.Lru.Add.{get-add, add-IsEvicted, add-negative}

abbrev empty : ℤ → Lru Text
empty = new_lru

-- Values are strings, as in the source's tests.
empty-IsValid : (max : ℤ) → IsValid length (empty max)
unfolding new_lru
empty-IsValid max = record {
  agrees = λ k. unfold lookup id_of in refl;
  distinct = tt;
  fresh = tt;
  counted = refl;
}

-- The source's TestOnEvicted.
abbrev four_adds : Option (Lru Text)
four_adds = do
  c ← add length 9 (codes "key1") (codes "123456") (empty (pos 10))
  c ← add length 9 (codes "k2") (codes "k2") c
  c ← add length 9 (codes "k3") (codes "k3") c
  add length 9 (codes "k4") (codes "k4") c

abbrev evicted_keys : Option (Lru Text) → List Text
evicted_keys none = []
evicted_keys (some c) = map (λ e. e.0) c.evicted

evicted_test : evicted_keys four_adds ≡ codes "key1" ∷ codes "k2" ∷ []
unfolding new_lru add put evict over remove_oldest back drop_back push_front replace lookup insert
    delete unlink element_at ◌+ℤ◌ ◌-ℤ◌ text_dec
evicted_test = refl

get-add_example :
    (c' : Lru Text) × (add length 3 (codes "k2") (codes "v2") (empty (pos 10)) ≡ some c')
    × ((get (codes "k2") c').1 ≡ some (codes "v2"))
get-add_example =
    get-add length 3 10 (codes "k2") (codes "v2") (empty (pos 10)) (unfold new_lru in refl)
      (empty-IsValid (pos 10)) (inr (omega arith)) (unfold new_lru in omega arith)

add-IsEvicted_example :
    (c' : Lru Text) × (add length 3 (codes "k2") (codes "v2") (empty (pos 3)) ≡ some c')
    × IsEvicted length 3 c'
add-IsEvicted_example =
    add-IsEvicted length 3 3 (codes "k2") (codes "v2") (empty (pos 3)) (unfold new_lru in refl)
      (empty-IsValid (pos 3)) (unfold new_lru in omega arith)

add-negative_example : add length 1000 (codes "k2") (codes "v2") (empty (negsuc 0)) ≡ none
add-negative_example =
    add-negative length 1000 0 (codes "k2") (codes "v2") (empty (negsuc 0)) (unfold new_lru in refl)
      (empty-IsValid (negsuc 0))
