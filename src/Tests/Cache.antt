-- ===== src/Tests/Cache.antt =====
-- sonnet-cache on small inputs.
use sonnet_pro.Prelude.Maps.{lookup, insert}
use sonnet_pro.Prelude.{
  ℕ, ◌+◌, ◌-◌, ◌*◌, ◌≡◌, refl, arith, inl, inr, [], ◌∷◌, Text, codes, itoa, ℕ_discrete, ◌⊎◌,
}
use sonnet_pro.Cache.Ring.{
  Ring, new_ring, insert_sorted, sort_ints, sort_search, add_replicas, add_keys, add, node_at,
  find_index, get,
}
use sonnet_pro.Cache.Ring.Owner.{get-owner, get-add_moved}

-- The hash of the source's test: a decimal number is its own hash.
abbrev atoi_from : ℕ → Text → ℕ
atoi_from n [] = n
atoi_from n (c ∷ cs) = atoi_from (10 * n + (c - 48)) cs

abbrev atoi : Text → ℕ
atoi = atoi_from 0

abbrev three_nodes : Ring
three_nodes = add atoi (codes "6" ∷ codes "4" ∷ codes "2" ∷ []) (new_ring 3)

-- The source's test.
keys_test : three_nodes.keys ≡ 2 ∷ 4 ∷ 6 ∷ 12 ∷ 14 ∷ 16 ∷ 22 ∷ 24 ∷ 26 ∷ []
unfolding add add_keys add_replicas new_ring sort_ints insert_sorted insert itoa
keys_test = refl

get_test : get atoi (codes "27") three_nodes ≡ codes "2"
unfolding get find_index sort_search node_at add add_keys add_replicas new_ring sort_ints
    insert_sorted insert lookup itoa ℕ_discrete
get_test = refl

abbrev two_points : Ring
two_points = record {
  replicas = 1;
  keys = 2 ∷ 4 ∷ [];
  hash_map = (2, codes "2") ∷ (4, codes "4") ∷ [];
}

get-owner_example : get atoi (codes "3") two_points ≡ node_at two_points 4
get-owner_example =
    get-owner atoi (codes "3") two_points 4 ((omega arith, tt), (tt, tt))
      (record { member = inr (inl refl); nearest = inl (omega arith, λ q i le. ground arith) })

get-add_moved_example :
    (get atoi (codes "3") (add atoi (codes "3" ∷ []) two_points) ≡ get atoi (codes "3") two_points)
    ⊎ (get atoi (codes "3") (add atoi (codes "3" ∷ []) two_points) ≡ codes "3")
get-add_moved_example =
    get-add_moved atoi (codes "3") (codes "3") two_points ((omega arith, tt), (tt, tt))
