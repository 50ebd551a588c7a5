-- ===== src/CacheV2/Lru2/Entries.antt =====
-- sonnet-cache-v2/store/lru2.go: entries and links of a level that shows a list.
use sonnet_pro.Prelude.{
  ℕ, suc, ◌≡◌, ◌≢◌, refl, sym, ◌∙◌, ap, subst, arith, List, [], ◌∷◌, map, none, some, Text,
  text_dec, length, inl, inr, update, ◌==◌, if◌then◌else◌, ℕ_discrete,
}
use sonnet_pro.Prelude.Maps.{lookup}
use sonnet_pro.Cache.Ring.Order.{In}
use sonnet_pro.CacheV2.Lru2.{Node, Level}
use sonnet_pro.CacheV2.Lru2.Chain.{Chain, first_In, Chain-reroot}
use sonnet_pro.CacheV2.Lru2.Order.{without, without-In}
use sonnet_pro.CacheV2.Lru2.Spec.{
  Shows, store, drop_key, entry, drop_last, map-update, entry-absent,
}
use sonnet_pro.CacheV2.Lru2.Shows.{Shows-injective}

pub lookup_empty : (k : Text) (m : List (Text × ℕ)) → length m ≡ 0 → lookup text_dec k m ≡ none
unfolding lookup
lookup_empty k [] e = refl
lookup_empty k (p ∷ m) e = ground (arith, e)

module _ {V : Type 0} where
  pub store_present :
      (size : ℕ) (n old : Node V) (ns : List (Node V))
      → entry n.k ns ≡ some old
      → store size n ns ≡ n ∷ drop_key n.k ns
  store_present size n old ns there = rw (there, store) refl

  pub store_full :
      (size : ℕ) (n : Node V) (ns : List (Node V))
      → entry n.k ns ≡ none
      → length ns ≡ size
      → store size n ns ≡ n ∷ drop_last ns
  store_full size n ns absent full = rw (absent, store) ground (arith, full)

  pub store_room :
      (size : ℕ) (n : Node V) (ns : List (Node V))
      → entry n.k ns ≡ none
      → length ns ≢ size
      → store size n ns ≡ n ∷ ns
  store_room size n ns absent room = rw (absent, store) ground (arith, room)

  pub length-map : (node : ℕ → Node V) (xs : List ℕ) → length (map node xs) ≡ length xs
  length-map node [] = refl
  length-map node (x ∷ xs) = ap suc (length-map node xs)

  pub absent_entry :
      (c : Level V) (xs : List ℕ) (k : Text)
      → Shows c xs
      → lookup text_dec k c.hmap ≡ none
      → entry k (map c.node xs) ≡ none
  absent_entry c xs k h absent = entry-absent c.node k xs (λ y i e.
      let at_k = subst (λ q. lookup text_dec q c.hmap ≡ some y) e (h.keyed y i) in
      ground (arith, at_k, absent))

  pub same_index :
      (c : Level V) (xs : List ℕ) (i : ℕ) (k : Text)
      → Shows c xs
      → In i xs
      → (c.node i).k ≡ k
      → (y : ℕ) → In y xs
      → (c.node y).k ≡ k
      → y ≡ i
  same_index c xs i k h j e y m q = Shows-injective c xs h y i m j (q ∙ sym e)

  pub update_same : (node : ℕ → Node V) (i : ℕ) (n : Node V) → update node i n i ≡ n
  update_same node i n = ground arith

  pub front_map :
      (node : ℕ → Node V) (i : ℕ) (n : Node V) (xs : List ℕ)
      → map (update node i n) (i ∷ without i xs) ≡ n ∷ map node (without i xs)
  front_map node i n xs =
      let rest = map-update node i n (without i xs) (λ y j. (without-In i y xs j).1) in
      ground (arith, rest)

  -- Where no key is there, the list has no entry.
  pub empty_head : (c : Level V) (xs : List ℕ) → Shows c xs → length c.hmap ≡ 0 → c.next 0 ≡ 0
  empty_head c [] h e = h.linked.chain.0
  empty_head c (x ∷ xs) h e =
      let at_x = h.keyed x (inl refl) in
      let nowhere = lookup_empty (c.node x).k c.hmap e in ground (arith, at_x, nowhere)

  pub head_link :
      (c : Level V) (xs : List ℕ) (last : ℕ)
      → Shows c xs
      → (if length c.hmap == 0 then update c.prev 0 last else update c.prev (c.next 0) last)
        ≡ update c.prev (c.next 0) last
  head_link c xs last h = elim (ℕ_discrete (length c.hmap) 0) [
    | yes e ↦ rw (empty_head c xs h e) ground (arith, e)
    | no n ↦ ground (arith, n)
  ]

  pub new_chain :
      (c : Level V) (xs : List ℕ)
      → Shows c xs
      → let last = suc c.last in
        Chain
          (update (update c.next last (c.next 0)) 0 last)
          (update (update c.prev (c.next 0) last) last 0)
          0
          (last ∷ xs)
          0
  new_chain c xs h =
      let last = suc c.last in
      let t' = update (update c.next last (c.next 0)) 0 last in
      let f' = update (update c.prev (c.next 0) last) last 0 in
      let fresh : (x : ℕ) → In x xs → x ≢ last = λ x i. let le = h.range x i in omega (arith, le) in
      let head : c.next 0 ≢ last = elim (first_In c.next c.prev 0 0 xs h.linked.chain) [
        | inl i ↦ fresh (c.next 0) i
        | inr e ↦ omega (arith, e)
      ] in
      (
        refl,
        ground arith,
        Chain-reroot c.next c.prev t' f' 0 last 0 xs h.linked.distinct h.linked.positive
            (ground arith) (ground (arith, head))
            (λ x i.
              let pos = h.linked.positive x i in
              let other = fresh x i in ground (arith, pos, other))
            (λ x n i. elim i [
              | inl j ↦ let other = fresh x j in ground (arith, n, other)
              | inr e ↦ ground (arith, n, e)
            ])
            h.linked.chain,
      )
