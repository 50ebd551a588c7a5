-- ===== src/CacheV2/Lru2/Shows.antt =====
-- sonnet-cache-v2/store/lru2.go: the steps of `put`, `get` and `del` keep what a level shows.
use sonnet_pro.Prelude.{
  ℕ, ◌≡◌, ◌≢◌, sym, ◌∙◌, ap, subst, arith, List, ◌∷◌, Option, none, some, Text, text_dec, length,
  inl, inr, update, ite, ℕ_discrete,
}
use sonnet_pro.Prelude.Maps.{lookup, insert, delete, lookup-insert, lookup-delete}
use sonnet_pro.Cache.Ring.Order.{In}
use sonnet_pro.CacheV2.Lru2.{Node, Level, adjust, to_head}
use sonnet_pro.CacheV2.Lru2.Moves.{IsLinked}
use sonnet_pro.CacheV2.Lru2.Order.{
  without, without-In, without-keeps, length-without, adjust-IsLinked,
}
use sonnet_pro.CacheV2.Lru2.Spec.{Shows}

module _ {V : Type 0} where
  -- Two indices with one key are one index.
  pub Shows-injective :
      (c : Level V) (xs : List ℕ)
      → Shows c xs
      → (x y : ℕ) → In x xs
      → In y xs
      → (c.node x).k ≡ (c.node y).k
      → x ≡ y
  Shows-injective c xs h x y i j e =
      let at_x = h.keyed x i in
      let at_y = subst (λ k. lookup text_dec k c.hmap ≡ some y) (sym e) (h.keyed y j) in
      ground (arith, at_x, at_y)

  -- The same indices in another order.
  pub reorder :
      (c : Level V) (xs ys : List ℕ) (next prev : ℕ → ℕ)
      → Shows c xs
      → IsLinked next prev ys
      → length ys ≡ length xs
      → ((x : ℕ) → In x ys → In x xs)
      → ((x : ℕ) → In x xs → In x ys)
      → Shows (record c { prev = prev; next = next }) ys
  reorder c xs ys next prev h linked len to from = record {
    linked = linked;
    count = len ∙ h.count;
    within = h.within;
    room = h.room;
    range = λ x i. h.range x (to x i);
    keyed = λ x i. h.keyed x (to x i);
    found = λ k x e. let (i, q) = h.found k x e in (from x i, q);
  }

  pub to_head-Shows :
      (i : ℕ) (c : Level V) (xs : List ℕ)
      → Shows c xs
      → In i xs
      → Shows (to_head i c) (i ∷ without i xs)
  unfolding to_head
  to_head-Shows i c xs h j =
      reorder c xs (i ∷ without i xs) (adjust i c.prev c.next).1 (adjust i c.prev c.next).0 h
        (adjust-IsLinked c.next c.prev i xs h.linked j) (length-without i xs h.linked.distinct j)
        (λ x k. elim k [ inl e ↦ subst (λ z. In z xs) (sym e) j | inr m ↦ (without-In i x xs m).0 ])
        (λ x k. elim (ℕ_discrete x i) [ yes e ↦ inl e | no n ↦ inr (without-keeps i x xs k n) ])

  -- A node that keeps its key.
  pub renode :
      (i : ℕ) (n : Node V) (c : Level V) (xs : List ℕ)
      → Shows c xs
      → n.k ≡ (c.node i).k
      → Shows (record c { node = update c.node i n }) xs
  renode i n c xs h e = record {
    linked = h.linked;
    count = h.count;
    within = h.within;
    room = h.room;
    range = h.range;
    keyed = λ x j. let k = h.keyed x j in ground (arith, k, e);
    found = λ k x q. let (j, r) = h.found k x q in (j, ground (arith, r, e));
  }

  -- A node that takes over the index of another key.
  pub rekey :
      (i : ℕ) (n : Node V) (evicted : List (Text × Option V)) (c : Level V) (xs : List ℕ)
      → Shows c xs
      → In i xs
      → lookup text_dec n.k c.hmap ≡ none
      → Shows
          (record c {
            evicted = evicted;
            hmap = insert text_dec n.k i (delete text_dec (c.node i).k c.hmap);
            node = update c.node i n;
          })
          xs
  rekey i n evicted c xs h j absent =
      let old = (c.node i).k in
      let law : (k : Text)
          → lookup text_dec k (insert text_dec n.k i (delete text_dec old c.hmap))
            ≡ ite (text_dec n.k k) (some i) (ite (text_dec old k) none (lookup text_dec k c.hmap)) =
        λ k.
          lookup-insert text_dec n.k k i (delete text_dec old c.hmap)
          ∙ ap (ite (text_dec n.k k) (some i)) (lookup-delete text_dec old k c.hmap) in
      record {
        linked = h.linked;
        count = h.count;
        within = h.within;
        room = h.room;
        range = h.range;
        keyed = λ x m.
            let at_x = h.keyed x m in
            let same = Shows-injective c xs h x i m j in
            let new : (c.node x).k ≢ n.k = λ e.
              let at_new = subst (λ k. lookup text_dec k c.hmap ≡ some x) e at_x in
              ground (arith, at_new, absent) in
            rw (law ((update c.node i n x).k)) ground (arith, at_x, same, new);
        found = λ k x q.
            let r = sym (law k) ∙ q in
            elim (text_dec n.k k) [
              | yes e ↦
                  let x_i : x ≡ i = ground (arith, r, e) in
                  (subst (λ z. In z xs) (sym x_i) j, ground (arith, x_i, e))
              | no other_new ↦
                  let at_k : lookup text_dec k c.hmap ≡ some x = ground (arith, r, other_new) in
                  let other : old ≢ k = ground (arith, r, other_new) in
                  let (m, e) = h.found k x at_k in
                  let apart : x ≢ i = λ p. other (subst (λ z. (c.node z).k ≡ k) p e) in
                  (m, ground (arith, apart, e))
            ];
      }
