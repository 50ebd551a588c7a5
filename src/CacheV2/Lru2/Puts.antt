-- ===== src/CacheV2/Lru2/Puts.antt =====
-- sonnet-cache-v2/store/lru2.go: the three cases of `put` on the list of a level's entries.
use sonnet_pro.Prelude.{
  Option, ℕ, suc, ◌≡◌, ◌≢◌, refl, sym, ◌∙◌, ap, subst, arith, List, [], ◌∷◌, ◌++◌, map, none, some,
  Text, text_dec, inl, inr, ltb, update, ◌<◌, if◌then◌else◌,
}
use sonnet_pro.Prelude.Maps.{lookup, insert, delete, lookup-insert}
use mathlib.Core.List.{append-nil}
use sonnet_pro.Cache.Ring.Order.{In}
use sonnet_pro.CacheV2.Lru2.{Node, Level, to_head, refresh, take_tail, take_new}
use sonnet_pro.CacheV2.Lru2.Chain.{Chain, AreDistinct, In-append_right, AreDistinct-append}
use sonnet_pro.CacheV2.Lru2.Order.{without, without-append, first-without, without-absent}
use sonnet_pro.CacheV2.Lru2.Spec.{
  Shows, store, drop_last, map-update, drop_key-map, entry-present, drop_last-snoc, Chain-last,
}
use sonnet_pro.CacheV2.Lru2.Shows.{to_head-Shows, renode, rekey}
use sonnet_pro.CacheV2.Lru2.Entries.{
  store_present, store_full, store_room, length-map, absent_entry, same_index, update_same,
  front_map, head_link, new_chain,
}

module _ {V : Type 0} where
  -- The refresh of a key that the level has.
  pub refresh-refines :
      (c : Level V) (xs : List ℕ) (i : ℕ) (key : Text) (val : Option V) (e : ℕ)
      → Shows c xs
      → lookup text_dec key c.hmap ≡ some i
      → Shows (refresh i key val e c) (i ∷ without i xs)
        × (map (refresh i key val e c).node (i ∷ without i xs)
            ≡ store c.cap (record { k = key; v = val; expire_at = e }) (map c.node xs))
  unfolding refresh to_head
  refresh-refines c xs i key val e h there =
      let n = record (c.node i) { v = val; expire_at = e } in
      let (j, same) = h.found key i there in
      let new : Node V = record { k = key; v = val; expire_at = e } in
      let n_new : n ≡ new = ap (λ k. record { k = k; v = val; expire_at = e }) same in
      let only = same_index c xs i key h j same in
      (
        to_head-Shows i (record c { node = update c.node i n }) xs (renode i n c xs h refl) j,
        front_map c.node i n xs
            ∙ ap (λ m. m ∷ map c.node (without i xs)) n_new
            ∙ ap (λ m. new ∷ m) (sym (drop_key-map c.node key i xs same only))
            ∙ sym (
                store_present c.cap new (c.node i) (map c.node xs)
                  (entry-present c.node key i xs j same only)),
      )

  -- The reuse of the last entry of a full level.
  pub take_tail-refines :
      (c : Level V) (xs : List ℕ) (key : Text) (val : Option V) (e : ℕ)
      → Shows c xs
      → lookup text_dec key c.hmap ≡ none
      → c.last ≡ c.cap
      → 0 < c.cap
      → let i = c.prev 0 in
        Shows (take_tail key val e c) (i ∷ without i xs)
        × (map (take_tail key val e c).node (i ∷ without i xs)
            ≡ store c.cap (record { k = key; v = val; expire_at = e }) (map c.node xs))
  unfolding take_tail to_head
  take_tail-refines c [] key val e h absent full pos = absurd (ground (arith, h.count, full, pos))
  take_tail-refines c (x ∷ xs) key val e h absent full pos =
      let i = c.prev 0 in
      let n : Node V = record { k = key; v = val; expire_at = e } in
      let tail = c.node i in
      let evicted =
        if ltb 0 tail.expire_at then c.evicted ++ (tail.k, tail.v) ∷ [] else c.evicted in
      let (ys, order) = Chain-last c.next c.prev 0 0 x xs h.linked.chain in
      let j : In i (x ∷ xs) = subst (In i) (sym order) (In-append_right i ys (i ∷ []) (inl refl)) in
      let (d_ys, d_i, apart) =
        AreDistinct-append ys (i ∷ []) (subst AreDistinct order h.linked.distinct) in
      let rest : without i (x ∷ xs) ≡ ys =
        ap (without i) order
        ∙ without-append i ys (i ∷ [])
        ∙ ap (λ q. q ++ without i (i ∷ [])) (without-absent i ys (λ y m. apart y i m (inl refl)))
        ∙ ap (λ q. ys ++ q) (first-without i [] d_i)
        ∙ append-nil ys in
      (
        to_head-Shows i
            (record c {
              evicted = evicted;
              hmap = insert text_dec key i (delete text_dec tail.k c.hmap);
              node = update c.node i n;
            })
            (x ∷ xs) (rekey i n evicted c (x ∷ xs) h j absent) j,
        front_map c.node i n (x ∷ xs)
            ∙ ap (λ m. n ∷ map c.node m) rest
            ∙ ap (λ m. n ∷ m)
                (sym (ap (λ m. drop_last (map c.node m)) order ∙ drop_last-snoc c.node i ys))
            ∙ sym (
                store_full c.cap n (map c.node (x ∷ xs)) (absent_entry c (x ∷ xs) key h absent)
                  (length-map c.node (x ∷ xs) ∙ h.count ∙ full)),
      )

  -- The first use of a place.
  pub take_new-refines :
      (c : Level V) (xs : List ℕ) (key : Text) (val : Option V) (e : ℕ)
      → Shows c xs
      → lookup text_dec key c.hmap ≡ none
      → c.last ≢ c.cap
      → Shows (take_new key val e c) (suc c.last ∷ xs)
        × (map (take_new key val e c).node (suc c.last ∷ xs)
            ≡ store c.cap (record { k = key; v = val; expire_at = e }) (map c.node xs))
  unfolding take_new
  take_new-refines c xs key val e h absent room =
      let last = suc c.last in
      let n : Node V = record { k = key; v = val; expire_at = e } in
      let fresh : (x : ℕ) → In x xs → x ≢ last = λ x i. let le = h.range x i in omega (arith, le) in
      (
        record {
          linked = record {
            chain =
                subst
                  (λ q.
                    Chain (update (update c.next last (c.next 0)) 0 last) (update q last 0) 0
                      (last ∷ xs) 0)
                  (sym (head_link c xs last h)) (new_chain c xs h);
            distinct = (fresh, h.linked.distinct);
            positive = λ x i. elim i [ inl q ↦ omega (arith, q) | inr j ↦ h.linked.positive x j ];
          };
          count = ap suc h.count;
          room = h.room;
          within = let le = h.within in omega (arith, le, room);
          range = λ x i. elim i [
            | inl q ↦ omega (arith, q)
            | inr j ↦ let le = h.range x j in omega (arith, le)
          ];
          keyed = λ x i.
              rw (lookup-insert text_dec key (update c.node last n x).k last c.hmap) (elim i [
                | inl q ↦ ground (arith, q)
                | inr j ↦
                    let at_x = h.keyed x j in
                    let other = fresh x j in
                    let new : (c.node x).k ≢ key = λ p.
                      let at_key = subst (λ z. lookup text_dec z c.hmap ≡ some x) p at_x in
                      ground (arith, at_key, absent) in
                    ground (arith, at_x, other, new)
              ]);
          found = λ k x q.
              let r = sym (lookup-insert text_dec key k last c.hmap) ∙ q in
              elim (text_dec key k) [
                | yes p ↦
                    let x_last : x ≡ last = ground (arith, r, p) in
                    (inl x_last, ground (arith, x_last, p))
                | no p ↦
                    let at_k : lookup text_dec k c.hmap ≡ some x = ground (arith, r, p) in
                    let (j, e) = h.found k x at_k in
                    let other = fresh x j in (inr j, ground (arith, other, e))
              ];
        },
        ap (λ m. m ∷ map (update c.node last n) xs) (update_same c.node last n)
            ∙ ap (λ m. n ∷ m) (map-update c.node last n xs fresh)
            ∙ sym (
                store_room c.cap n (map c.node xs) (absent_entry c xs key h absent)
                  (λ q. room (sym h.count ∙ sym (length-map c.node xs) ∙ q))),
      )
