-- ===== src/CacheV2/Lru2/Answers.antt =====
-- sonnet-cache-v2/store/lru2.go: `get` and `del` of a level, on the list that it shows, and their answers.
use sonnet_pro.Prelude.{
  ℕ, suc, ◌≡◌, ◌≢◌, refl, sym, ◌∙◌, ap, subst, arith, List, [], ◌∷◌, ◌++◌, map, none, some, Text,
  text_dec, length, inl, inr, ltb, update, ℕ_discrete, Option-cases, Bool-cases, true, false,
}
use sonnet_pro.Prelude.Maps.{lookup}
use sonnet_pro.Cache.Ring.Order.{In}
use sonnet_pro.CacheV2.Lru2.{Node, Level, adjust, to_head, to_tail, get, del}
use sonnet_pro.CacheV2.Lru2.Chain.{In-append_left, In-append_right, In-append_cases}
use sonnet_pro.CacheV2.Lru2.Order.{without, without-In, without-keeps, length-without}
use sonnet_pro.CacheV2.Lru2.Reverse.{adjust-IsLinked_tail}
use sonnet_pro.CacheV2.Lru2.Spec.{
  Shows, touch, retire, retired, drop_key, entry, drop_key-map, entry-present,
}
use sonnet_pro.CacheV2.Lru2.Shows.{to_head-Shows, renode, reorder}
use sonnet_pro.CacheV2.Lru2.Entries.{absent_entry, same_index, update_same}
use sonnet_pro.CacheV2.Lru2.Refines.{IsView, Returns}
use sonnet_pro.CacheV2.Lru2.Inside.{nodes_inside, head_adjusts, tail_adjusts}

length-snoc : (xs : List ℕ) (i : ℕ) → length (xs ++ i ∷ []) ≡ suc (length xs)
length-snoc [] i = refl
length-snoc (x ∷ xs) i = ap suc (length-snoc xs i)

module _ {V : Type 0} where
  touch_known :
      (k : Text) (n : Node V) (ns : List (Node V))
      → entry k ns ≡ some n
      → touch k ns ≡ n ∷ drop_key k ns
  touch_known k n ns there = rw (there, touch) refl

  touch_absent : (k : Text) (ns : List (Node V)) → entry k ns ≡ none → touch k ns ≡ ns
  touch_absent k ns absent = rw (absent, touch) refl

  get_known :
      (c : Level V) (xs : List ℕ) (key : Text) (i : ℕ)
      → Shows c xs
      → In i xs
      → lookup text_dec key c.hmap ≡ some i
      → get key c ≡ some (to_head i c, some (c.node i))
  unfolding get
  get_known c xs key i h j there =
      rw (there, get, nodes_inside c xs h i j, head_adjusts c xs h i j) refl

  get_absent :
      (c : Level V) (key : Text) → lookup text_dec key c.hmap ≡ none → get key c ≡ some (c, none)
  unfolding get
  get_absent c key absent = rw (absent, get) refl

  get_shown :
      (c : Level V) (xs : List ℕ) (key : Text)
      → Shows c xs
      → let ns = map c.node xs in Returns c (get key c) (touch key ns) (entry key ns)
  unfolding to_head
  get_shown c xs key h =
      let ns = map c.node xs in
      elim (Option-cases (lookup text_dec key c.hmap)) [
        | inl absent ↦
            let nothing = absent_entry c xs key h absent in
            (
              c,
              get_absent c key absent ∙ ap (λ a. some (c, a)) (sym nothing),
              (xs, h, sym (touch_absent key ns nothing)),
              refl,
            )
        | inr known ↦
            let (i, there) = known in
            let (j, e) = h.found key i there in
            let only = same_index c xs i key h j e in
            let present = entry-present c.node key i xs j e only in
            (
              to_head i c,
              get_known c xs key i h j there ∙ ap (λ a. some (to_head i c, a)) (sym present),
              (
                i ∷ without i xs,
                to_head-Shows i c xs h j,
                ap (λ q. c.node i ∷ q) (sym (drop_key-map c.node key i xs e only))
                    ∙ sym (touch_known key (c.node i) ns present),
              ),
              refl,
            )
      ]

  -- `get` returns, moves the key's entry to the front of the list that the level shows, and answers it.
  pub get-IsView :
      (c : Level V) (ns : List (Node V)) (key : Text)
      → IsView c ns
      → Returns c (get key c) (touch key ns) (entry key ns)
  get-IsView c ns key (xs, h, same) =
      subst (λ q. Returns c (get key c) (touch key q) (entry key q)) same (get_shown c xs key h)

  to_tail-Shows :
      (i : ℕ) (c : Level V) (xs : List ℕ)
      → Shows c xs
      → In i xs
      → Shows (to_tail i c) (without i xs ++ i ∷ [])
  unfolding to_tail
  to_tail-Shows i c xs h j =
      reorder c xs (without i xs ++ i ∷ []) (adjust i c.next c.prev).0 (adjust i c.next c.prev).1 h
        (adjust-IsLinked_tail c.next c.prev i xs h.linked j)
        (length-snoc (without i xs) i ∙ length-without i xs h.linked.distinct j)
        (λ x k. elim (In-append_cases x (without i xs) (i ∷ []) k) [
          | inl m ↦ (without-In i x xs m).0
          | inr m ↦ elim m [ inl e ↦ subst (λ z. In z xs) (sym e) j | inr z ↦ absurd z ]
        ])
        (λ x k. elim (ℕ_discrete x i) [
          | yes e ↦ In-append_right x (without i xs) (i ∷ []) (inl e)
          | no n ↦ In-append_left x (without i xs) (i ∷ []) (without-keeps i x xs k n)
        ])

  retire_live :
      (k : Text) (n : Node V) (ns : List (Node V))
      → entry k ns ≡ some n
      → ltb 0 n.expire_at ≡ true
      → (retire k ns ≡ drop_key k ns ++ record n { expire_at = 0 } ∷ [])
        × (retired k ns ≡ some (record n { expire_at = 0 }, n.expire_at))
  retire_live k n ns there live = (rw (there, live, retire) refl, rw (there, live, retired) refl)

  retire_dead :
      (k : Text) (n : Node V) (ns : List (Node V))
      → entry k ns ≡ some n
      → ltb 0 n.expire_at ≡ false
      → (retire k ns ≡ ns) × (retired k ns ≡ none)
  retire_dead k n ns there dead = (rw (there, dead, retire) refl, rw (there, dead, retired) refl)

  retire_absent :
      (k : Text) (ns : List (Node V))
      → entry k ns ≡ none
      → (retire k ns ≡ ns) × (retired k ns ≡ none)
  retire_absent k ns absent = (rw (absent, retire) refl, rw (absent, retired) refl)

  del_live :
      (c : Level V) (xs : List ℕ) (key : Text) (i : ℕ)
      → Shows c xs
      → In i xs
      → lookup text_dec key c.hmap ≡ some i
      → ltb 0 (c.node i).expire_at ≡ true
      → let n = record (c.node i) { expire_at = 0 } in
        del key c
        ≡ some (to_tail i (record c { node = update c.node i n }), some (n, (c.node i).expire_at))
  unfolding del
  del_live c xs key i h j there live =
      rw (there, live, del, nodes_inside c xs h i j, tail_adjusts c xs h i j) refl

  del_dead :
      (c : Level V) (xs : List ℕ) (key : Text) (i : ℕ)
      → Shows c xs
      → In i xs
      → lookup text_dec key c.hmap ≡ some i
      → ltb 0 (c.node i).expire_at ≡ false
      → del key c ≡ some (c, none)
  unfolding del
  del_dead c xs key i h j there dead = rw (there, dead, del, nodes_inside c xs h i j) refl

  del_absent :
      (c : Level V) (key : Text) → lookup text_dec key c.hmap ≡ none → del key c ≡ some (c, none)
  unfolding del
  del_absent c key absent = rw (absent, del) refl

  tail_map :
      (node : ℕ → Node V) (i : ℕ) (n : Node V) (xs : List ℕ)
      → ((y : ℕ) → In y xs → y ≢ i)
      → map (update node i n) (xs ++ i ∷ []) ≡ map node xs ++ n ∷ []
  tail_map node i n [] h = ap (λ m. m ∷ []) (update_same node i n)
  tail_map node i n (x ∷ xs) h =
      ground (arith, h x (inl refl), tail_map node i n xs (λ y j. h y (inr j)))

  del_shown :
      (c : Level V) (xs : List ℕ) (key : Text)
      → Shows c xs
      → let ns = map c.node xs in Returns c (del key c) (retire key ns) (retired key ns)
  unfolding to_tail
  del_shown c xs key h =
      let ns = map c.node xs in
      elim (Option-cases (lookup text_dec key c.hmap)) [
        | inl absent ↦
            let (same, none_) = retire_absent key ns (absent_entry c xs key h absent) in
            (
              c,
              del_absent c key absent ∙ ap (λ a. some (c, a)) (sym none_),
              (xs, h, sym same),
              refl,
            )
        | inr known ↦
            let (i, there) = known in
            let (j, e) = h.found key i there in
            let only = same_index c xs i key h j e in
            let present = entry-present c.node key i xs j e only in
            let n = record (c.node i) { expire_at = 0 } in
            elim (Bool-cases (ltb 0 (c.node i).expire_at)) [
              | inl live ↦
                  let (list, answer) = retire_live key (c.node i) ns present live in
                  let c' = to_tail i (record c { node = update c.node i n }) in
                  (
                    c',
                    del_live c xs key i h j there live ∙ ap (λ a. some (c', a)) (sym answer),
                    (
                      without i xs ++ i ∷ [],
                      to_tail-Shows i (record c { node = update c.node i n }) xs
                          (renode i n c xs h refl) j,
                      tail_map c.node i n (without i xs) (λ y m. (without-In i y xs m).1)
                          ∙ ap (λ q. q ++ n ∷ []) (sym (drop_key-map c.node key i xs e only))
                          ∙ sym list,
                    ),
                    refl,
                  )
              | inr dead ↦
                  let (list, answer) = retire_dead key (c.node i) ns present dead in
                  (
                    c,
                    del_dead c xs key i h j there dead ∙ ap (λ a. some (c, a)) (sym answer),
                    (xs, h, sym list),
                    refl,
                  )
            ]
      ]

  -- `del` returns, marks the key's entry, unless it is marked, and moves it to the end of the list that
  -- the level shows; it answers the marked entry and the expiration that it had.
  pub del-IsView :
      (c : Level V) (ns : List (Node V)) (key : Text)
      → IsView c ns
      → Returns c (del key c) (retire key ns) (retired key ns)
  del-IsView c ns key (xs, h, same) =
      subst (λ q. Returns c (del key c) (retire key q) (retired key q)) same (del_shown c xs key h)
