-- ===== src/CacheV2/Lru2/Refines.antt =====
-- sonnet-cache-v2/store/lru2.go: `put`, `get` and `del` of a level are operations on the list of its
-- entries, the most recent first.
use sonnet_pro.Prelude.{
  Option, ℕ, suc, ◌≡◌, ◌≢◌, refl, sym, subst, arith, List, [], ◌∷◌, map, none, some, Text, text_dec,
  inl, inr, ◌^◌, ◌⊎◌, ◌∙◌, length, ap, true, ◌<◌, ℕ_discrete, Option-cases,
}
use sonnet_pro.Prelude.Maps.{lookup}
use sonnet_pro.Cache.Ring.Order.{In}
use sonnet_pro.CacheV2.Lru2.{
  Node, Level, refresh, take_tail, take_new, to_head, put, create, in_links, in_nodes,
}
use sonnet_pro.CacheV2.Lru2.Inside.{links_inside, nodes_inside, head_inside, head_adjusts, tail_In}
use sonnet_pro.CacheV2.Lru2.Order.{without}
use sonnet_pro.CacheV2.Lru2.Spec.{Shows, store, entry, entry-present}
use sonnet_pro.CacheV2.Lru2.Entries.{absent_entry, same_index}
use sonnet_pro.CacheV2.Lru2.Puts.{refresh-refines, take_tail-refines, take_new-refines}

list_cases : (xs : List ℕ) → (xs ≡ []) ⊎ ((x : ℕ) × (rest : List ℕ) × (xs ≡ x ∷ rest))
list_cases [] = inl refl
list_cases (x ∷ xs) = inr (x, xs, refl)

module _ {V : Type 0} where
  -- A level shows a list of entries when it has them in some order of its indices.
  abbrev pub IsView : Level V → List (Node V) → Type 0
  IsView c ns = (xs : List ℕ) × Shows c xs × (map c.node xs ≡ ns)

  -- A level whose `dlnk` has a place for the sentinel.
  pub create-IsView : (size : ℕ) → suc size < 2 ^ 16 → IsView (create {V = V} size) []
  unfolding create lookup
  create-IsView size fits = (
    [],
    record {
      linked = record { chain = (refl, refl); distinct = tt; positive = λ x i. absurd i };
      count = refl;
      within = omega arith;
      room = omega (arith, fits);
      range = λ x i. absurd i;
      keyed = λ x i. absurd i;
      found = λ k x e. ground (arith, e);
    },
    refl,
  )

  put_known :
      (c : Level V) (xs : List ℕ) (key : Text) (val : Option V) (e i : ℕ)
      → Shows c xs
      → In i xs
      → lookup text_dec key c.hmap ≡ some i
      → put key val e c ≡ some (refresh i key val e c, 0)
  unfolding put
  put_known c xs key val e i h j there =
      rw (there, put, nodes_inside c xs h i j, head_adjusts c xs h i j) refl

  put_full :
      (c : Level V) (xs : List ℕ) (key : Text) (val : Option V) (e : ℕ)
      → Shows c xs
      → lookup text_dec key c.hmap ≡ none
      → 0 < c.cap
      → c.last ≡ c.cap
      → put key val e c ≡ some (take_tail key val e c, 1)
  unfolding put
  put_full c xs key val e h absent pos full = elim (list_cases xs) [
    | inl none_ ↦
        let count = h.count in
        let empty : length xs ≡ 0 = ap length none_ in
        absurd (omega (arith, count, empty, full, pos))
    | inr some_ ↦
        let (x, rest, order) = some_ in
        let i = tail_In c xs h x rest order in
        let zero_in = links_inside c xs h 0 (inr refl) in
        let node_in = nodes_inside c xs h (c.prev 0) i in
        let adjusts = head_adjusts c xs h (c.prev 0) i in
        rw (absent, put) (ground (arith, full, zero_in, node_in, adjusts))
  ]

  new_inside :
      (c : Level V) (xs : List ℕ)
      → Shows c xs
      → c.last ≢ c.cap
      → (in_nodes c (suc c.last) ≡ true) × (in_links c (suc c.last) ≡ true)
  unfolding in_nodes in_links
  new_inside c xs h room =
      let most = h.within in
      let size = h.room in (ground (arith, most, room), ground (arith, most, room, size))

  put_room :
      (c : Level V) (xs : List ℕ) (key : Text) (val : Option V) (e : ℕ)
      → Shows c xs
      → lookup text_dec key c.hmap ≡ none
      → c.last ≢ c.cap
      → put key val e c ≡ some (take_new key val e c, 1)
  unfolding put
  put_room c xs key val e h absent room =
      let (node_in, link_in) = new_inside c xs h room in
      let zero_in = links_inside c xs h 0 (inr refl) in
      let head_in = head_inside c xs h in
      rw (absent, put) (ground (arith, room, zero_in, head_in, node_in, link_in))

  -- A method of a level that returns, with an answer, and leaves a level of the same size that shows a
  -- list.
  abbrev pub Returns : {A : Type 0} → Level V → Option (Level V × A) → List (Node V) → A → Type 0
  Returns c o ns a = (c' : Level V) × (o ≡ some (c', a)) × IsView c' ns × (c'.cap ≡ c.cap)

  -- What `put` answers: 1 for a new key.
  abbrev pub added : Text → List (Node V) → ℕ
  added key ns = elim (entry key ns) [ some n ↦ 0 | none ↦ 1 ]

  added_known :
      (key : Text) (n : Node V) (ns : List (Node V)) → entry key ns ≡ some n → added key ns ≡ 0
  added_known key n ns there = rw (there, added) refl

  added_new : (key : Text) (ns : List (Node V)) → entry key ns ≡ none → added key ns ≡ 1
  added_new key ns absent = rw (absent, added) refl

  -- `put` on a level that shows a list.
  put_shown :
      (c : Level V) (xs : List ℕ) (key : Text) (val : Option V) (e : ℕ)
      → 0 < c.cap
      → Shows c xs
      → let n : Node V = record { k = key; v = val; expire_at = e } in
        let ns = map c.node xs in Returns c (put key val e c) (store c.cap n ns) (added key ns)
  unfolding refresh take_tail take_new to_head
  put_shown c xs key val e pos h =
      let ns = map c.node xs in
      elim (Option-cases (lookup text_dec key c.hmap)) [
        | inr known ↦
            let (i, there) = known in
            let (j, same) = h.found key i there in
            let (shown, entries) = refresh-refines c xs i key val e h there in
            let only = same_index c xs i key h j same in
            let old = added_known key (c.node i) ns (entry-present c.node key i xs j same only) in
            (
              refresh i key val e c,
              put_known c xs key val e i h j there
                  ∙ ap (λ a. some (refresh i key val e c, a)) (sym old),
              (i ∷ without i xs, shown, entries),
              refl,
            )
        | inl absent ↦
            let new = added_new key ns (absent_entry c xs key h absent) in
            elim (ℕ_discrete c.last c.cap) [
              | yes full ↦
                  let (shown, entries) = take_tail-refines c xs key val e h absent full pos in
                  (
                    take_tail key val e c,
                    put_full c xs key val e h absent pos full
                        ∙ ap (λ a. some (take_tail key val e c, a)) (sym new),
                    (c.prev 0 ∷ without (c.prev 0) xs, shown, entries),
                    refl,
                  )
              | no room ↦
                  let (shown, entries) = take_new-refines c xs key val e h absent room in
                  (
                    take_new key val e c,
                    put_room c xs key val e h absent room
                        ∙ ap (λ a. some (take_new key val e c, a)) (sym new),
                    (suc c.last ∷ xs, shown, entries),
                    refl,
                  )
            ]
      ]

  -- On a level with room for an entry, `put` returns, stores the entry in the list that the level shows
  -- and answers 1 for a new key.
  pub put-IsView :
      (c : Level V) (ns : List (Node V)) (key : Text) (val : Option V) (e : ℕ)
      → 0 < c.cap
      → IsView c ns
      → let n : Node V = record { k = key; v = val; expire_at = e } in
        Returns c (put key val e c) (store c.cap n ns) (added key ns)
  put-IsView c ns key val e pos (xs, h, same) =
      let n : Node V = record { k = key; v = val; expire_at = e } in
      subst (λ q. Returns c (put key val e c) (store c.cap n q) (added key q)) same
        (put_shown c xs key val e pos h)
