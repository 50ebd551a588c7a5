-- ===== src/CacheV2/Lru2/Runs.antt =====
-- sonnet-cache-v2/store/lru2.go: sequences of calls on a level, and `walk` over its entries.
use sonnet_pro.Prelude.{
  ℕ, zero, suc, ◌≡◌, refl, sym, ◌∙◌, ap, subst, arith, List, [], ◌∷◌, map, Option, none, some, Text,
  length, ltb, ◌≢◌, ◌≤◌, ◌<◌, ◌^◌, if◌then◌else◌, inl, inr, true,
}
use sonnet_pro.Cache.Ring.Order.{In}
use sonnet_pro.CacheV2.Lru2.{
  Node, Level, put, get, del, create, walk, walk_from, in_links, in_nodes,
}
use sonnet_pro.CacheV2.Lru2.Chain.{Chain}
use sonnet_pro.CacheV2.Lru2.Inside.{nodes_inside, links_inside}
use sonnet_pro.CacheV2.Lru2.Spec.{store, touch, retire, retired, entry}
use sonnet_pro.CacheV2.Lru2.Refines.{IsView, Returns, added, put-IsView, create-IsView}
use sonnet_pro.CacheV2.Lru2.Answers.{get-IsView, del-IsView}

pub data Call (V : Type 0) : Type 0 where
  puts : Text → Option V → ℕ → Call V
  gets : Text → Call V
  dels : Text → Call V

pub data Answer (V : Type 0) : Type 0 where
  stored : ℕ → Answer V
  got : Option (Node V) → Answer V
  deleted : Option (Node V × ℕ) → Answer V

module _ {V : Type 0} where
  abbrev pub answer_by :
      {A : Type 0} → (A → Answer V) → Option (Level V × A) → Option (Level V × Answer V)
  answer_by f none = none
  answer_by f (some (c, a)) = some (c, f a)

  unfoldable pub step : Call V → Level V → Option (Level V × Answer V)
  unfolding put get del
  step (puts key val e) c = answer_by stored (put key val e c)
  step (gets key) c = answer_by got (get key c)
  step (dels key) c = answer_by deleted (del key c)

  abbrev pub and_answer :
      Answer V → Option (Level V × List (Answer V)) → Option (Level V × List (Answer V))
  and_answer a none = none
  and_answer a (some (c, rest)) = some (c, a ∷ rest)

  -- Calls in order, up to the first that panics.
  unfoldable pub run : List (Call V) → Level V → Option (Level V × List (Answer V))
  unfolding step
  run [] c = some (c, [])
  run (x ∷ xs) c = elim (step x c) [ none ↦ none | some q ↦ and_answer q.1 (run xs q.0) ]

  -- The same calls on a list of at most `size` entries.
  abbrev pub list_step : ℕ → Call V → List (Node V) → List (Node V) × Answer V
  list_step size (puts key val e) ns =
      (store size (record { k = key; v = val; expire_at = e }) ns, stored (added key ns))
  list_step size (gets key) ns = (touch key ns, got (entry key ns))
  list_step size (dels key) ns = (retire key ns, deleted (retired key ns))

  abbrev pub list_run : ℕ → List (Call V) → List (Node V) → List (Node V) × List (Answer V)
  list_run size [] ns = (ns, [])
  list_run size (x ∷ xs) ns =
      let (next, a) = list_step size x ns in
      let (last, rest) = list_run size xs next in (last, a ∷ rest)

  answer_by-Returns :
      {A : Type 0} (f : A → Answer V) (c : Level V) (o : Option (Level V × A)) (ns : List (Node V))
      (a : A)
      → Returns c o ns a
      → Returns c (answer_by f o) ns (f a)
  answer_by-Returns f c o ns a (next, returns, view, same) =
      (next, ap (answer_by f) returns, view, same)

  step-refines :
      (x : Call V) (c : Level V) (ns : List (Node V))
      → 0 < c.cap
      → IsView c ns
      → Returns c (step x c) (list_step c.cap x ns).0 (list_step c.cap x ns).1
  unfolding step
  step-refines (puts key val e) c ns pos view =
      answer_by-Returns stored c (put key val e c)
        (store c.cap (record { k = key; v = val; expire_at = e }) ns) (added key ns)
        (put-IsView c ns key val e pos view)
  step-refines (gets key) c ns pos view =
      answer_by-Returns got c (get key c) (touch key ns) (entry key ns) (get-IsView c ns key view)
  step-refines (dels key) c ns pos view =
      answer_by-Returns deleted c (del key c) (retire key ns) (retired key ns)
        (del-IsView c ns key view)

  run-step :
      (x : Call V) (xs : List (Call V)) (c next : Level V) (a : Answer V)
      → step x c ≡ some (next, a)
      → run (x ∷ xs) c ≡ and_answer a (run xs next)
  unfolding run
  run-step x xs c next a e =
      ap (λ o. elim o [ none ↦ none | some q ↦ and_answer q.1 (run xs q.0) ]) e

  run_refines :
      (xs : List (Call V)) (size : ℕ) (c : Level V) (ns : List (Node V))
      → c.cap ≡ size
      → 0 < size
      → IsView c ns
      → (last : Level V) × (run xs c ≡ some (last, (list_run size xs ns).1))
        × IsView last (list_run size xs ns).0
  unfolding run
  run_refines [] size c ns same pos view = (c, refl, view)
  run_refines (x ∷ xs) size c ns same pos view =
      let (next, returns, after, kept) =
        subst (λ k. Returns c (step x c) (list_step k x ns).0 (list_step k x ns).1) same
          (step-refines x c ns (subst (λ k. 0 < k) (sym same) pos) view) in
      let a = (list_step size x ns).1 in
      let (last, rest, view_last) =
        run_refines xs size next (list_step size x ns).0 (kept ∙ same) pos after in
      (last, run-step x xs c next a returns ∙ ap (and_answer a) rest, view_last)

  -- A new level with room for an entry, of at most 65534 entries, returns from every sequence of `put`,
  -- `get` and `del`, with no index out of range; its answers are those of the list of at most `size`
  -- entries that starts empty, and it shows the list that the calls leave.
  pub run-create :
      (xs : List (Call V)) (size : ℕ)
      → 0 < size
      → suc size < 2 ^ 16
      → (last : Level V) × (run xs (create size) ≡ some (last, (list_run size xs []).1))
        × IsView last (list_run size xs []).0
  unfolding create
  run-create xs size pos fits =
      run_refines xs size (create size) [] refl pos (create-IsView size fits)

  -- The entries that are not marked.
  abbrev pub live : List (Node V) → List (Node V)
  live [] = []
  live (n ∷ ns) = let rest = live ns in if ltb 0 n.expire_at then n ∷ rest else rest

  walk_chain :
      (c : Level V) (a : ℕ) (xs : List ℕ) (fuel : ℕ)
      → length xs ≤ fuel
      → ((x : ℕ) → In x xs → x ≢ 0)
      → ((x : ℕ) → In x xs → (in_nodes c x ≡ true) × (in_links c x ≡ true))
      → Chain c.next c.prev a xs 0
      → walk_from fuel (c.next a) c ≡ some (live (map c.node xs))
  unfolding walk_from
  walk_chain c a [] zero enough pos inside h = refl
  walk_chain c a [] (suc fuel) enough pos inside h = ground (arith, h.0)
  walk_chain c a (x ∷ xs) zero enough pos inside h = absurd (omega (arith, enough))
  walk_chain c a (x ∷ xs) (suc fuel) enough pos inside h =
      let positive = pos x (inl refl) in
      let (node_in, link_in) = inside x (inl refl) in
      let rest =
        walk_chain c x xs fuel (omega (arith, enough)) (λ y i. pos y (inr i))
          (λ y i. inside y (inr i)) h.2 in
      ground (arith, positive, rest, node_in, link_in, h.0)

  pub walk-live : (c : Level V) (ns : List (Node V)) → IsView c ns → walk c ≡ some (live ns)
  unfolding walk
  walk-live c ns (xs, h, same) =
      let visited =
        walk_chain c 0 xs c.last (let e = h.count in omega (arith, e)) h.linked.positive
          (λ x i. (nodes_inside c xs h x i, links_inside c xs h x (inl i))) h.linked.chain in
      let zero_in = links_inside c xs h 0 (inr refl) in
      rw (walk, visited, zero_in) (ap (λ q. some (live q)) same)
