-- ===== src/CacheV2/Lru2.antt =====
-- sonnet-cache-v2/store/lru2.go, one level: a cache whose entries stand in arrays that are allocated
-- once, on a doubly linked list of indices. An array is a function of its index: `prev` and `next` are
-- the columns of `dlnk`, with the sentinel at 0, and `node i` is `m[i-1]`. `none` is the panic of an index
-- that is out of range: each method tests the indices that it uses, before it takes its steps. `evicted` is the calls of
-- `onEvicted`.
pub mod Chain
pub mod Moves
pub mod Order
pub mod Spec
pub mod Inside
pub mod Shows
pub mod Entries
pub mod Puts
pub mod Refines
pub mod Answers
pub mod Runs
pub mod Reverse
use sonnet_pro.Prelude.Maps.{lookup, insert, delete}
use sonnet_pro.Prelude.{
  ℕ, zero, suc, ◌+◌, ◌%◌, ◌^◌, List, [], ◌∷◌, ◌++◌, Bool, true, false, Option, none, some, Text,
  text_dec, length, ltb, leb, update, ◌&&◌, ◌||◌, ◌==◌, if◌then◌else◌,
}

-- `node`; a value can be nil, and an expiration of 0 marks an entry as deleted.
pub record Node (V : Type 0) : Type 0 where
  pub k : Text
  pub v : Option V
  pub expire_at : ℕ

-- `cache`. `size` is the length of `dlnk` and `cap` that of `m`.
pub record Level (V : Type 0) : Type 0 where
  pub size : ℕ
  pub cap : ℕ
  pub prev : ℕ → ℕ
  pub next : ℕ → ℕ
  pub node : ℕ → Node V
  pub hmap : List (Text × ℕ)
  pub last : ℕ
  pub evicted : List (Text × Option V)

-- `Create`, with the wrap-around of `cap+1`.
unfoldable pub create : {V : Type 0} → ℕ → Level V
create cap = record {
  size = (cap + 1) % 2 ^ 16;
  cap = cap;
  prev = λ i. 0;
  next = λ i. 0;
  node = λ i. record { k = []; v = none; expire_at = 0 };
  hmap = [];
  last = 0;
  evicted = [];
}

-- `adjust` on the columns `f` and `t`: the entry goes to the end where `t` begins.
unfoldable pub adjust : ℕ → (ℕ → ℕ) → (ℕ → ℕ) → (ℕ → ℕ) × (ℕ → ℕ)
adjust idx f t =
    let f_1 = update f (t idx) (f idx) in
    let t_1 = update t (f idx) (t idx) in
    let f_2 = update f_1 idx 0 in
    let t_2 = update t_1 idx (t_1 0) in
    let f_3 = update f_2 (t_2 0) idx in
    let t_3 = update t_2 0 idx in if f idx == 0 then (f, t) else (f_3, t_3)

-- An index of `dlnk`, and one of `m`.
unfoldable pub in_links : {V : Type 0} → Level V → ℕ → Bool
in_links c idx = ltb idx c.size

unfoldable pub in_nodes : {V : Type 0} → Level V → ℕ → Bool
in_nodes c idx = ltb 0 idx && leb idx c.cap

-- The indices that `adjust` uses are indices of `dlnk`.
unfoldable pub can_adjust : {V : Type 0} → Level V → ℕ → (ℕ → ℕ) → (ℕ → ℕ) → Bool
unfolding in_links
can_adjust c idx f t =
    in_links c idx
    && ((f idx == 0)
        || (in_links c (t idx) && in_links c (f idx) && in_links c 0 && in_links c (t 0)))

-- What runs on if a test holds, and panics if not.
abbrev pub guarded {ℓ} : {A : Type ℓ} → Bool → A → Option A
guarded true a = some a
guarded false a = none

module _ {V : Type 0} where
  -- `c.adjust(idx, p, n)` and `c.adjust(idx, n, p)`.
  unfoldable pub to_head : ℕ → Level V → Level V
  unfolding adjust
  to_head idx c =
      let (prev, next) = adjust idx c.prev c.next in record c { prev = prev; next = next }

  unfoldable pub to_tail : ℕ → Level V → Level V
  unfolding adjust
  to_tail idx c =
      let (next, prev) = adjust idx c.next c.prev in record c { prev = prev; next = next }

  -- The three cases of `put`: the key is there, the arrays are full, and there is room.
  unfoldable pub refresh : ℕ → Text → Option V → ℕ → Level V → Level V
  unfolding to_head
  refresh idx key val expire_at c =
      let n = record (c.node idx) { v = val; expire_at = expire_at } in
      to_head idx (record c { node = update c.node idx n })

  unfoldable pub take_tail : Text → Option V → ℕ → Level V → Level V
  unfolding to_head
  take_tail key val expire_at c =
      let idx = c.prev 0 in
      let tail = c.node idx in
      let n : Node V = record { k = key; v = val; expire_at = expire_at } in
      to_head idx (record c {
        evicted = if ltb 0 tail.expire_at then c.evicted ++ (tail.k, tail.v) ∷ [] else c.evicted;
        hmap = insert text_dec key idx (delete text_dec tail.k c.hmap);
        node = update c.node idx n;
      })

  unfoldable pub take_new : Text → Option V → ℕ → Level V → Level V
  take_new key val expire_at c =
      let last = suc c.last in
      let head = c.next 0 in
      let n : Node V = record { k = key; v = val; expire_at = expire_at } in
      let linked : ℕ → ℕ =
        if length c.hmap == 0 then update c.prev 0 last else update c.prev head last in
      record c {
        last = last;
        prev = update linked last 0;
        next = update (update c.next last head) 0 last;
        node = update c.node last n;
        hmap = insert text_dec key last c.hmap;
      }

  -- `put`, and 1 for a new key.
  unfoldable pub put : Text → Option V → ℕ → Level V → Option (Level V × ℕ)
  unfolding refresh take_tail take_new in_nodes can_adjust in_links
  put key val expire_at c = elim (lookup text_dec key c.hmap) [
    | some idx ↦
        guarded (in_nodes c idx && can_adjust c idx c.prev c.next)
          (refresh idx key val expire_at c, 0)
    | none ↦
        let reuses =
          in_links c 0 && in_nodes c (c.prev 0) && can_adjust c (c.prev 0) c.prev c.next in
        let extends =
          in_links c 0
          && in_links c (c.next 0)
          && in_nodes c (suc c.last)
          && in_links c (suc c.last) in
        if c.last == c.cap
        then guarded reuses (take_tail key val expire_at c, 1)
        else guarded extends (take_new key val expire_at c, 1)
  ]

  -- `get`.
  unfoldable pub get : Text → Level V → Option (Level V × Option (Node V))
  unfolding to_head in_nodes can_adjust
  get key c = elim (lookup text_dec key c.hmap) [
    | none ↦ some (c, none)
    | some idx ↦
        guarded (can_adjust c idx c.prev c.next && in_nodes c idx)
          (to_head idx c, some (c.node idx))
  ]

  -- `del`: the node, marked as deleted, and the expiration that it had.
  unfoldable pub del : Text → Level V → Option (Level V × Option (Node V × ℕ))
  unfolding to_tail in_nodes can_adjust
  del key c =
      let absent : Level V × Option (Node V × ℕ) = (c, none) in
      elim (lookup text_dec key c.hmap) [
        | none ↦ some absent
        | some idx ↦
            let n = record (c.node idx) { expire_at = 0 } in
            let e = (c.node idx).expire_at in
            let marked : Level V × Option (Node V × ℕ) =
              (to_tail idx (record c { node = update c.node idx n }), some (n, e)) in
            if ltb 0 e
            then guarded (in_nodes c idx && can_adjust c idx c.next c.prev) marked
            else guarded (in_nodes c idx) absent
      ]

  -- The loop of `walk` from `idx` on, over the entries that are not deleted; its fuel is the number of
  -- entries.
  unfoldable pub walk_from : ℕ → ℕ → Level V → Option (List (Node V))
  unfolding in_nodes in_links
  walk_from zero idx c = some []
  walk_from (suc fuel) idx c =
      let rest = walk_from fuel (c.next idx) c in
      let visited : Option (List (Node V)) = elim rest [
        | none ↦ none
        | some ns ↦
            guarded (in_nodes c idx && in_links c idx)
              (if ltb 0 (c.node idx).expire_at then c.node idx ∷ ns else ns)
      ] in
      if idx == 0 then some [] else visited

  -- `walk`.
  unfoldable pub walk : Level V → Option (List (Node V))
  unfolding walk_from in_links
  walk c = elim (walk_from c.last (c.next 0) c) [
    | none ↦ none
    | some ns ↦ guarded (in_links c 0) ns
  ]
