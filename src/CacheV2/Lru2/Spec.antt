-- ===== src/CacheV2/Lru2/Spec.antt =====
-- sonnet-cache-v2/store/lru2.go: what a level promises, as a list of entries with the most recent first.
use sonnet_pro.Prelude.{
  ℕ, suc, ◌≡◌, ◌≢◌, refl, sym, ap, arith, List, [], ◌∷◌, ◌++◌, map, Option, none, some, Text,
  text_dec, length, inl, inr, ltb, update, ite, ◌≤◌, ◌==◌, if◌then◌else◌,
}
use sonnet_pro.Cache.Ring.Order.{In}
use sonnet_pro.CacheV2.Lru2.{Node, Level}
use sonnet_pro.Prelude.Maps.{lookup}
use sonnet_pro.CacheV2.Lru2.Chain.{Chain}
use sonnet_pro.CacheV2.Lru2.Moves.{IsLinked}
use sonnet_pro.CacheV2.Lru2.Order.{without}

-- The entry at the sentinel's back link is the last one.
pub Chain-last :
    (t f : ℕ → ℕ) (a b x : ℕ) (xs : List ℕ)
    → Chain t f a (x ∷ xs) b
    → (ys : List ℕ) × (x ∷ xs ≡ ys ++ f b ∷ [])
Chain-last t f a b x [] h = ([], ap (λ z. z ∷ []) (sym h.2.1))
Chain-last t f a b x (y ∷ xs) h =
    let (ys, e) = Chain-last t f x b y xs h.2 in (x ∷ ys, ap (λ q. x ∷ q) e)

module _ {V : Type 0} where
  abbrev pub drop_key : Text → List (Node V) → List (Node V)
  drop_key k [] = []
  drop_key k (n ∷ ns) = let rest = drop_key k ns in ite (text_dec n.k k) rest (n ∷ rest)

  abbrev pub entry : Text → List (Node V) → Option (Node V)
  entry k [] = none
  entry k (n ∷ ns) = ite (text_dec n.k k) (some n) (entry k ns)

  abbrev pub drop_last : List (Node V) → List (Node V)
  drop_last [] = []
  drop_last (n ∷ []) = []
  drop_last (n ∷ m ∷ ns) = n ∷ drop_last (m ∷ ns)

  -- An entry in front: its key's old entry goes, or the last one of a full list.
  abbrev pub store : ℕ → Node V → List (Node V) → List (Node V)
  store size n ns = elim (entry n.k ns) [
    | some old ↦ n ∷ drop_key n.k ns
    | none ↦ n ∷ (if length ns == size then drop_last ns else ns)
  ]

  -- The entry of a key, moved to the front.
  abbrev pub touch : Text → List (Node V) → List (Node V)
  touch k ns = elim (entry k ns) [ some n ↦ n ∷ drop_key k ns | none ↦ ns ]

  -- The entry of a key, marked as deleted and moved to the end.
  abbrev pub retire : Text → List (Node V) → List (Node V)
  retire k ns = elim (entry k ns) [
    | none ↦ ns
    | some n ↦ if ltb 0 n.expire_at then drop_key k ns ++ record n { expire_at = 0 } ∷ [] else ns
  ]

  -- What `del` answers.
  abbrev pub retired : Text → List (Node V) → Option (Node V × ℕ)
  retired k ns = elim (entry k ns) [
    | none ↦ none
    | some n ↦ if ltb 0 n.expire_at then some (record n { expire_at = 0 }, n.expire_at) else none
  ]

  -- The order `xs` of the indices in use, what links them, and the keys that lead to them.
  pub record Shows (c : Level V) (xs : List ℕ) : Type 0 where
    pub linked : IsLinked c.next c.prev xs
    pub count : length xs ≡ c.last
    pub within : c.last ≤ c.cap
    pub room : c.size ≡ suc c.cap
    pub range : (x : ℕ) → In x xs → x ≤ c.last
    pub keyed : (x : ℕ) → In x xs → lookup text_dec (c.node x).k c.hmap ≡ some x
    pub found :
        (k : Text) (x : ℕ) → lookup text_dec k c.hmap ≡ some x → In x xs × ((c.node x).k ≡ k)

  pub map-update :
      (node : ℕ → Node V) (i : ℕ) (n : Node V) (xs : List ℕ)
      → ((y : ℕ) → In y xs → y ≢ i)
      → map (update node i n) xs ≡ map node xs
  map-update node i n [] h = refl
  map-update node i n (x ∷ xs) h =
      ground (arith, h x (inl refl), map-update node i n xs (λ y j. h y (inr j)))

  pub drop_key-map :
      (node : ℕ → Node V) (k : Text) (i : ℕ) (xs : List ℕ)
      → (node i).k ≡ k
      → ((y : ℕ) → In y xs → (node y).k ≡ k → y ≡ i)
      → drop_key k (map node xs) ≡ map node (without i xs)
  unfolding without
  drop_key-map node k i [] e h = refl
  drop_key-map node k i (x ∷ xs) e h =
      ground (arith, e, h x (inl refl), drop_key-map node k i xs e (λ y j. h y (inr j)))

  pub entry-absent :
      (node : ℕ → Node V) (k : Text) (xs : List ℕ)
      → ((y : ℕ) → In y xs → (node y).k ≢ k)
      → entry k (map node xs) ≡ none
  entry-absent node k [] h = refl
  entry-absent node k (x ∷ xs) h =
      ground (arith, h x (inl refl), entry-absent node k xs (λ y j. h y (inr j)))

  pub entry-present :
      (node : ℕ → Node V) (k : Text) (i : ℕ) (xs : List ℕ)
      → In i xs
      → (node i).k ≡ k
      → ((y : ℕ) → In y xs → (node y).k ≡ k → y ≡ i)
      → entry k (map node xs) ≡ some (node i)
  entry-present node k i [] j e h = absurd j
  entry-present node k i (x ∷ xs) (inl q) e h = ground (arith, q, e)
  entry-present node k i (x ∷ xs) (inr j) e h =
      ground (arith, h x (inl refl), entry-present node k i xs j e (λ y m. h y (inr m)))

  pub drop_last-snoc :
      (node : ℕ → Node V) (i : ℕ) (xs : List ℕ) → drop_last (map node (xs ++ i ∷ [])) ≡ map node xs
  drop_last-snoc node i [] = refl
  drop_last-snoc node i (x ∷ []) = refl
  drop_last-snoc node i (x ∷ y ∷ xs) = ap (λ q. node x ∷ q) (drop_last-snoc node i (y ∷ xs))
