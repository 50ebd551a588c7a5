-- ===== src/CacheV2/Lru2/Order.antt =====
-- sonnet-cache-v2/store/lru2.go: the list of `dlnk` as an order of indices, and what `adjust` is on it.
use sonnet_pro.Prelude.{
  ℕ, suc, ◌≡◌, ◌≢◌, length, refl, sym, ◌∙◌, ap, subst, arith, List, [], ◌∷◌, ◌++◌, inl, inr, ◌==◌,
  if◌then◌else◌, Bool-cases,
}
use sonnet_pro.Cache.Ring.Order.{In}
use sonnet_pro.CacheV2.Lru2.{adjust}
use sonnet_pro.CacheV2.Lru2.Chain.{
  Chain, AreDistinct, Chain-split, In-append_right, AreDistinct-append,
}
use sonnet_pro.CacheV2.Lru2.Moves.{IsLinked, moved_chain, moved_f, moved_t, adjust_eq, adjust_first}

-- The order without an index.
unfoldable pub without : ℕ → List ℕ → List ℕ
without i [] = []
without i (x ∷ xs) = let rest = without i xs in if x == i then rest else x ∷ rest

pub without-absent : (i : ℕ) (xs : List ℕ) → ((y : ℕ) → In y xs → y ≢ i) → without i xs ≡ xs
unfolding without
without-absent i [] h = refl
without-absent i (x ∷ xs) h =
    ground (arith, h x (inl refl), without-absent i xs (λ y j. h y (inr j)))

pub without-append : (i : ℕ) (xs ys : List ℕ) → without i (xs ++ ys) ≡ without i xs ++ without i ys
unfolding without
without-append i [] ys = refl
without-append i (x ∷ xs) ys = ground (arith, without-append i xs ys)

pub without-In : (i y : ℕ) (xs : List ℕ) → In y (without i xs) → In y xs × (y ≢ i)
unfolding without
without-In i y [] h = absurd h
without-In i y (x ∷ xs) h = elim (Bool-cases (x == i)) [
  | inl e ↦
      let (a, b) =
        without-In i y xs (subst (λ b. In y (if b then without i xs else x ∷ without i xs)) e h) in
      (inr a, b)
  | inr e ↦ elim (subst (λ b. In y (if b then without i xs else x ∷ without i xs)) e h) [
    | inl q ↦ (inl q, ground (arith, e, q))
    | inr j ↦ let (a, b) = without-In i y xs j in (inr a, b)
  ]
]

pub without-AreDistinct : (i : ℕ) (xs : List ℕ) → AreDistinct xs → AreDistinct (without i xs)
unfolding without
without-AreDistinct i [] d = tt
without-AreDistinct i (x ∷ xs) d =
    let rest = without-AreDistinct i xs d.1 in
    elim (Bool-cases (x == i)) [
      | inl e ↦ rw e rest
      | inr e ↦ rw e ((λ y j. d.0 y (without-In i y xs j).0), rest)
    ]

pub without-keeps : (i y : ℕ) (xs : List ℕ) → In y xs → y ≢ i → In y (without i xs)
unfolding without
without-keeps i y [] h n = absurd h
without-keeps i y (x ∷ xs) h n = elim (Bool-cases (x == i)) [
  | inl e ↦
      rw e (elim h [ inl q ↦ absurd (n (ground (arith, q, e))) | inr j ↦ without-keeps i y xs j n ])
  | inr e ↦ rw e (elim h [ inl q ↦ inl q | inr j ↦ inr (without-keeps i y xs j n) ])
]

pub length-without :
    (i : ℕ) (xs : List ℕ) → AreDistinct xs → In i xs → suc (length (without i xs)) ≡ length xs
unfolding without
length-without i [] d h = absurd h
length-without i (x ∷ xs) d (inl e) =
    let same = without-absent i xs (λ y j q. d.0 y j (q ∙ e)) in ground (arith, e, ap length same)
length-without i (x ∷ xs) d (inr j) =
    let other = d.0 i j in ground (arith, other, length-without i xs d.1 j)

-- An index of the list comes first, or after an index `l`.
data Place (i : ℕ) (xs : List ℕ) : Type 0 where
  first : (zs : List ℕ) → xs ≡ i ∷ zs → Place i xs
  after : (ys : List ℕ) (l : ℕ) (zs : List ℕ) → xs ≡ ys ++ l ∷ i ∷ zs → Place i xs

place : (i : ℕ) (xs : List ℕ) → In i xs → Place i xs
place i [] h = absurd h
place i (x ∷ xs) (inl e) = first xs (ap (λ z. z ∷ xs) (sym e))
place i (x ∷ xs) (inr j) = elim (place i xs j) [
  | first zs e ↦ after [] x zs (ap (λ z. x ∷ z) e)
  | after ys l zs e ↦ after (x ∷ ys) l zs (ap (λ z. x ∷ z) e)
]

place-without :
    (i : ℕ) (ys zs : List ℕ) (l : ℕ)
    → AreDistinct (ys ++ l ∷ i ∷ zs)
    → without i (ys ++ l ∷ i ∷ zs) ≡ ys ++ l ∷ zs
unfolding without
place-without i ys zs l d =
    let (d_ys, d_tail, apart) = AreDistinct-append ys (l ∷ i ∷ zs) d in
    let same_ys = without-absent i ys (λ y j. apart y i j (inr (inl refl))) in
    let same_zs = without-absent i zs d_tail.1.0 in
    let other : l ≢ i = λ e. d_tail.0 i (inl refl) (sym e) in
    let tail : without i (l ∷ i ∷ zs) ≡ l ∷ zs = ground (arith, other, same_zs) in
    without-append i ys (l ∷ i ∷ zs)
    ∙ ap (λ q. q ++ without i (l ∷ i ∷ zs)) same_ys
    ∙ ap (λ q. ys ++ q) tail

pub first-without : (i : ℕ) (zs : List ℕ) → AreDistinct (i ∷ zs) → without i (i ∷ zs) ≡ zs
unfolding without
first-without i zs d = ground (arith, without-absent i zs d.0)

adjust_place :
    (t f : ℕ → ℕ) (i : ℕ) (xs : List ℕ)
    → IsLinked t f xs
    → Place i xs
    → Chain (adjust i f t).1 (adjust i f t).0 0 (i ∷ without i xs) 0
adjust_place t f i xs h (first zs e) =
    let linked : IsLinked t f (i ∷ zs) = subst (IsLinked t f) e h in
    subst (λ q. Chain (adjust i f t).1 (adjust i f t).0 0 (i ∷ without i q) 0) (sym e)
      (rw (first-without i zs linked.distinct) (
        subst (λ q. Chain q.1 q.0 0 (i ∷ zs) 0) (sym (adjust_first i f t linked.chain.1))
          linked.chain))
adjust_place t f i xs h (after ys l zs e) =
    let linked : IsLinked t f (ys ++ l ∷ i ∷ zs) = subst (IsLinked t f) e h in
    let back = (Chain-split t f 0 l 0 ys (i ∷ zs) linked.chain).1.1 in
    let l_pos = linked.positive l (In-append_right l ys (l ∷ i ∷ zs) (inl refl)) in
    let i_pos = linked.positive i (In-append_right i ys (l ∷ i ∷ zs) (inr (inl refl))) in
    let moved = adjust_eq i f t (λ q. l_pos (sym back ∙ q)) i_pos in
    subst (λ q. Chain (adjust i f t).1 (adjust i f t).0 0 (i ∷ without i q) 0) (sym e)
      (rw (place-without i ys zs l linked.distinct) (
        subst (λ q. Chain q.1 q.0 0 (i ∷ (ys ++ l ∷ zs)) 0) (sym moved)
          (subst
            (λ k.
              Chain (moved_t t i k (t i) (t 0)) (moved_f f i k (t i) (t 0)) 0 (i ∷ (ys ++ l ∷ zs))
                0)
            (sym back) (moved_chain t f ys zs l i linked))))

-- `adjust` on links that run through a list without repetition yields the links of the list in which
-- the index stands first and the others keep their order.
pub adjust-IsLinked :
    (t f : ℕ → ℕ) (i : ℕ) (xs : List ℕ)
    → IsLinked t f xs
    → In i xs
    → IsLinked (adjust i f t).1 (adjust i f t).0 (i ∷ without i xs)
adjust-IsLinked t f i xs h j = record {
  chain = adjust_place t f i xs h (place i xs j);
  distinct = ((λ y k. (without-In i y xs k).1), without-AreDistinct i xs h.distinct);
  positive = λ x k. elim k [
    | inl e ↦ λ q. h.positive i j (sym e ∙ q)
    | inr m ↦ h.positive x (without-In i x xs m).0
  ];
}
