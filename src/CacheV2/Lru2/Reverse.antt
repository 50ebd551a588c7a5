-- ===== src/CacheV2/Lru2/Reverse.antt =====
-- sonnet-cache-v2/store/lru2.go: `adjust` with the columns exchanged moves an index to the end.
use sonnet_pro.Prelude.{
  ℕ, ◌≡◌, ◌≢◌, refl, sym, ◌∙◌, ap, subst, List, [], ◌∷◌, ◌++◌, inl, inr, ◌==◌, Bool-cases,
}
use mathlib.Core.List.{append-nil, reverse, reverse-cons, reverse-reverse}
use sonnet_pro.Cache.Ring.Order.{In}
use sonnet_pro.CacheV2.Lru2.{adjust}
use sonnet_pro.CacheV2.Lru2.Chain.{Chain, AreDistinct, Chain-append, In-append_cases}
use sonnet_pro.CacheV2.Lru2.Moves.{IsLinked}
use sonnet_pro.CacheV2.Lru2.Order.{without, without-append, adjust-IsLinked}

Chain-reverse :
    (t f : ℕ → ℕ) (a b : ℕ) (xs : List ℕ) → Chain t f a xs b → Chain f t b (reverse xs) a
Chain-reverse t f a b [] h = (h.1, h.0)
Chain-reverse t f a b (x ∷ xs) h =
    subst (λ q. Chain f t b q a) (sym (reverse-cons x xs))
      (Chain-append f t b x a (reverse xs) [] (Chain-reverse t f x b xs h.2) (h.1, h.0))

pub In-reverse : (y : ℕ) (xs : List ℕ) → In y (reverse xs) → In y xs
In-reverse y [] i = i
In-reverse y (x ∷ xs) i =
    elim (In-append_cases y (reverse xs) (x ∷ []) (subst (In y) (reverse-cons x xs) i)) [
      | inl j ↦ inr (In-reverse y xs j)
      | inr j ↦ elim j [ inl e ↦ inl e | inr z ↦ absurd z ]
    ]

AreDistinct-snoc :
    (x : ℕ) (xs : List ℕ)
    → AreDistinct xs
    → ((y : ℕ) → In y xs → y ≢ x)
    → AreDistinct (xs ++ x ∷ [])
AreDistinct-snoc x [] d h = (λ y i. absurd i, tt)
AreDistinct-snoc x (z ∷ xs) d h = (
  λ y i. elim (In-append_cases y xs (x ∷ []) i) [
    | inl j ↦ d.0 y j
    | inr j ↦ elim j [ inl e ↦ λ q. h z (inl refl) (sym q ∙ e) | inr k ↦ absurd k ]
  ],
  AreDistinct-snoc x xs d.1 (λ y i. h y (inr i)),
)

AreDistinct-reverse : (xs : List ℕ) → AreDistinct xs → AreDistinct (reverse xs)
AreDistinct-reverse [] d = tt
AreDistinct-reverse (x ∷ xs) d = subst AreDistinct (sym (reverse-cons x xs)) (
    AreDistinct-snoc x (reverse xs) (AreDistinct-reverse xs d.1) (λ y i. d.0 y (In-reverse y xs i)))

pub IsLinked-reverse : (t f : ℕ → ℕ) (xs : List ℕ) → IsLinked t f xs → IsLinked f t (reverse xs)
IsLinked-reverse t f xs h = record {
  chain = Chain-reverse t f 0 0 xs h.chain;
  distinct = AreDistinct-reverse xs h.distinct;
  positive = λ x i. h.positive x (In-reverse x xs i);
}

without_last :
    (i x : ℕ) (xs : List ℕ)
    → reverse (without i xs) ++ without i (x ∷ []) ≡ reverse (without i (x ∷ xs))
unfolding without
without_last i x xs = elim (Bool-cases (x == i)) [
  | inl e ↦ rw e (append-nil (reverse (without i xs)))
  | inr e ↦ rw e (sym (reverse-cons x (without i xs)))
]

without-reverse : (i : ℕ) (xs : List ℕ) → without i (reverse xs) ≡ reverse (without i xs)
unfolding without
without-reverse i [] = refl
without-reverse i (x ∷ xs) =
    let ih = without-reverse i xs in
    ap (without i) (reverse-cons x xs)
    ∙ without-append i (reverse xs) (x ∷ [])
    ∙ ap (λ q. q ++ without i (x ∷ [])) ih
    ∙ without_last i x xs

-- `adjust` towards the end: the index stands last and the others keep their order.
pub adjust-IsLinked_tail :
    (t f : ℕ → ℕ) (i : ℕ) (xs : List ℕ)
    → IsLinked t f xs
    → In i xs
    → IsLinked (adjust i t f).0 (adjust i t f).1 (without i xs ++ i ∷ [])
adjust-IsLinked_tail t f i xs h j =
    let back : In i (reverse xs) =
      In-reverse i (reverse xs) (subst (In i) (sym (reverse-reverse xs)) j) in
    let moved = adjust-IsLinked f t i (reverse xs) (IsLinked-reverse t f xs h) back in
    let order : reverse (i ∷ without i (reverse xs)) ≡ without i xs ++ i ∷ [] =
      reverse-cons i (without i (reverse xs))
      ∙ ap (λ q. reverse q ++ i ∷ []) (without-reverse i xs)
      ∙ ap (λ q. q ++ i ∷ []) (reverse-reverse (without i xs)) in
    subst (IsLinked (adjust i t f).0 (adjust i t f).1) order
      (IsLinked-reverse (adjust i t f).1 (adjust i t f).0 (i ∷ without i (reverse xs)) moved)
