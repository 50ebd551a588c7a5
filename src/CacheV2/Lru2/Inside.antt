-- ===== src/CacheV2/Lru2/Inside.antt =====
-- sonnet-cache-v2/store/lru2.go: the indices that the methods of a level use are in range.
use sonnet_pro.Prelude.{
  ℕ, ◌≡◌, ◌≢◌, refl, sym, ◌∙◌, subst, arith, List, [], ◌∷◌, Bool, true, ◌&&◌, ◌||◌, ◌⊎◌, inl, inr,
}
use sonnet_pro.Cache.Ring.Order.{In}
use sonnet_pro.CacheV2.Lru2.{Level, in_links, in_nodes, can_adjust}
use sonnet_pro.CacheV2.Lru2.Chain.{Chain, first_In}
use sonnet_pro.CacheV2.Lru2.Spec.{Shows}

next_In :
    (t f : ℕ → ℕ) (a b x : ℕ) (xs : List ℕ) → Chain t f a xs b → In x xs → In (t x) xs ⊎ (t x ≡ b)
next_In t f a b x [] h i = absurd i
next_In t f a b x (y ∷ ys) h (inl e) = elim (first_In t f y b ys h.2) [
  | inl j ↦ inl (inr (subst (λ z. In (t z) ys) (sym e) j))
  | inr q ↦ inr (subst (λ z. t z ≡ b) (sym e) q)
]
next_In t f a b x (y ∷ ys) h (inr i) = elim (next_In t f y b x ys h.2 i) [
  | inl j ↦ inl (inr j)
  | inr q ↦ inr q
]

prev_In :
    (t f : ℕ → ℕ) (a b x : ℕ) (xs : List ℕ) → Chain t f a xs b → In x xs → In (f x) xs ⊎ (f x ≡ a)
prev_In t f a b x [] h i = absurd i
prev_In t f a b x (y ∷ ys) h (inl e) = inr (subst (λ z. f z ≡ a) (sym e) h.1)
prev_In t f a b x (y ∷ ys) h (inr i) = elim (prev_In t f y b x ys h.2 i) [
  | inl j ↦ inl (inr j)
  | inr q ↦ inl (inl q)
]

last_In : (t f : ℕ → ℕ) (a b : ℕ) (xs : List ℕ) → Chain t f a xs b → In (f b) xs ⊎ (f b ≡ a)
last_In t f a b [] h = inr h.1
last_In t f a b (y ∷ ys) h = elim (last_In t f y b ys h.2) [
  | inl j ↦ inl (inr j)
  | inr q ↦ inl (inl q)
]

nonempty_last :
    (t f : ℕ → ℕ) (a b : ℕ) (xs : List ℕ) (x : ℕ) (ys : List ℕ)
    → Chain t f a xs b
    → ((y : ℕ) → In y xs → y ≢ a)
    → xs ≡ x ∷ ys
    → f b ≢ a
nonempty_last t f a b [] x ys h apart e q = absurd (cc)
nonempty_last t f a b (z ∷ []) x ys h apart e q = apart z (inl refl) (sym h.2.1 ∙ q)
nonempty_last t f a b (z ∷ w ∷ zs) x ys h apart e q = elim (last_In t f z b (w ∷ zs) h.2) [
  | inl i ↦ apart (f b) (inr i) q
  | inr z_last ↦ apart z (inl refl) (sym z_last ∙ q)
]

all_inside :
    (a b d e f : Bool)
    → a ≡ true
    → b ≡ true
    → d ≡ true
    → e ≡ true
    → f ≡ true
    → (z : Bool) → (a && (z || (b && d && e && f))) ≡ true
all_inside a b d e f p q r s t z = ground (arith, p, q, r, s, t)

module _ {V : Type 0} (c : Level V) (xs : List ℕ) (h : Shows c xs) where
  pub links_inside : (x : ℕ) → In x xs ⊎ (x ≡ 0) → in_links c x ≡ true
  unfolding in_links
  links_inside x (inl i) =
      let le = h.range x i in
      let most = h.within in let room = h.room in ground (arith, le, most, room)
  links_inside x (inr e) = let room = h.room in ground (arith, e, room)

  pub nodes_inside : (x : ℕ) → In x xs → in_nodes c x ≡ true
  unfolding in_nodes
  nodes_inside x i =
      let le = h.range x i in
      let most = h.within in let pos = h.linked.positive x i in ground (arith, le, most, pos)

  pub head_inside : in_links c (c.next 0) ≡ true
  head_inside = links_inside (c.next 0) (first_In c.next c.prev 0 0 xs h.linked.chain)

  pub head_adjusts : (x : ℕ) → In x xs → can_adjust c x c.prev c.next ≡ true
  unfolding can_adjust
  head_adjusts x i =
      all_inside _ _ _ _ _ (links_inside x (inl i))
        (links_inside (c.next x) (next_In c.next c.prev 0 0 x xs h.linked.chain i))
        (links_inside (c.prev x) (prev_In c.next c.prev 0 0 x xs h.linked.chain i))
        (links_inside 0 (inr refl)) head_inside _

  pub tail_adjusts : (x : ℕ) → In x xs → can_adjust c x c.next c.prev ≡ true
  unfolding can_adjust
  tail_adjusts x i =
      all_inside _ _ _ _ _ (links_inside x (inl i))
        (links_inside (c.prev x) (prev_In c.next c.prev 0 0 x xs h.linked.chain i))
        (links_inside (c.next x) (next_In c.next c.prev 0 0 x xs h.linked.chain i))
        (links_inside 0 (inr refl))
        (links_inside (c.prev 0) (last_In c.next c.prev 0 0 xs h.linked.chain)) _

  pub tail_In : (x : ℕ) (ys : List ℕ) → xs ≡ x ∷ ys → In (c.prev 0) xs
  tail_In x ys e = elim (last_In c.next c.prev 0 0 xs h.linked.chain) [
    | inl i ↦ i
    | inr q ↦ absurd (nonempty_last c.next c.prev 0 0 xs x ys h.linked.chain h.linked.positive e q)
  ]
