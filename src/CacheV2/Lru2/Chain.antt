-- ===== src/CacheV2/Lru2/Chain.antt =====
-- sonnet-cache-v2/store/lru2.go: the linked list of `dlnk` as the list of its indices.
use sonnet_pro.Prelude.{ℕ, ◌≡◌, ◌≢◌, refl, sym, ◌∙◌, subst, List, [], ◌∷◌, ◌++◌, ◌⊎◌, inl, inr}
use sonnet_pro.Cache.Ring.Order.{In}

-- From `a` the links `t` lead through `xs` to `b`, and the links `f` lead back.
abbrev pub Chain : (ℕ → ℕ) → (ℕ → ℕ) → ℕ → List ℕ → ℕ → Type 0
Chain t f a [] b = (t a ≡ b) × (f b ≡ a)
Chain t f a (x ∷ xs) b = (t a ≡ x) × (f x ≡ a) × Chain t f x xs b

abbrev pub AreDistinct : List ℕ → Type 0
AreDistinct [] = Unit
AreDistinct (x ∷ xs) = ((y : ℕ) → In y xs → y ≢ x) × AreDistinct xs

pub Chain-append :
    (t f : ℕ → ℕ) (a b c : ℕ) (xs ys : List ℕ)
    → Chain t f a xs b
    → Chain t f b ys c
    → Chain t f a (xs ++ b ∷ ys) c
Chain-append t f a b c [] ys h k = (h.0, h.1, k)
Chain-append t f a b c (x ∷ xs) ys h k = (h.0, h.1, Chain-append t f x b c xs ys h.2 k)

pub Chain-split :
    (t f : ℕ → ℕ) (a b c : ℕ) (xs ys : List ℕ)
    → Chain t f a (xs ++ b ∷ ys) c
    → Chain t f a xs b × Chain t f b ys c
Chain-split t f a b c [] ys h = ((h.0, h.1), h.2)
Chain-split t f a b c (x ∷ xs) ys h =
    let (l, r) = Chain-split t f x b c xs ys h.2 in ((h.0, h.1, l), r)

-- A chain stays where the links of its members do.
pub Chain-frame :
    (t f t' f' : ℕ → ℕ) (a b : ℕ) (xs : List ℕ)
    → t' a ≡ t a
    → ((x : ℕ) → In x xs → (t' x ≡ t x) × (f' x ≡ f x))
    → f' b ≡ f b
    → Chain t f a xs b
    → Chain t' f' a xs b
Chain-frame t f t' f' a b [] start same end h = (start ∙ h.0, end ∙ h.1)
Chain-frame t f t' f' a b (x ∷ xs) start same end h =
    let (tx, fx) = same x (inl refl) in
    (start ∙ h.0, fx ∙ h.1, Chain-frame t f t' f' x b xs tx (λ y i. same y (inr i)) end h.2)

-- A chain whose first link comes from another node.
pub Chain-reroot :
    (t f t' f' : ℕ → ℕ) (a a' b : ℕ) (xs : List ℕ)
    → AreDistinct xs
    → ((y : ℕ) → In y xs → y ≢ b)
    → t' a' ≡ t a
    → f' (t a) ≡ a'
    → ((x : ℕ) → In x xs → t' x ≡ t x)
    → ((x : ℕ) → x ≢ t a → In x xs ⊎ (x ≡ b) → f' x ≡ f x)
    → Chain t f a xs b
    → Chain t' f' a' xs b
Chain-reroot t f t' f' a a' b [] d apart first second keep_t keep_f h =
    (first ∙ h.0, subst (λ z. f' z ≡ a') h.0 second)
Chain-reroot t f t' f' a a' b (x ∷ xs) d apart first second keep_t keep_f h = (
  first ∙ h.0,
  subst (λ z. f' z ≡ a') h.0 second,
  Chain-frame t f t' f' x b xs (keep_t x (inl refl))
      (λ y i. (keep_t y (inr i), keep_f y (λ e. d.0 y i (e ∙ h.0)) (inl (inr i))))
      (keep_f b (λ e. apart x (inl refl) (sym h.0 ∙ sym e)) (inr refl)) h.2,
)

pub In-append_right : (y : ℕ) (xs ys : List ℕ) → In y ys → In y (xs ++ ys)
In-append_right y [] ys i = i
In-append_right y (x ∷ xs) ys i = inr (In-append_right y xs ys i)

pub In-append_left : (y : ℕ) (xs ys : List ℕ) → In y xs → In y (xs ++ ys)
In-append_left y [] ys i = absurd i
In-append_left y (x ∷ xs) ys (inl e) = inl e
In-append_left y (x ∷ xs) ys (inr i) = inr (In-append_left y xs ys i)

pub In-append_cases : (y : ℕ) (xs ys : List ℕ) → In y (xs ++ ys) → In y xs ⊎ In y ys
In-append_cases y [] ys i = inr i
In-append_cases y (x ∷ xs) ys (inl e) = inl (inl e)
In-append_cases y (x ∷ xs) ys (inr i) = elim (In-append_cases y xs ys i) [
  | inl j ↦ inl (inr j)
  | inr j ↦ inr j
]

-- The parts of a list without repetition share nothing.
pub AreDistinct-append :
    (xs ys : List ℕ)
    → AreDistinct (xs ++ ys)
    → AreDistinct xs × AreDistinct ys × ((x y : ℕ) → In x xs → In y ys → x ≢ y)
AreDistinct-append [] ys d = (tt, d, λ x y i j. absurd i)
AreDistinct-append (x ∷ xs) ys d =
    let (left, right, apart) = AreDistinct-append xs ys d.1 in
    (
      (λ y i. d.0 y (In-append_left y xs ys i), left),
      right,
      λ a b i j. elim i [
        | inl e ↦ λ q. d.0 b (In-append_right b xs ys j) (sym q ∙ e)
        | inr k ↦ apart a b k j
      ],
    )

-- The first node of a chain.
pub first_In : (t f : ℕ → ℕ) (a b : ℕ) (xs : List ℕ) → Chain t f a xs b → In (t a) xs ⊎ (t a ≡ b)
first_In t f a b [] h = inr h.0
first_In t f a b (x ∷ xs) h = inl (inl h.0)
