-- ===== src/Cache/Ring/Order.antt =====
-- sort.Ints, as consistent_hash.go uses it: sorting orders the keys and keeps the same ones.
use sonnet_pro.Prelude.{
  ℕ, zero, suc, ◌≤◌, ◌<◌, ◌≡◌, refl, sym, arith, leb, Bool-cases, ◌⊎◌, inl, inr, subst, List, [],
  ◌∷◌, length, get_or, All,
}
use sonnet_pro.Cache.Ring.{insert_sorted, sort_ints}

abbrev pub In : ℕ → List ℕ → Type 0
In p [] = ⊥
In p (x ∷ xs) = (p ≡ x) ⊎ In p xs

abbrev pub IsSorted : List ℕ → Type 0
IsSorted [] = Unit
IsSorted (x ∷ xs) = All (λ y. x ≤ y) xs × IsSorted xs

pub All-In : (P : ℕ → Type 0) (xs : List ℕ) (p : ℕ) → All P xs → In p xs → P p
All-In P [] p all i = absurd i
All-In P (x ∷ xs) p all (inl e) = subst P (sym e) all.0
All-In P (x ∷ xs) p all (inr i) = All-In P xs p all.1 i

insert_sorted-All :
    (P : ℕ → Type 0) (x : ℕ) (ys : List ℕ) → P x → All P ys → All P (insert_sorted x ys)
unfolding insert_sorted
insert_sorted-All P x [] px all = (px, tt)
insert_sorted-All P x (y ∷ ys) px all = elim (Bool-cases (leb x y)) [
  | inl le ↦ rw le (px, all)
  | inr gt ↦ rw gt (all.0, insert_sorted-All P x ys px all.1)
]

All-le : (x y : ℕ) (ys : List ℕ) → x ≤ y → All (λ z. y ≤ z) ys → All (λ z. x ≤ z) ys
All-le x y [] le all = tt
All-le x y (z ∷ zs) le all = (omega (arith, all.0), All-le x y zs le all.1)

insert_sorted-IsSorted : (x : ℕ) (ys : List ℕ) → IsSorted ys → IsSorted (insert_sorted x ys)
unfolding insert_sorted
insert_sorted-IsSorted x [] s = (tt, tt)
insert_sorted-IsSorted x (y ∷ ys) s = elim (Bool-cases (leb x y)) [
  | inl le ↦ rw le ((ground arith, All-le x y ys (ground arith) s.0), s)
  | inr gt ↦
      rw gt
        (insert_sorted-All (λ z. y ≤ z) x ys (ground arith) s.0, insert_sorted-IsSorted x ys s.1)
]

pub sort_ints-IsSorted : (xs : List ℕ) → IsSorted (sort_ints xs)
unfolding sort_ints
sort_ints-IsSorted [] = tt
sort_ints-IsSorted (x ∷ xs) = insert_sorted-IsSorted x (sort_ints xs) (sort_ints-IsSorted xs)

pub In-insert_sorted : (p x : ℕ) (ys : List ℕ) → In p (x ∷ ys) → In p (insert_sorted x ys)
unfolding insert_sorted
In-insert_sorted p x [] i = i
In-insert_sorted p x (y ∷ ys) i = ground (arith, In-insert_sorted p x ys)

pub insert_sorted-In : (p x : ℕ) (ys : List ℕ) → In p (insert_sorted x ys) → In p (x ∷ ys)
unfolding insert_sorted
insert_sorted-In p x [] i = i
insert_sorted-In p x (y ∷ ys) i = ground (arith, insert_sorted-In p x ys)

pub In-sort_ints : (p : ℕ) (xs : List ℕ) → In p xs → In p (sort_ints xs)
unfolding sort_ints
In-sort_ints p [] i = i
In-sort_ints p (x ∷ xs) (inl e) = In-insert_sorted p x (sort_ints xs) (inl e)
In-sort_ints p (x ∷ xs) (inr i) = In-insert_sorted p x (sort_ints xs) (inr (In-sort_ints p xs i))

pub sort_ints-In : (p : ℕ) (xs : List ℕ) → In p (sort_ints xs) → In p xs
unfolding sort_ints
sort_ints-In p [] i = i
sort_ints-In p (x ∷ xs) i = elim (insert_sorted-In p x (sort_ints xs) i) [
  | inl e ↦ inl e
  | inr j ↦ inr (sort_ints-In p xs j)
]

pub get_or-In : (xs : List ℕ) (i : ℕ) → i < length xs → In (get_or xs i 0) xs
get_or-In [] i lt = absurd (omega arith)
get_or-In (x ∷ xs) zero lt = inl refl
get_or-In (x ∷ xs) (suc i) lt = inr (get_or-In xs i (omega arith))

pub In-get_or : (xs : List ℕ) (p : ℕ) → In p xs → (i : ℕ) × (i < length xs) × (get_or xs i 0 ≡ p)
In-get_or [] p i = absurd i
In-get_or (x ∷ xs) p (inl e) = (0, omega arith, sym e)
In-get_or (x ∷ xs) p (inr i) = let (k, lt, e) = In-get_or xs p i in (suc k, omega arith, e)

pub get_or_mono :
    (xs : List ℕ) (i j : ℕ) → IsSorted xs → i ≤ j → j < length xs → get_or xs i 0 ≤ get_or xs j 0
get_or_mono [] i j s le lt = absurd (omega arith)
get_or_mono (x ∷ xs) zero zero s le lt = omega arith
get_or_mono (x ∷ xs) zero (suc j) s le lt =
    All-In (λ z. x ≤ z) xs (get_or xs j 0) s.0 (get_or-In xs j (omega arith))
get_or_mono (x ∷ xs) (suc i) zero s le lt = absurd (omega arith)
get_or_mono (x ∷ xs) (suc i) (suc j) s le lt = get_or_mono xs i j s.1 (omega arith) (omega arith)
