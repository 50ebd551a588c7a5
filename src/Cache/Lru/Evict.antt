-- ===== src/Cache/Lru/Evict.antt =====
-- sonnet-cache/lru/lru.go: the loop of `Add`, which removes the oldest entries.
use sonnet_pro.Prelude.Int.{pos, negsuc, ◌≤ℤ◌, pos_part, neg_part}
use sonnet_pro.Prelude.{
  ℕ, zero, suc, ◌≤◌, ◌<◌, ◌≡◌, refl, sym, ◌∙◌, ap, subst, arith, List, [], ◌∷◌, true, not, ◌&&◌,
  none, some, Bool-cases, length, ◌⊎◌, inl, inr, ltb, ◌==◌,
}
use sonnet_pro.Cache.Lru.{Element, Lru, back, drop_back, entry_size, remove_oldest, over, evict}
use sonnet_pro.Cache.Lru.Shape.{size}
use sonnet_pro.Cache.Lru.Valid.{IsValid, removed_last, remove_oldest-IsValid}

module _ {V : Type 0} where
  length-drop_back :
      (es : List (Element V)) (e : Element V)
      → back es ≡ some e
      → suc (length (drop_back es)) ≡ length es
  unfolding back drop_back
  length-drop_back [] e h = absurd (cc)
  length-drop_back (f ∷ []) e h = omega arith
  length-drop_back (f ∷ g ∷ es) e h = omega (arith, length-drop_back (g ∷ es) e h)

  back-cons : (e : Element V) (es : List (Element V)) → (f : Element V) × (back (e ∷ es) ≡ some f)
  unfolding back
  back-cons e [] = (e, refl)
  back-cons e (g ∷ es) = back-cons g es

module _ {V : Type 0} (len : V → ℕ) where
  -- `e` is the element in front, and the bound `m`, where there is one, has room for it.
  pub record IsFront (m : ℕ) (e : Element V) (c : Lru V) : Type 0 where
    pub behind : List (Element V)
    pub in_front : c.ll ≡ e ∷ behind
    pub fits : (m ≡ 0) ⊎ (entry_size len e ≤ m)

  over_same :
      (m : ℕ) (c : Lru V)
      → c.max_bytes ≡ pos m
      → IsValid len c
      → over len c ≡ (not (m == 0) && ltb m (size len c.ll))
  unfolding over
  over_same m c b v = rw (b, v.counted) (ground arith)

  drop_back-behind :
      (e : Element V) (behind : List (Element V))
      → entry_size len e < size len (e ∷ behind)
      → drop_back (e ∷ behind) ≡ e ∷ drop_back behind
  unfolding drop_back
  drop_back-behind e [] lt = absurd (omega arith)
  drop_back-behind e (g ∷ es) lt = refl

  over-back :
      (m : ℕ) (c : Lru V)
      → c.max_bytes ≡ pos m
      → IsValid len c
      → over len c ≡ true
      → (f : Element V) × (back c.ll ≡ some f) × (m < size len c.ll) × (0 < m)
  over-back m c b v full =
      let tested = sym (over_same m c b v) ∙ full in
      let lt : m < size len c.ll = ground arith in
      let some_bound : 0 < m = ground arith in
      let (f, last) = nonempty c.ll (omega arith) in (f, last, lt, some_bound)
    where
      nonempty : (es : List (Element V)) → 0 < size len es → (f : Element V) × (back es ≡ some f)
      nonempty [] some_size = absurd (omega arith)
      nonempty (e ∷ es) some_size = back-cons e es

  remove_oldest-IsFront :
      (m : ℕ) (e : Element V) (c : Lru V)
      → c.max_bytes ≡ pos m
      → IsValid len c
      → over len c ≡ true
      → IsFront m e c
      → IsFront m e (remove_oldest len c)
  remove_oldest-IsFront m e c b v full f =
      let (h, last, lt, some_bound) = over-back m c b v full in
      let wide = ap (size len) f.in_front in
      subst (IsFront m e) (sym (removed_last len c h last)) (record {
        behind = drop_back f.behind;
        in_front =
            ap drop_back f.in_front ∙ drop_back-behind e f.behind (ground (arith, f.fits, wide));
        fits = f.fits;
      })

  -- The outcome of the loop of `Add`, for a bound that is not negative.
  pub record IsEvicted (m : ℕ) (c' : Lru V) : Type 0 where
    pub valid : IsValid len c'
    pub within : (m ≡ 0) ⊎ (c'.n_bytes ≤ℤ pos m)

  pub evict-IsEvicted :
      (fuel m : ℕ) (c : Lru V)
      → c.max_bytes ≡ pos m
      → IsValid len c
      → length c.ll < fuel
      → (c' : Lru V) × (evict len fuel c ≡ some c') × IsEvicted m c'
  unfolding evict
  evict-IsEvicted zero m c b v fuelled = absurd (omega arith)
  evict-IsEvicted (suc fuel) m c b v fuelled = elim (Bool-cases (over len c)) [
    | inr done ↦
        let tested = sym (over_same m c b v) ∙ done in
        let counted = ap pos_part v.counted in
        let counted' = ap neg_part v.counted in
        (
          c,
          ground (arith, done),
          record { valid = v; within = ground (arith, tested, counted, counted') },
        )
    | inl full ↦
        let (h, last, lt, some_bound) = over-back m c b v full in
        let eq = removed_last len c h last in
        let (c', ran, out) =
          evict-IsEvicted fuel m (remove_oldest len c) (ap (λ d. d.max_bytes) eq ∙ b)
            (remove_oldest-IsValid len c v)
            (omega (arith, length-drop_back c.ll h last, ap (λ d. length d.ll) eq)) in
        (c', ground (arith, full, ran), out)
  ]

  pub evict-IsFront :
      (fuel m : ℕ) (e : Element V) (c c' : Lru V)
      → c.max_bytes ≡ pos m
      → IsValid len c
      → IsFront m e c
      → evict len fuel c ≡ some c'
      → IsFront m e c'
  unfolding evict
  evict-IsFront zero m e c c' b v f ran = absurd (cc)
  evict-IsFront (suc fuel) m e c c' b v f ran = elim (Bool-cases (over len c)) [
    | inr done ↦ let same : c ≡ c' = ground (arith, done) in subst (IsFront m e) same f
    | inl full ↦
        let (h, last, lt, some_bound) = over-back m c b v full in
        evict-IsFront fuel m e (remove_oldest len c) c'
          (ap (λ d. d.max_bytes) (removed_last len c h last) ∙ b) (remove_oldest-IsValid len c v)
          (remove_oldest-IsFront m e c b v full f) (ground (arith, full, ran))
  ]

  over_negative : (n : ℕ) (c : Lru V) → c.max_bytes ≡ negsuc n → IsValid len c → over len c ≡ true
  unfolding over
  over_negative n c b v = rw (b, v.counted) (ground arith)

  removed-bound : (c : Lru V) → (remove_oldest len c).max_bytes ≡ c.max_bytes
  unfolding remove_oldest
  removed-bound c = ground arith

  pub evict-negative :
      (fuel n : ℕ) (c : Lru V) → c.max_bytes ≡ negsuc n → IsValid len c → evict len fuel c ≡ none
  unfolding evict
  evict-negative zero n c b v = refl
  evict-negative (suc fuel) n c b v =
      let full = over_negative n c b v in
      let ih =
        evict-negative fuel n (remove_oldest len c) (removed-bound c ∙ b)
          (remove_oldest-IsValid len c v) in
      ground (arith, full, ih)
