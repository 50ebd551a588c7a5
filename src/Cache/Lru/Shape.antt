-- ===== src/Cache/Lru/Shape.antt =====
-- sonnet-cache/lru/lru.go: the list, the map and the byte count agree.
use sonnet_pro.Prelude.{
  ℕ, suc, ◌+◌, ◌≡◌, ◌≢◌, sym, ap, subst, arith, List, [], ◌∷◌, Option, none, some, Text, text_dec,
  length, ite, ℕ_discrete, All,
}
use sonnet_pro.Cache.Lru.{Element, element_at, unlink, entry_size}

module _ {V : Type 0} where
  -- The identity of the element with a key.
  unfoldable pub id_of : Text → List (Element V) → Option ℕ
  id_of k [] = none
  id_of k (e ∷ es) = ite (text_dec e.key k) (some e.id) (id_of k es)

  -- No two elements have a key or an identity in common.
  abbrev pub AreDistinct : List (Element V) → Type 0
  AreDistinct [] = Unit
  AreDistinct (e ∷ es) = All (λ f. (f.key ≢ e.key) × (f.id ≢ e.id)) es × AreDistinct es

  id_of-All :
      (P : Element V → Type 0) (k : Text) (i : ℕ) (es : List (Element V))
      → All P es
      → id_of k es ≡ some i
      → (e : Element V) × P e × (e.key ≡ k) × (e.id ≡ i)
  unfolding id_of
  id_of-All P k i [] all h = absurd (cc)
  id_of-All P k i (e ∷ es) all h = elim (text_dec e.key k) [
    | yes p ↦ (e, all.0, p, ground arith)
    | no p ↦ id_of-All P k i es all.1 (ground arith)
  ]

  -- The element that the map's identity stands for.
  pub element_at-id_of :
      (k : Text) (i : ℕ) (es : List (Element V))
      → AreDistinct es
      → id_of k es ≡ some i
      → (e : Element V) × (element_at i es ≡ some e) × (e.key ≡ k) × (e.id ≡ i)
  unfolding id_of element_at
  element_at-id_of k i [] d h = absurd (cc)
  element_at-id_of k i (e ∷ es) d h = elim (text_dec e.key k) [
    | yes p ↦ (e, ground arith, p, ground arith)
    | no p ↦
        let h' : id_of k es ≡ some i = ground arith in
        let (f, at, same, mine) = element_at-id_of k i es d.1 h' in
        let (g, (apart_key, apart), key_g, id_g) = id_of-All _ k i es d.0 h' in
        (f, ground arith, same, mine)
  ]

  unlink_here : (i : ℕ) (f : Element V) (es : List (Element V)) → f.id ≡ i → unlink i (f ∷ es) ≡ es
  unfolding unlink
  unlink_here i f es p = ground arith

  unlink_there :
      (i : ℕ) (f : Element V) (es : List (Element V))
      → f.id ≢ i
      → unlink i (f ∷ es) ≡ f ∷ unlink i es
  unfolding unlink
  unlink_there i f es p = ground arith

  element_at_here :
      (i : ℕ) (f e : Element V) (es : List (Element V))
      → f.id ≡ i
      → element_at i (f ∷ es) ≡ some e
      → f ≡ e
  unfolding element_at
  element_at_here i f e es p h = ground arith

  element_at_there :
      (i : ℕ) (f e : Element V) (es : List (Element V))
      → f.id ≢ i
      → element_at i (f ∷ es) ≡ some e
      → element_at i es ≡ some e
  unfolding element_at
  element_at_there i f e es p h = ground arith

  -- What holds of all elements holds of one and of those that are left without it.
  pub All-unlink :
      (P : Element V → Type 0) (i : ℕ) (es : List (Element V)) (e : Element V)
      → element_at i es ≡ some e
      → All P es
      → P e × All P (unlink i es)
  All-unlink P i [] e h all = absurd (unfold element_at in cc)
  All-unlink P i (f ∷ es) e h all = elim (ℕ_discrete f.id i) [
    | yes p ↦ (
      subst P (element_at_here i f e es p h) all.0,
      subst (All P) (sym (unlink_here i f es p)) all.1,
    )
    | no p ↦
        let (pe, rest) = All-unlink P i es e (element_at_there i f e es p h) all.1 in
        (pe, subst (All P) (sym (unlink_there i f es p)) (all.0, rest))
  ]

  abbrev pub Apart : Element V → Element V → Type 0
  Apart e f = (f.key ≢ e.key) × (f.id ≢ e.id)

  All-Apart_sym : (e f : Element V) → Apart e f → Apart f e
  All-Apart_sym e f (k, i) = (λ q. k (sym q), λ q. i (sym q))

  -- Moving an element to the front keeps the elements apart, whatever value it gets.
  pub unlink-AreDistinct :
      (i : ℕ) (es : List (Element V)) (e : Element V)
      → element_at i es ≡ some e
      → AreDistinct es
      → All (Apart e) (unlink i es) × AreDistinct (unlink i es)
  unlink-AreDistinct i [] e h d = absurd (unfold element_at in cc)
  unlink-AreDistinct i (f ∷ es) e h d = elim (ℕ_discrete f.id i) [
    | yes p ↦
        let eq = element_at_here i f e es p h in
        subst (λ xs. All (Apart e) xs × AreDistinct xs) (sym (unlink_here i f es p))
          (subst (λ g. All (Apart g) es) eq d.0, d.1)
    | no p ↦
        let h' = element_at_there i f e es p h in
        let (apart, rest) = unlink-AreDistinct i es e h' d.1 in
        let (away, all) = All-unlink (Apart f) i es e h' d.0 in
        subst (λ xs. All (Apart e) xs × AreDistinct xs) (sym (unlink_there i f es p))
          ((All-Apart_sym f e away, apart), (all, rest))
  ]

  -- Moving an element to the front changes no identity.
  pub id_of-unlink :
      (k : Text) (i : ℕ) (es : List (Element V)) (e : Element V)
      → element_at i es ≡ some e
      → AreDistinct es
      → ite (text_dec e.key k) (some e.id) (id_of k (unlink i es)) ≡ id_of k es
  unfolding id_of
  id_of-unlink k i [] e h d = absurd (unfold element_at in cc)
  id_of-unlink k i (f ∷ es) e h d = elim (ℕ_discrete f.id i) [
    | yes p ↦
        subst
          (λ g. ite (text_dec g.key k) (some g.id) (id_of k (unlink i (f ∷ es))) ≡ id_of k (f ∷ es))
          (element_at_here i f e es p h)
          (ap (λ xs. ite (text_dec f.key k) (some f.id) (id_of k xs)) (unlink_here i f es p))
    | no p ↦
        let h' = element_at_there i f e es p h in
        let ih = id_of-unlink k i es e h' d.1 in
        let away = (All-unlink (Apart f) i es e h' d.0).0.0 in
        let step = ap (id_of k) (unlink_there i f es p) in ground (arith, ih, away, step)
  ]

  pub length-unlink :
      (i : ℕ) (es : List (Element V)) (e : Element V)
      → element_at i es ≡ some e
      → suc (length (unlink i es)) ≡ length es
  length-unlink i [] e h = absurd (unfold element_at in cc)
  length-unlink i (f ∷ es) e h = elim (ℕ_discrete f.id i) [
    | yes p ↦ omega (arith, ap length (unlink_here i f es p))
    | no p ↦
        let ih = length-unlink i es e (element_at_there i f e es p h) in
        omega (arith, ih, ap length (unlink_there i f es p))
  ]

  module _ (len : V → ℕ) where
    abbrev pub size : List (Element V) → ℕ
    size [] = 0
    size (e ∷ es) = entry_size len e + size es

    pub size-unlink :
        (i : ℕ) (es : List (Element V)) (e : Element V)
        → element_at i es ≡ some e
        → entry_size len e + size (unlink i es) ≡ size es
    size-unlink i [] e h = absurd (unfold element_at in cc)
    size-unlink i (f ∷ es) e h = elim (ℕ_discrete f.id i) [
      | yes p ↦ omega (
        arith,
        ap (entry_size len) (element_at_here i f e es p h),
        ap size (unlink_here i f es p),
      )
      | no p ↦
          let ih = size-unlink i es e (element_at_there i f e es p h) in
          omega (arith, ih, ap size (unlink_there i f es p))
    ]
