-- ===== src/CacheV2/Lru/Shape.antt =====
-- sonnet-cache-v2/store/lru.go: the list without one of its elements.
use sonnet_pro.Prelude.{
  ℕ, ◌≡◌, ◌≢◌, refl, subst, arith, List, [], ◌∷◌, none, some, Text, text_dec, ite, ℕ_discrete, All,
}
use sonnet_pro.Cache.Lru.{Element, element_at, unlink, back}
use sonnet_pro.Cache.Lru.Shape.{id_of, AreDistinct, Apart, unlink-AreDistinct, id_of-unlink}
use sonnet_pro.Cache.Lru.Back.{All-drop_back}

module _ {V : Type 0} where
  id_of-apart : (k : Text) (es : List (Element V)) → All (λ f. f.key ≢ k) es → id_of k es ≡ none
  unfolding id_of
  id_of-apart k [] all = refl
  id_of-apart k (e ∷ es) all = ground (arith, all.0, id_of-apart k es all.1)

  Apart-keys :
      (e : Element V) (es : List (Element V)) → All (Apart e) es → All (λ f. f.key ≢ e.key) es
  Apart-keys e [] all = tt
  Apart-keys e (f ∷ es) all = (all.0.0, Apart-keys e es all.1)

  -- An element that is taken out leaves its key without one, and the other keys as they were.
  pub id_of-removed :
      (k : Text) (i : ℕ) (es : List (Element V)) (e : Element V)
      → element_at i es ≡ some e
      → AreDistinct es
      → id_of k (unlink i es) ≡ ite (text_dec e.key k) none (id_of k es)
  id_of-removed k i es e at d =
      let moved = id_of-unlink k i es e at d in
      let (apart, rest) = unlink-AreDistinct i es e at d in
      elim (text_dec e.key k) [
        | yes p ↦
            let gone = id_of-apart e.key (unlink i es) (Apart-keys e (unlink i es) apart) in
            let gone' : id_of k (unlink i es) ≡ none =
              subst (λ x. id_of x (unlink i es) ≡ none) p gone in
            ground (arith, gone', p)
        | no p ↦ ground (arith, moved, p)
      ]

  -- The last element is found by its identity.
  pub element_at-back :
      (es : List (Element V)) (e : Element V)
      → AreDistinct es
      → back es ≡ some e
      → element_at e.id es ≡ some e
  unfolding element_at back
  element_at-back [] e d h = absurd (cc)
  element_at-back (f ∷ []) e d h =
      let same : f ≡ e = cc in subst (λ g. element_at g.id (f ∷ []) ≡ some g) same (ground arith)
  element_at-back (f ∷ g ∷ es) e d h =
      let away = (All-drop_back (Apart f) (g ∷ es) e h d.0).0.1 in
      ground (arith, away, element_at-back (g ∷ es) e d.1 h)

  -- An element is found by its own identity.
  pub element_at-id :
      (i : ℕ) (es : List (Element V)) (e : Element V) → element_at i es ≡ some e → e.id ≡ i
  unfolding element_at
  element_at-id i [] e h = absurd (cc)
  element_at-id i (f ∷ es) e h = elim (ℕ_discrete f.id i) [
    | yes p ↦ let same : f ≡ e = ground arith in subst (λ g. g.id ≡ i) same p
    | no p ↦ element_at-id i es e (ground arith)
  ]
