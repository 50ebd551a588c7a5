-- ===== src/Cache/Lru/Back.antt =====
-- sonnet-cache/lru/lru.go: the list without its last element, and with a new one.
use sonnet_pro.Prelude.{
  ℕ, suc, ◌+◌, ◌<◌, ◌≡◌, ◌≢◌, ◌∙◌, ap, subst, arith, List, [], ◌∷◌, none, some, Text, text_dec, ite,
  All,
}
use sonnet_pro.Cache.Lru.{Element, back, drop_back, entry_size}
use sonnet_pro.Cache.Lru.Shape.{id_of, AreDistinct, Apart, size}

module _ {V : Type 0} where
  pub All-drop_back :
      (P : Element V → Type 0) (es : List (Element V)) (e : Element V)
      → back es ≡ some e
      → All P es
      → P e × All P (drop_back es)
  unfolding back drop_back
  All-drop_back P [] e h all = absurd (cc)
  All-drop_back P (f ∷ []) e h all = let same : f ≡ e = cc in (subst P same all.0, tt)
  All-drop_back P (f ∷ g ∷ es) e h all =
      let (pe, rest) = All-drop_back P (g ∷ es) e h all.1 in (pe, (all.0, rest))

  pub drop_back-AreDistinct :
      (es : List (Element V)) (e : Element V)
      → back es ≡ some e
      → AreDistinct es
      → AreDistinct (drop_back es)
  unfolding back drop_back
  drop_back-AreDistinct [] e h d = tt
  drop_back-AreDistinct (f ∷ []) e h d = tt
  drop_back-AreDistinct (f ∷ g ∷ es) e h d =
      ((All-drop_back (Apart f) (g ∷ es) e h d.0).1, drop_back-AreDistinct (g ∷ es) e h d.1)

  pub id_of-drop_back :
      (k : Text) (es : List (Element V)) (e : Element V)
      → back es ≡ some e
      → AreDistinct es
      → id_of k (drop_back es) ≡ ite (text_dec e.key k) none (id_of k es)
  unfolding back drop_back id_of
  id_of-drop_back k [] e h d = absurd (cc)
  id_of-drop_back k (f ∷ []) e h d =
      let same : f ≡ e = cc in
      subst (λ g. none ≡ ite (text_dec g.key k) none (ite (text_dec f.key k) (some f.id) none)) same
        (ground arith)
  id_of-drop_back k (f ∷ g ∷ es) e h d =
      let away = (All-drop_back (Apart f) (g ∷ es) e h d.0).0.0 in
      ground (arith, id_of-drop_back k (g ∷ es) e h d.1, away)

  pub size-drop_back :
      (len : V → ℕ) (es : List (Element V)) (e : Element V)
      → back es ≡ some e
      → entry_size len e + size len (drop_back es) ≡ size len es
  unfolding back drop_back
  size-drop_back len [] e h = absurd (cc)
  size-drop_back len (f ∷ []) e h = let same : f ≡ e = cc in omega (arith, ap (entry_size len) same)
  size-drop_back len (f ∷ g ∷ es) e h = omega (arith, size-drop_back len (g ∷ es) e h)

  pub id_of-none : (k : Text) (es : List (Element V)) → id_of k es ≡ none → All (λ f. f.key ≢ k) es
  unfolding id_of
  id_of-none k [] h = tt
  id_of-none k (e ∷ es) h = elim (text_dec e.key k) [
    | yes p ↦ absurd (ground arith)
    | no p ↦ (p, id_of-none k es (ground arith))
  ]

  pub All-fresh :
      (k : Text) (n : ℕ) (es : List (Element V)) (e : Element V)
      → e.key ≡ k
      → e.id ≡ n
      → All (λ f. f.key ≢ k) es
      → All (λ f. f.id < n) es
      → All (Apart e) es
  All-fresh k n [] e p q keys ids = tt
  All-fresh k n (f ∷ es) e p q keys ids = (
    (λ r. keys.0 (r ∙ p), λ r. absurd (omega (arith, ids.0, r, q))),
    All-fresh k n es e p q keys.1 ids.1,
  )

  pub All-suc :
      (n : ℕ) (es : List (Element V)) → All (λ f. f.id < n) es → All (λ f. f.id < suc n) es
  All-suc n [] h = tt
  All-suc n (f ∷ es) h = (omega (arith, h.0), All-suc n es h.1)
