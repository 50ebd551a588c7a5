-- ===== src/Cache/Lru/Add.antt =====
-- sonnet-cache/lru/lru.go: `Add` as a whole, and what `Get` then finds.
use sonnet_pro.Prelude.Int.{pos, negsuc}
use sonnet_pro.Prelude.{
  ℕ, suc, ◌+◌, ◌≤◌, ◌<◌, ◌≡◌, refl, sym, ◌∙◌, ap, subst, arith, List, ◌∷◌, none, some, Option-cases,
  Text, text_dec, length, ◌⊎◌, inl, inr,
}
use sonnet_pro.Prelude.Maps.{lookup}
use sonnet_pro.Cache.Lru.{Element, Lru, element_at, get, put, add, push_front, unlink}
use sonnet_pro.Cache.Lru.Shape.{id_of, element_at-id_of, length-unlink}
use sonnet_pro.Cache.Lru.Valid.{IsValid, put-IsValid, put_new, put_old, get_hit}
use sonnet_pro.Cache.Lru.Evict.{IsFront, IsEvicted, evict-IsEvicted, evict-IsFront, evict-negative}

module _ {V : Type 0} where
  id_of-same : (e : Element V) (es : List (Element V)) → id_of e.key (e ∷ es) ≡ some e.id
  unfolding id_of
  id_of-same e es = ground arith

  element_at-same : (e : Element V) (es : List (Element V)) → element_at e.id (e ∷ es) ≡ some e
  unfolding element_at
  element_at-same e es = ground arith

module _ {V : Type 0} (len : V → ℕ) where
  get-front :
      (m : ℕ) (e : Element V) (c : Lru V)
      → IsValid len c
      → IsFront len m e c
      → (get e.key c).1 ≡ some e.value
  get-front m e c v f =
      let there : id_of e.key c.ll ≡ some e.id =
        ap (id_of e.key) f.in_front ∙ id_of-same e f.behind in
      let at : element_at e.id c.ll ≡ some e =
        ap (element_at e.id) f.in_front ∙ element_at-same e f.behind in
      ap (λ r. r.1) (get_hit len e.key c e.id e (v.agrees e.key ∙ there) at)

  -- Storing puts the value in front, under its key.
  pub record IsStored (key : Text) (value : V) (c c' : Lru V) : Type 0 where
    pub id : ℕ
    pub behind : List (Element V)
    pub in_front : c'.ll ≡ record { id = id; key = key; value = value } ∷ behind
    pub bound : c'.max_bytes ≡ c.max_bytes
    pub short : length c'.ll ≤ suc (length c.ll)

  put-IsStored :
      (key : Text) (value : V) (c : Lru V)
      → IsValid len c
      → IsStored key value c (put len key value c)
  unfolding push_front
  put-IsStored key value c v = elim (Option-cases (lookup text_dec key c.cache)) [
    | inl none_there ↦
        subst (IsStored key value c) (sym (put_new len key value c none_there)) (record {
          id = c.next_id;
          behind = c.ll;
          in_front = refl;
          bound = refl;
          short = omega arith;
        })
    | inr (i, there) ↦
        let (e, at, same, mine) =
          element_at-id_of key i c.ll v.distinct (sym (v.agrees key) ∙ there) in
        let front : Text → Element V = λ k. record { id = e.id; key = k; value = value } in
        subst (IsStored key value c) (sym (put_old len key value c i e there at)) (record {
          id = e.id;
          behind = unlink i c.ll;
          in_front = ap (λ k. front k ∷ unlink i c.ll) same;
          bound = refl;
          short = omega (arith, length-unlink i c.ll e at);
        })
  ]

  -- On a valid cache whose bound is not negative, `Add` returns as soon as it has one round more than
  -- entries, the new one included: the cache is valid again and within its bound, where it has one.
  pub add-IsEvicted :
      (fuel m : ℕ) (key : Text) (value : V) (c : Lru V)
      → c.max_bytes ≡ pos m
      → IsValid len c
      → suc (length c.ll) < fuel
      → (c' : Lru V) × (add len fuel key value c ≡ some c') × IsEvicted len m c'
  unfolding add
  add-IsEvicted fuel m key value c b v lt =
      let stored = put-IsStored key value c v in
      evict-IsEvicted len fuel m (put len key value c) (stored.bound ∙ b)
        (put-IsValid len key value c v) (omega (arith, stored.short))

  -- On a valid cache whose bound is zero or has room for the entry alone, `Add` returns as soon as it
  -- has one round more than entries, and `Get` finds the value that it stored.
  pub get-add :
      (fuel m : ℕ) (key : Text) (value : V) (c : Lru V)
      → c.max_bytes ≡ pos m
      → IsValid len c
      → (m ≡ 0) ⊎ (length key + len value ≤ m)
      → suc (length c.ll) < fuel
      → (c' : Lru V) × (add len fuel key value c ≡ some c') × ((get key c').1 ≡ some value)
  unfolding add
  get-add fuel m key value c b v fits lt =
      let stored = put-IsStored key value c v in
      let e : Element V = record { id = stored.id; key = key; value = value } in
      let front : IsFront len m e (put len key value c) = record {
        behind = stored.behind;
        in_front = stored.in_front;
        fits = fits;
      } in
      let valid = put-IsValid len key value c v in
      let (c', ran, out) =
        evict-IsEvicted len fuel m (put len key value c) (stored.bound ∙ b) valid
          (omega (arith, stored.short)) in
      (
        c',
        ran,
        get-front m e c' out.valid (
            evict-IsFront len fuel m e (put len key value c) c' (stored.bound ∙ b) valid front ran),
      )

  -- With a negative bound, `Add` never returns on a valid cache: no fuel is enough.
  pub add-negative :
      (fuel n : ℕ) (key : Text) (value : V) (c : Lru V)
      → c.max_bytes ≡ negsuc n
      → IsValid len c
      → add len fuel key value c ≡ none
  unfolding add
  add-negative fuel n key value c b v =
      evict-negative len fuel n (put len key value c) ((put-IsStored key value c v).bound ∙ b)
        (put-IsValid len key value c v)
