-- ===== src/CacheV2/Lru/Steps.antt =====
-- sonnet-cache-v2/store/lru.go: every method keeps the store valid.
use sonnet_pro.Prelude.Maps.{lookup}
use sonnet_pro.Prelude.{
  ℕ, zero, suc, ◌≡◌, refl, sym, ◌∙◌, ap, subst, arith, List, [], ◌∷◌, true, false, Bool-cases, none,
  some, Option-cases, Text, text_dec, ltb, inl, inr,
}
use sonnet_pro.Cache.Lru.{Element, element_at, unlink, back}
use sonnet_pro.CacheV2.Lru.{
  LruCache, is_expired, move_to_back, get_read, get_touch, expire, remove_element, delete_key, get,
  drop_expired, is_over, shrink, evict, replace, push_back, store_value,
}
use sonnet_pro.CacheV2.Lru.Shape.{element_at-back}
use sonnet_pro.CacheV2.Lru.Valid.{
  IsValid, found, remove_element-IsValid, expire-IsValid, moved-IsValid, replace-IsValid,
  push_back-IsValid,
}

module _ {V : Type 0} where
  pub delete_key_absent :
      (len : V → ℕ) (key : Text) (c : LruCache V)
      → lookup text_dec key c.items ≡ none
      → delete_key len key c ≡ (c, false)
  unfolding delete_key
  delete_key_absent len key c e = ground (arith, e)

  pub delete_key_there :
      (len : V → ℕ) (key : Text) (i : ℕ) (e : Element V) (c : LruCache V)
      → lookup text_dec key c.items ≡ some i
      → element_at i c.list ≡ some e
      → delete_key len key c ≡ (remove_element len e c, true)
  unfolding delete_key
  delete_key_there len key i e c there at = ground (arith, there, at)

  touched :
      (i : ℕ) (e : Element V) (es : List (Element V))
      → element_at i es ≡ some e
      → move_to_back i es ≡ e ∷ unlink i es
  unfolding move_to_back
  touched i e es at = ground (arith, at)

  expire_list :
      (now : ℕ) (key : Text) (left : ℕ) (c : LruCache V) → (expire now key left c).list ≡ c.list
  unfolding expire
  expire_list now key zero c = refl
  expire_list now key (suc left) c = refl

module _ {V : Type 0} (len : V → ℕ) where
  pub delete_key-IsValid :
      (key : Text) (c : LruCache V) → IsValid len c → IsValid len (delete_key len key c).0
  delete_key-IsValid key c v = elim (Option-cases (lookup text_dec key c.items)) [
    | inl e ↦ subst (λ r. IsValid len r.0) (sym (delete_key_absent len key c e)) v
    | inr (i, there) ↦
        let (e, at, same, mine) = found len key i c v there in
        subst (λ r. IsValid len r.0) (sym (delete_key_there len key i e c there at))
          (remove_element-IsValid len e c (rw mine at) v)
  ]

  pub drop_expired-IsValid :
      (now : ℕ) (expirations : List (Text × ℕ)) (c : LruCache V)
      → IsValid len c
      → IsValid len (drop_expired len now expirations c)
  unfolding drop_expired
  drop_expired-IsValid now [] c v = v
  drop_expired-IsValid now ((key, t) ∷ rest) c v =
      drop_expired-IsValid now rest _ (elim (Bool-cases (ltb t now)) [
        | inl late ↦ rw late (delete_key-IsValid key c v)
        | inr early ↦ rw early v
      ])

  pub back-removed :
      (e : Element V) (c : LruCache V)
      → back c.list ≡ some e
      → IsValid len c
      → IsValid len (remove_element len e c)
  back-removed e c last v =
      remove_element-IsValid len e c (element_at-back c.list e v.distinct last) v

  pub shrink_empty : (fuel : ℕ) (c : LruCache V) → back c.list ≡ none → shrink len fuel c ≡ c
  unfolding shrink
  shrink_empty zero c e = refl
  shrink_empty (suc fuel) c e = ground (arith, e)

  pub shrink_done : (fuel : ℕ) (c : LruCache V) → is_over len c ≡ false → shrink len fuel c ≡ c
  unfolding shrink
  shrink_done zero c e = refl
  shrink_done (suc fuel) c e = ground (arith, e)

  pub shrink_step :
      (fuel : ℕ) (c : LruCache V) (e : Element V)
      → back c.list ≡ some e
      → is_over len c ≡ true
      → shrink len (suc fuel) c ≡ shrink len fuel (remove_element len e c)
  unfolding shrink
  shrink_step fuel c e last over = ground (arith, last, over)

  pub shrink-IsValid : (fuel : ℕ) (c : LruCache V) → IsValid len c → IsValid len (shrink len fuel c)
  shrink-IsValid zero c v = unfold shrink in v
  shrink-IsValid (suc fuel) c v = elim (Bool-cases (is_over len c)) [
    | inr done ↦ subst (IsValid len) (sym (shrink_done (suc fuel) c done)) v
    | inl over ↦ elim (Option-cases (back c.list)) [
      | inl nothing ↦ subst (IsValid len) (sym (shrink_empty (suc fuel) c nothing)) v
      | inr (e, last) ↦
          subst (IsValid len) (sym (shrink_step fuel c e last over))
            (shrink-IsValid fuel (remove_element len e c) (back-removed e c last v))
    ]
  ]

  pub evict-IsValid : (now : ℕ) (c : LruCache V) → IsValid len c → IsValid len (evict len now c)
  unfolding evict
  evict-IsValid now c v = shrink-IsValid _ _ (drop_expired-IsValid now c.expires c v)

  pub touch-IsValid :
      (i : ℕ) (e : Element V) (c : LruCache V)
      → element_at i c.list ≡ some e
      → IsValid len c
      → IsValid len (record c { list = move_to_back i c.list })
  touch-IsValid i e c at v =
      subst (λ es. IsValid len (record c { list = es })) (sym (touched i e c.list at))
        (moved-IsValid len i e c at v)

  pub get-IsValid :
      (now : ℕ) (key : Text) (c : LruCache V) → IsValid len c → IsValid len (get len now key c).0
  get-IsValid now key c v = elim (Option-cases (lookup text_dec key c.items)) [
    | inl e ↦
        let eq : get len now key c ≡ (c, none) = unfold get get_read in ground (arith, e) in
        subst (λ r. IsValid len r.0) (sym eq) v
    | inr (i, there) ↦
        let (e, at, same, mine) = found len key i c v there in
        elim (Bool-cases (is_expired now key c)) [
          | inl late ↦
              let eq : get len now key c ≡ ((delete_key len key c).0, none) =
                unfold get get_read in ground (arith, there, at, late) in
              subst (λ r. IsValid len r.0) (sym eq) (delete_key-IsValid key c v)
          | inr early ↦
              let eq : get len now key c
                  ≡ (record c { list = move_to_back i c.list }, some e.value) =
                unfold get get_read get_touch in ground (arith, there, at, early) in
              subst (λ r. IsValid len r.0) (sym eq) (touch-IsValid i e c at v)
        ]
  ]

  pub store_value-IsValid :
      (now : ℕ) (key : Text) (value : V) (left : ℕ) (c : LruCache V)
      → IsValid len c
      → IsValid len (store_value len now key value left c)
  store_value-IsValid now key value left c v = elim (Option-cases (lookup text_dec key c.items)) [
    | inl new ↦
        let eq : store_value len now key value left c
            ≡ evict len now (push_back len key value (expire now key left c)) =
          unfold store_value in ground (arith, new) in
        subst (IsValid len) (sym eq)
          (evict-IsValid now _ (push_back-IsValid len now key value left c new v))
    | inr (i, there) ↦
        let (e, at, same, mine) = found len key i c v there in
        let at' : element_at e.id (expire now key left c).list ≡ some e =
          ap (element_at e.id) (expire_list now key left c) ∙ rw mine at in
        let eq : store_value len now key value left c
            ≡ replace len e value (expire now key left c) =
          unfold store_value in ground (arith, there, at) in
        subst (IsValid len) (sym eq) (
          replace-IsValid len e value (expire now key left c) at'
            (expire-IsValid len now key left i c there v))
  ]
