-- ===== src/CacheV2/Lru/Evict.antt =====
-- sonnet-cache-v2/store/lru.go: what `evict` leaves.
use sonnet_pro.Prelude.Int.{pos, ◌≤ℤ◌, ◌+ℤ◌, ◌-ℤ◌}
use sonnet_pro.Prelude.Maps.{lookup, lookup-delete}
use sonnet_pro.Prelude.{
  ℕ, zero, suc, ◌+◌, ◌≤◌, ◌<◌, ◌≡◌, ◌≢◌, refl, ◌∙◌, ap, subst, arith, List, [], ◌∷◌, true, false,
  Bool-cases, none, some, Option-cases, Text, text_dec, length, ltb, ◌⊎◌, inl, inr,
}
use sonnet_pro.Cache.Lru.{Element, element_at, unlink, back}
use sonnet_pro.Cache.Lru.Shape.{size, size-unlink, length-unlink}
use sonnet_pro.Cache.Lru.Valid.{raised}
use sonnet_pro.CacheV2.Lru.{
  LruCache, expire, remove_element, delete_key, drop_expired, is_over, shrink, evict, replace,
  store_value,
}
use sonnet_pro.CacheV2.Lru.Shape.{element_at-back}
use sonnet_pro.CacheV2.Lru.Valid.{IsValid, found}
use sonnet_pro.CacheV2.Lru.Steps.{
  delete_key_absent, delete_key_there, delete_key-IsValid, drop_expired-IsValid, back-removed,
  shrink_empty, shrink_done, shrink_step,
}

module _ {V : Type 0} (len : V → ℕ) where
  back-none : (es : List (Element V)) → back es ≡ none → length es ≡ 0
  unfolding back
  back-none [] e = omega arith
  back-none (f ∷ []) e = absurd (cc)
  back-none (f ∷ g ∷ es) e = absurd (omega (arith, back-none (g ∷ es) e))

  size_empty : (es : List (Element V)) → length es ≡ 0 → size len es ≡ 0
  size_empty [] e = omega arith
  size_empty (f ∷ es) e = absurd (omega arith)

  -- A store without entries is within its bound.
  is_over_empty : (c : LruCache V) → IsValid len c → length c.list ≡ 0 → is_over len c ≡ false
  unfolding is_over
  is_over_empty c v e = ground (arith, v.counted, size_empty c.list e)

  -- As much fuel as entries is enough for the loop.
  shrink-fits :
      (fuel : ℕ) (c : LruCache V)
      → IsValid len c
      → length c.list ≤ fuel
      → is_over len (shrink len fuel c) ≡ false
  shrink-fits zero c v le = unfold shrink in is_over_empty c v (omega arith)
  shrink-fits (suc fuel) c v le = elim (Bool-cases (is_over len c)) [
    | inr done ↦ ap (is_over len) (shrink_done len (suc fuel) c done) ∙ done
    | inl over ↦ elim (Option-cases (back c.list)) [
      | inl nothing ↦ let within = is_over_empty c v (back-none c.list nothing) in absurd (cc)
      | inr (e, last) ↦
          let gone = length-unlink e.id c.list e (element_at-back c.list e v.distinct last) in
          ap (is_over len) (shrink_step len fuel c e last over)
          ∙ shrink-fits fuel (remove_element len e c) (back-removed len e c last v)
              (unfold remove_element in omega (arith, gone))
    ]
  ]

  -- `evict` brings a valid store within its bound, where it has one.
  pub evict-fits :
      (now : ℕ) (c : LruCache V) → IsValid len c → is_over len (evict len now c) ≡ false
  unfolding evict
  evict-fits now c v =
      shrink-fits (length (drop_expired len now c.expires c).list)
        (drop_expired len now c.expires c) (drop_expired-IsValid len now c.expires c v)
        (omega arith)

  -- A key of which an expiration is left has it from before.
  remove_element-expires :
      (e : Element V) (c : LruCache V) (k : Text) (t : ℕ)
      → lookup text_dec k (remove_element len e c).expires ≡ some t
      → (lookup text_dec k c.expires ≡ some t) × (e.key ≢ k)
  unfolding remove_element
  remove_element-expires e c k t h = ground (arith, lookup-delete text_dec e.key k c.expires)

  delete_key-expires :
      (key : Text) (c : LruCache V) (k : Text) (t : ℕ)
      → IsValid len c
      → lookup text_dec k (delete_key len key c).0.expires ≡ some t
      → (lookup text_dec k c.expires ≡ some t) × (key ≢ k)
  delete_key-expires key c k t v h = elim (Option-cases (lookup text_dec key c.items)) [
    | inl e ↦
        let h' =
          subst (λ r. lookup text_dec k r.0.expires ≡ some t) (delete_key_absent len key c e) h in
        (h', λ q. let (i, there) = v.timed k t h' in absurd (ground (arith, there, e, q)))
    | inr (i, there) ↦
        let (e, at, same, mine) = found len key i c v there in
        let h' =
          subst (λ r. lookup text_dec k r.0.expires ≡ some t)
            (delete_key_there len key i e c there at) h in
        let (before, apart) = remove_element-expires e c k t h' in (before, λ q. apart (same ∙ q))
  ]

  shrink-expires :
      (fuel : ℕ) (c : LruCache V) (k : Text) (t : ℕ)
      → lookup text_dec k (shrink len fuel c).expires ≡ some t
      → lookup text_dec k c.expires ≡ some t
  shrink-expires zero c k t h = unfold shrink in h
  shrink-expires (suc fuel) c k t h = elim (Bool-cases (is_over len c)) [
    | inr done ↦
        subst (λ d. lookup text_dec k d.expires ≡ some t) (shrink_done len (suc fuel) c done) h
    | inl over ↦ elim (Option-cases (back c.list)) [
      | inl nothing ↦
          subst (λ d. lookup text_dec k d.expires ≡ some t) (shrink_empty len (suc fuel) c nothing)
            h
      | inr (e, last) ↦
          let h' =
            subst (λ d. lookup text_dec k d.expires ≡ some t) (shrink_step len fuel c e last over)
              h in
          (remove_element-expires e c k t (shrink-expires fuel (remove_element len e c) k t h')).0
    ]
  ]

  drop_late :
      (now : ℕ) (key : Text) (u : ℕ) (rest : List (Text × ℕ)) (c : LruCache V)
      → ltb u now ≡ true
      → drop_expired len now ((key, u) ∷ rest) c
        ≡ drop_expired len now rest (delete_key len key c).0
  unfolding drop_expired
  drop_late now key u rest c late = rw late refl

  drop_early :
      (now : ℕ) (key : Text) (u : ℕ) (rest : List (Text × ℕ)) (c : LruCache V)
      → ltb u now ≡ false
      → drop_expired len now ((key, u) ∷ rest) c ≡ drop_expired len now rest c
  unfolding drop_expired
  drop_early now key u rest c early = rw early refl

  -- The first loop leaves no expiration that has passed, if its list has all of those.
  drop_expired-fresh :
      (now : ℕ) (expirations : List (Text × ℕ)) (c : LruCache V) (k : Text) (t : ℕ)
      → IsValid len c
      → (lookup text_dec k c.expires ≡ some t
          → (lookup text_dec k expirations ≡ some t) ⊎ (ltb t now ≡ false))
      → lookup text_dec k (drop_expired len now expirations c).expires ≡ some t
      → ltb t now ≡ false
  drop_expired-fresh now [] c k t v known h = elim (known (unfold drop_expired in h)) [
    | inl e ↦ absurd (unfold lookup in cc)
    | inr early ↦ early
  ]
  drop_expired-fresh now ((key, u) ∷ rest) c k t v known h = elim (Bool-cases (ltb u now)) [
    | inl late ↦
        drop_expired-fresh now rest (delete_key len key c).0 k t (delete_key-IsValid len key c v)
          (λ p.
            let (before, apart) = delete_key-expires key c k t v p in
            elim (known before) [
              | inl e ↦ inl (unfold lookup in ground (arith, e, apart))
              | inr early ↦ inr early
            ])
          (subst (λ d. lookup text_dec k d.expires ≡ some t) (drop_late now key u rest c late) h)
    | inr early ↦
        drop_expired-fresh now rest c k t v
          (λ p. elim (known p) [
            | inl e ↦ elim (text_dec key k) [
              | yes q ↦ inr (unfold lookup in ground (arith, e, early, q))
              | no q ↦ inl (unfold lookup in ground (arith, e, q))
            ]
            | inr on_time ↦ inr on_time
          ])
          (subst (λ d. lookup text_dec k d.expires ≡ some t) (drop_early now key u rest c early) h)
  ]

  -- What `evict` leaves of a valid store is within its bound, where it has one: the loop does not
  -- run out of fuel.
  pub evict-within :
      (now : ℕ) (c : LruCache V)
      → IsValid len c
      → ((evict len now c).max_bytes ≤ℤ pos 0)
        ⊎ ((evict len now c).used_bytes ≤ℤ (evict len now c).max_bytes)
  evict-within now c v = tested (evict len now c) (evict-fits now c v)
    where
      tested :
          (d : LruCache V)
          → is_over len d ≡ false
          → (d.max_bytes ≤ℤ pos 0) ⊎ (d.used_bytes ≤ℤ d.max_bytes)
      tested d e = unfold is_over in ground (arith, e)

  -- An expiration that `evict` leaves in a valid store has not passed.
  pub evict-fresh :
      (now : ℕ) (c : LruCache V) (k : Text) (t : ℕ)
      → IsValid len c
      → lookup text_dec k (evict len now c).expires ≡ some t
      → now ≤ t
  evict-fresh now c k t v h =
      let early =
        drop_expired-fresh now c.expires c k t v (λ p. inl p)
          (shrink-expires (length (drop_expired len now c.expires c).list)
            (drop_expired len now c.expires c) k t (unfold evict in h)) in
      ground (arith, early)

  replaced :
      (now : ℕ) (key : Text) (value : V) (left i : ℕ) (c : LruCache V) (e : Element V)
      → lookup text_dec key c.items ≡ some i
      → element_at i c.list ≡ some e
      → store_value len now key value left c ≡ replace len e value (expire now key left c)
  unfolding store_value
  replaced now key value left i c e there at = ground (arith, there, at)

  expire_bytes :
      (now : ℕ) (key : Text) (left : ℕ) (c : LruCache V)
      → ((expire now key left c).used_bytes ≡ c.used_bytes)
        × ((expire now key left c).max_bytes ≡ c.max_bytes)
  unfolding expire
  expire_bytes now key zero c = (refl, refl)
  expire_bytes now key (suc left) c = (refl, refl)

  is_over_bytes :
      (m u : ℕ) (c : LruCache V)
      → c.max_bytes ≡ pos m
      → c.used_bytes ≡ pos u
      → 0 < m
      → m < u
      → is_over len c ≡ true
  unfolding is_over
  is_over_bytes m u c b h some_bound more = rw (b, h) (ground arith)

  -- On a valid store with a positive bound, an update of a key that is there does not evict: with a value that takes more than the bound
  -- leaves, the store is over its bound when the call returns.
  pub store_value-over :
      (now : ℕ) (key : Text) (value : V) (left i m : ℕ) (c : LruCache V) (e : Element V)
      → IsValid len c
      → lookup text_dec key c.items ≡ some i
      → element_at i c.list ≡ some e
      → c.max_bytes ≡ pos m
      → 0 < m
      → m + len e.value < size len c.list + len value
      → is_over len (store_value len now key value left c) ≡ true
  store_value-over now key value left i m c e v there at b some_bound large =
      let eq = replaced now key value left i c e there at in
      let (used, max) = expire_bytes now key left c in
      let rest = size len (unlink i c.list) in
      let sum = size-unlink len i c.list e at in
      let bytes : c.used_bytes +ℤ (pos (len value) -ℤ pos (len e.value))
          ≡ pos (length e.key + len value + rest) =
        raised c.used_bytes (size len c.list) (len value) (len e.value) (length e.key) rest
          v.counted sum in
      let d = replace len e value (expire now key left c) in
      ap (is_over len) eq
      ∙ is_over_bytes m (length e.key + len value + rest) d (unfold replace in max ∙ b)
          (unfold replace in ap (λ n. n +ℤ (pos (len value) -ℤ pos (len e.value))) used ∙ bytes)
          some_bound (omega (arith, large, sum))
