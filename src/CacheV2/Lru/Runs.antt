-- ===== src/CacheV2/Lru/Runs.antt =====
-- sonnet-cache-v2/store/lru.go: sequences of calls keep the store valid.
use sonnet_pro.Prelude.Int.{ℤ, pos, ltb_ℤ}
use sonnet_pro.Prelude.Maps.{lookup}
use sonnet_pro.Prelude.{
  ℕ, ◌-◌, ◌≡◌, sym, subst, arith, List, [], ◌∷◌, true, false, Bool-cases, Option, none, some,
  Option-cases, Text, text_dec, ltb, inl, inr,
}
use sonnet_pro.CacheV2.Lru.{
  LruCache, new_lru_cache, move_to_back, expire, update_expiration, get_with_expiration, clear,
  delete_key, get, evict, set_max_bytes, set_with_expiration,
}
use sonnet_pro.CacheV2.Lru.Valid.{
  IsValid, new_lru_cache-IsValid, clear-IsValid, found, expire-IsValid,
}
use sonnet_pro.CacheV2.Lru.Steps.{
  delete_key-IsValid, touch-IsValid, evict-IsValid, get-IsValid, store_value-IsValid,
}

module _ {V : Type 0} (len : V → ℕ) where
  set_with_expiration-IsValid :
      (now : ℕ) (key : Text) (value : Option V) (left : ℕ) (c : LruCache V)
      → IsValid len c
      → IsValid len (set_with_expiration len now key value left c)
  unfolding set_with_expiration
  set_with_expiration-IsValid now key none left c v = delete_key-IsValid len key c v
  set_with_expiration-IsValid now key (some value) left c v =
      store_value-IsValid len now key value left c v

  update_expiration-IsValid :
      (now : ℕ) (key : Text) (left : ℕ) (c : LruCache V)
      → IsValid len c
      → IsValid len (update_expiration now key left c).0
  update_expiration-IsValid now key left c v = elim (Option-cases (lookup text_dec key c.items)) [
    | inl e ↦
        let eq : update_expiration now key left c ≡ (c, false) =
          unfold update_expiration in ground (arith, e) in
        subst (λ r. IsValid len r.0) (sym eq) v
    | inr (i, there) ↦
        let eq : update_expiration now key left c ≡ (expire now key left c, true) =
          unfold update_expiration in ground (arith, there) in
        subst (λ r. IsValid len r.0) (sym eq) (expire-IsValid len now key left i c there v)
  ]

  get_with_expiration-IsValid :
      (now : ℕ) (key : Text) (c : LruCache V)
      → IsValid len c
      → IsValid len (get_with_expiration now key c).0
  get_with_expiration-IsValid now key c v = elim (Option-cases (lookup text_dec key c.items)) [
    | inl e ↦
        let eq : get_with_expiration now key c ≡ (c, none) =
          unfold get_with_expiration in ground (arith, e) in
        subst (λ r. IsValid len r.0) (sym eq) v
    | inr (i, there) ↦
        let (e, at, same, mine) = found len key i c v there in
        let used = touch-IsValid len i e c at v in
        elim (Option-cases (lookup text_dec key c.expires)) [
          | inl lasting ↦
              let eq : get_with_expiration now key c
                  ≡ (record c { list = move_to_back i c.list }, some (e.value, 0)) =
                unfold get_with_expiration in ground (arith, there, at, lasting) in
              subst (λ r. IsValid len r.0) (sym eq) used
          | inr (t, limited) ↦ elim (Bool-cases (ltb t now)) [
            | inl late ↦
                let eq : get_with_expiration now key c ≡ (c, none) =
                  unfold get_with_expiration in ground (arith, there, at, limited, late) in
                subst (λ r. IsValid len r.0) (sym eq) v
            | inr early ↦
                let eq : get_with_expiration now key c
                    ≡ (record c { list = move_to_back i c.list }, some (e.value, t - now)) =
                  unfold get_with_expiration in ground (arith, there, at, limited, early) in
                subst (λ r. IsValid len r.0) (sym eq) used
          ]
        ]
  ]

  set_max_bytes-IsValid :
      (now : ℕ) (max_bytes : ℤ) (c : LruCache V)
      → IsValid len c
      → IsValid len (set_max_bytes len now max_bytes c)
  set_max_bytes-IsValid now max_bytes c v =
      let v' : IsValid len (record c { max_bytes = max_bytes }) = record {
        agrees = v.agrees;
        distinct = v.distinct;
        fresh = v.fresh;
        counted = v.counted;
        timed = v.timed;
      } in
      unfold set_max_bytes in
      elim (Bool-cases (ltb_ℤ (pos 0) max_bytes)) [
        | inl bounded ↦ rw bounded (evict-IsValid len now _ v')
        | inr unbounded ↦ rw unbounded v'
      ]

  -- The calls of a store, each with its reading of the clock; `tick` is a round of the cleaner.
  pub data Call : Type 0 where
    gets gets_with_expiration deletes : (now : ℕ) (key : Text) → Call
    sets : (now : ℕ) (key : Text) (value : Option V) (left : ℕ) → Call
    updates : (now : ℕ) (key : Text) (left : ℕ) → Call
    bounds : (now : ℕ) (max_bytes : ℤ) → Call
    clears : Call
    tick : (now : ℕ) → Call

  unfoldable pub step : Call → LruCache V → LruCache V
  step (gets now key) c = (get len now key c).0
  step (gets_with_expiration now key) c = (get_with_expiration now key c).0
  step (deletes now key) c = (delete_key len key c).0
  step (sets now key value left) c = set_with_expiration len now key value left c
  step (updates now key left) c = (update_expiration now key left c).0
  step (bounds now max_bytes) c = set_max_bytes len now max_bytes c
  step clears c = clear c
  step (tick now) c = evict len now c

  unfoldable pub run : List Call → LruCache V → LruCache V
  run [] c = c
  run (call ∷ calls) c = run calls (step call c)

  step-IsValid : (call : Call) (c : LruCache V) → IsValid len c → IsValid len (step call c)
  unfolding step
  step-IsValid (gets now key) c v = get-IsValid len now key c v
  step-IsValid (gets_with_expiration now key) c v = get_with_expiration-IsValid now key c v
  step-IsValid (deletes now key) c v = delete_key-IsValid len key c v
  step-IsValid (sets now key value left) c v = set_with_expiration-IsValid now key value left c v
  step-IsValid (updates now key left) c v = update_expiration-IsValid now key left c v
  step-IsValid (bounds now max_bytes) c v = set_max_bytes-IsValid now max_bytes c v
  step-IsValid clears c v = clear-IsValid len c
  step-IsValid (tick now) c v = evict-IsValid len now c v

  pub run_valid : (calls : List Call) (c : LruCache V) → IsValid len c → IsValid len (run calls c)
  unfolding run
  run_valid [] c v = v
  run_valid (call ∷ calls) c v = run_valid calls (step call c) (step-IsValid call c v)

  -- Whatever the calls of a new store are, its items, its list, its expirations and its byte count
  -- agree.
  pub run-new_lru_cache :
      (calls : List Call) (max_bytes : ℤ) → IsValid len (run calls (new_lru_cache max_bytes))
  run-new_lru_cache calls max_bytes =
      run_valid calls (new_lru_cache max_bytes) (new_lru_cache-IsValid len max_bytes)
