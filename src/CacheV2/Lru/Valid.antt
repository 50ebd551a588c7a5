-- ===== src/CacheV2/Lru/Valid.antt =====
-- sonnet-cache-v2/store/lru.go: the invariant of the store, and the steps that its methods are made of.
use sonnet_pro.Prelude.Int.{ℤ, pos, ◌+ℤ◌, pos_part, neg_part, +ℤ_parts, eq_of_parts}
use sonnet_pro.Prelude.Maps.{lookup, insert, delete, lookup-insert, lookup-delete}
use sonnet_pro.Prelude.{
  ℕ, zero, suc, ◌+◌, ◌<◌, ◌≡◌, refl, sym, ◌∙◌, ap, subst, arith, List, ◌∷◌, none, some, Text,
  text_dec, length, ite, All, ◌⊎◌, inl, inr,
}
use sonnet_pro.Cache.Lru.{Element, element_at, unlink, entry_size}
use sonnet_pro.Cache.Lru.Shape.{
  id_of, AreDistinct, element_at-id_of, All-unlink, unlink-AreDistinct, id_of-unlink, size,
  size-unlink,
}
use sonnet_pro.Cache.Lru.Back.{id_of-none, All-fresh, All-suc}
use sonnet_pro.Cache.Lru.Valid.{raised, lowered}
use sonnet_pro.CacheV2.Lru.{
  LruCache, new_lru_cache, expire, clear, remove_element, replace, push_back,
}
use sonnet_pro.CacheV2.Lru.Shape.{id_of-removed}

grown : (n : ℤ) (s a : ℕ) → n ≡ pos s → n +ℤ pos a ≡ pos (a + s)
grown n s a h = eq_of_parts _ _ (omega (arith, +ℤ_parts n (pos a), ap pos_part h, ap neg_part h))

module _ {V : Type 0} (len : V → ℕ) where
  -- The items know each key's element and no other, keys and identities are apart, the bytes used are
  -- the size of the entries, and only keys that are there have an expiration.
  pub record IsValid (c : LruCache V) : Type 0 where
    pub agrees : (k : Text) → lookup text_dec k c.items ≡ id_of k c.list
    pub distinct : AreDistinct c.list
    pub fresh : All (λ e. e.id < c.next_id) c.list
    pub counted : c.used_bytes ≡ pos (size len c.list)
    pub timed :
        (k : Text) (t : ℕ)
        → lookup text_dec k c.expires ≡ some t
        → (i : ℕ) × (lookup text_dec k c.items ≡ some i)

  pub new_lru_cache-IsValid : (max_bytes : ℤ) → IsValid (new_lru_cache max_bytes)
  unfolding new_lru_cache lookup id_of
  new_lru_cache-IsValid max_bytes = record {
    agrees = λ k. refl;
    distinct = tt;
    fresh = tt;
    counted = refl;
    timed = λ k t e. absurd (cc);
  }

  pub clear-IsValid : (c : LruCache V) → IsValid (clear c)
  unfolding clear lookup id_of
  clear-IsValid c = record {
    agrees = λ k. refl;
    distinct = tt;
    fresh = tt;
    counted = refl;
    timed = λ k t e. absurd (cc);
  }

  -- The element that the items give for a key.
  pub found :
      (key : Text) (i : ℕ) (c : LruCache V)
      → IsValid c
      → lookup text_dec key c.items ≡ some i
      → (e : Element V) × (element_at i c.list ≡ some e) × (e.key ≡ key) × (e.id ≡ i)
  found key i c v there = element_at-id_of key i c.list v.distinct (sym (v.agrees key) ∙ there)

  -- Removing an element that is there.
  pub remove_element-IsValid :
      (e : Element V) (c : LruCache V)
      → element_at e.id c.list ≡ some e
      → IsValid c
      → IsValid (remove_element len e c)
  unfolding remove_element
  remove_element-IsValid e c at v = record {
    agrees = λ k.
        lookup-delete text_dec e.key k c.items
        ∙ ap (λ o. ite (text_dec e.key k) none o) (v.agrees k)
        ∙ sym (id_of-removed k e.id c.list e at v.distinct);
    distinct = (unlink-AreDistinct e.id c.list e at v.distinct).1;
    fresh = (All-unlink (λ f. f.id < c.next_id) e.id c.list e at v.fresh).1;
    counted =
        lowered c.used_bytes (size len c.list) (entry_size len e) (size len (unlink e.id c.list))
          v.counted (size-unlink len e.id c.list e at);
    timed = λ k t h. elim (text_dec e.key k) [
      | yes p ↦ absurd (ground (arith, lookup-delete text_dec e.key k c.expires))
      | no p ↦
          let (i, there) = v.timed k t (ground (arith, lookup-delete text_dec e.key k c.expires)) in
          (i, ground (arith, there, lookup-delete text_dec e.key k c.items))
    ];
  }

  -- Setting the expiration of a key that is there.
  pub expire-IsValid :
      (now : ℕ) (key : Text) (left i : ℕ) (c : LruCache V)
      → lookup text_dec key c.items ≡ some i
      → IsValid c
      → IsValid (expire now key left c)
  unfolding expire
  expire-IsValid now key zero i c there v = record {
    agrees = v.agrees;
    distinct = v.distinct;
    fresh = v.fresh;
    counted = v.counted;
    timed = λ k t h. v.timed k t (ground (arith, lookup-delete text_dec key k c.expires));
  }
  expire-IsValid now key (suc left) i c there v = record {
    agrees = v.agrees;
    distinct = v.distinct;
    fresh = v.fresh;
    counted = v.counted;
    timed = λ k t h. elim (text_dec key k) [
      | yes p ↦ (i, subst (λ x. lookup text_dec x c.items ≡ some i) p there)
      | no p ↦ v.timed k t (ground (arith, lookup-insert text_dec key k (now + suc left) c.expires))
    ];
  }

  -- Using an element that is there.
  pub moved-IsValid :
      (i : ℕ) (e : Element V) (c : LruCache V)
      → element_at i c.list ≡ some e
      → IsValid c
      → IsValid (record c { list = e ∷ unlink i c.list })
  unfolding id_of
  moved-IsValid i e c at v = record {
    agrees = λ k. v.agrees k ∙ sym (id_of-unlink k i c.list e at v.distinct);
    distinct = unlink-AreDistinct i c.list e at v.distinct;
    fresh = All-unlink (λ f. f.id < c.next_id) i c.list e at v.fresh;
    counted = v.counted ∙ ap pos (sym (size-unlink len i c.list e at));
    timed = v.timed;
  }

  -- Giving an element that is there a new value.
  pub replace-IsValid :
      (e : Element V) (value : V) (c : LruCache V)
      → element_at e.id c.list ≡ some e
      → IsValid c
      → IsValid (replace len e value c)
  unfolding replace id_of
  replace-IsValid e value c at v = record {
    agrees = λ k. v.agrees k ∙ sym (id_of-unlink k e.id c.list e at v.distinct);
    distinct = unlink-AreDistinct e.id c.list e at v.distinct;
    fresh = All-unlink (λ f. f.id < c.next_id) e.id c.list e at v.fresh;
    counted =
        raised c.used_bytes (size len c.list) (len value) (len e.value) (length e.key) _ v.counted
          (size-unlink len e.id c.list e at);
    timed = v.timed;
  }

  push-IsValid :
      (key : Text) (value : V) (expires : List (Text × ℕ)) (c : LruCache V)
      → lookup text_dec key c.items ≡ none
      → IsValid c
      → ((k : Text) (t : ℕ)
          → lookup text_dec k expires ≡ some t
          → (key ≡ k) ⊎ ((i : ℕ) × (lookup text_dec k c.items ≡ some i)))
      → IsValid (push_back len key value (record c { expires = expires }))
  unfolding push_back id_of
  push-IsValid key value expires c new v timed =
      let e : Element V = record { id = c.next_id; key = key; value = value } in
      let unknown = id_of-none key c.list (sym (v.agrees key) ∙ new) in
      record {
        agrees = λ k. ground (arith, lookup-insert text_dec key k c.next_id c.items, v.agrees k);
        distinct = (All-fresh key c.next_id c.list e refl refl unknown v.fresh, v.distinct);
        fresh = (omega arith, All-suc c.next_id c.list v.fresh);
        counted = grown c.used_bytes (size len c.list) (length key + len value) v.counted;
        timed = λ k t h. elim (text_dec key k) [
          | yes p ↦ (c.next_id, ground (arith, p, lookup-insert text_dec key k c.next_id c.items))
          | no p ↦ elim (timed k t h) [
            | inl q ↦ absurd (p q)
            | inr (i, there) ↦
                (i, ground (arith, there, lookup-insert text_dec key k c.next_id c.items))
          ]
        ];
      }

  -- Adding an entry for a new key, whose expiration is set already.
  pub push_back-IsValid :
      (now : ℕ) (key : Text) (value : V) (left : ℕ) (c : LruCache V)
      → lookup text_dec key c.items ≡ none
      → IsValid c
      → IsValid (push_back len key value (expire now key left c))
  unfolding expire
  push_back-IsValid now key value zero c new v =
      push-IsValid key value (delete text_dec key c.expires) c new v
        (λ k t h. inr (v.timed k t (ground (arith, lookup-delete text_dec key k c.expires))))
  push_back-IsValid now key value (suc left) c new v =
      push-IsValid key value (insert text_dec key (now + suc left) c.expires) c new v (λ k t h.
        elim (text_dec key k) [
          | yes p ↦ inl p
          | no p ↦ inr (
              v.timed k t (ground (arith, lookup-insert text_dec key k (now + suc left) c.expires)))
        ])
