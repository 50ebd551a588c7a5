-- ===== src/Cache/Lru/Valid.antt =====
-- sonnet-cache/lru/lru.go: the invariant of a cache, and the operations that keep it.
use sonnet_pro.Prelude.Int.{ℤ, pos, ◌+ℤ◌, ◌-ℤ◌, pos_part, neg_part, +ℤ_parts, -ℤ_parts, eq_of_parts}
use sonnet_pro.Prelude.Maps.{lookup, delete, lookup-insert, lookup-delete}
use sonnet_pro.Prelude.{
  ℕ, ◌+◌, ◌<◌, ◌≡◌, refl, sym, ◌∙◌, ap, subst, arith, [], ◌∷◌, ◌++◌, none, some, Option-cases, Text,
  text_dec, length, ite, All, inl, inr,
}
use sonnet_pro.Cache.Lru.{
  Element, Lru, element_at, unlink, back, drop_back, get, entry_size, remove_oldest, replace,
  push_front, put,
}
use sonnet_pro.Cache.Lru.Shape.{
  id_of, AreDistinct, element_at-id_of, All-unlink, unlink-AreDistinct, id_of-unlink, size,
  size-unlink,
}
use sonnet_pro.Cache.Lru.Back.{
  All-drop_back, drop_back-AreDistinct, id_of-drop_back, size-drop_back, id_of-none, All-fresh,
  All-suc,
}

pub raised :
    (n : ℤ) (s a b k r : ℕ) → n ≡ pos s → k + b + r ≡ s → n +ℤ (pos a -ℤ pos b) ≡ pos (k + a + r)
raised n s a b k r h e = eq_of_parts _ _ (
    omega (
      arith,
      +ℤ_parts n (pos a -ℤ pos b),
      -ℤ_parts (pos a) (pos b),
      ap pos_part h,
      ap neg_part h,
      e,
    ))

pushed : (n : ℤ) (s a b : ℕ) → n ≡ pos s → n +ℤ (pos a +ℤ pos b) ≡ pos (a + b + s)
pushed n s a b h = eq_of_parts _ _ (
    omega
      (arith, +ℤ_parts n (pos a +ℤ pos b), +ℤ_parts (pos a) (pos b), ap pos_part h, ap neg_part h))

pub lowered : (n : ℤ) (s b r : ℕ) → n ≡ pos s → b + r ≡ s → n -ℤ pos b ≡ pos r
lowered n s b r h e =
    eq_of_parts _ _ (omega (arith, -ℤ_parts n (pos b), ap pos_part h, ap neg_part h, e))

module _ {V : Type 0} (len : V → ℕ) where
  -- The map knows each key's element and no other, keys and identities are apart, and `nBytes` is the
  -- size of the entries.
  pub record IsValid (c : Lru V) : Type 0 where
    pub agrees : (k : Text) → lookup text_dec k c.cache ≡ id_of k c.ll
    pub distinct : AreDistinct c.ll
    pub fresh : All (λ e. e.id < c.next_id) c.ll
    pub counted : c.n_bytes ≡ pos (size len c.ll)

  moved-IsValid :
      (i : ℕ) (c : Lru V) (e : Element V) (value : V)
      → element_at i c.ll ≡ some e
      → IsValid c
      → IsValid (record c {
        ll = record e { value = value } ∷ unlink i c.ll;
        n_bytes = c.n_bytes +ℤ (pos (len value) -ℤ pos (len e.value));
      })
  unfolding id_of
  moved-IsValid i c e value h v = record {
    agrees = λ k. v.agrees k ∙ sym (id_of-unlink k i c.ll e h v.distinct);
    distinct = unlink-AreDistinct i c.ll e h v.distinct;
    fresh = All-unlink (λ f. f.id < c.next_id) i c.ll e h v.fresh;
    counted =
        raised c.n_bytes (size len c.ll) (len value) (len e.value) (length e.key) _ v.counted
          (size-unlink len i c.ll e h);
  }

  push_front-IsValid :
      (key : Text) (value : V) (c : Lru V)
      → id_of key c.ll ≡ none
      → IsValid c
      → IsValid (push_front len key value c)
  unfolding push_front id_of
  push_front-IsValid key value c new v =
      let e : Element V = record { id = c.next_id; key = key; value = value } in
      record {
        agrees = λ k. ground (arith, lookup-insert text_dec key k c.next_id c.cache, v.agrees k);
        distinct = (
          All-fresh key c.next_id c.ll e refl refl (id_of-none key c.ll new) v.fresh,
          v.distinct,
        );
        fresh = (omega arith, All-suc c.next_id c.ll v.fresh);
        counted = pushed c.n_bytes (size len c.ll) (length key) (len value) v.counted;
      }

  pub put_new :
      (key : Text) (value : V) (c : Lru V)
      → lookup text_dec key c.cache ≡ none
      → put len key value c ≡ push_front len key value c
  unfolding put
  put_new key value c e =
      ap (λ o. elim o [ some i ↦ replace len i value c | none ↦ push_front len key value c ]) e

  pub put_old :
      (key : Text) (value : V) (c : Lru V) (i : ℕ) (e : Element V)
      → lookup text_dec key c.cache ≡ some i
      → element_at i c.ll ≡ some e
      → put len key value c ≡ record c {
        ll = record e { value = value } ∷ unlink i c.ll;
        n_bytes = c.n_bytes +ℤ (pos (len value) -ℤ pos (len e.value));
      }
  unfolding put replace
  put_old key value c i e there at =
      ap (λ o. elim o [ some i ↦ replace len i value c | none ↦ push_front len key value c ]) there
      ∙ ap
          (λ o. elim o [
            | none ↦ c
            | some e ↦ record c {
              ll = record e { value = value } ∷ unlink i c.ll;
              n_bytes = c.n_bytes +ℤ (pos (len value) -ℤ pos (len e.value));
            }
          ])
          at

  removed_none : (c : Lru V) → back c.ll ≡ none → remove_oldest len c ≡ c
  unfolding remove_oldest
  removed_none c e = ground arith

  pub removed_last :
      (c : Lru V) (e : Element V)
      → back c.ll ≡ some e
      → remove_oldest len c ≡ record c {
        ll = drop_back c.ll;
        cache = delete text_dec e.key c.cache;
        n_bytes = c.n_bytes -ℤ pos (entry_size len e);
        evicted = c.evicted ++ (e.key, e.value) ∷ [];
      }
  unfolding remove_oldest
  removed_last c e last =
      ap
        (λ o. elim o [
          | none ↦ c
          | some e ↦ record c {
            ll = drop_back c.ll;
            cache = delete text_dec e.key c.cache;
            n_bytes = c.n_bytes -ℤ pos (entry_size len e);
            evicted = c.evicted ++ (e.key, e.value) ∷ [];
          }
        ])
        last

  pub get_miss :
      (key : Text) (c : Lru V) → lookup text_dec key c.cache ≡ none → get key c ≡ (c, none)
  unfolding get
  get_miss key c e = ground arith

  pub get_hit :
      (key : Text) (c : Lru V) (i : ℕ) (e : Element V)
      → lookup text_dec key c.cache ≡ some i
      → element_at i c.ll ≡ some e
      → get key c ≡ (record c { ll = e ∷ unlink i c.ll }, some e.value)
  unfolding get
  get_hit key c i e there at = ground (arith, there, at)

  -- Storing a value under a key, new or old, keeps a cache valid, as far as the eviction.
  pub put-IsValid : (key : Text) (value : V) (c : Lru V) → IsValid c → IsValid (put len key value c)
  unfolding put replace
  put-IsValid key value c v = elim (Option-cases (lookup text_dec key c.cache)) [
    | inl none_there ↦
        subst IsValid (sym (put_new key value c none_there))
          (push_front-IsValid key value c (sym (v.agrees key) ∙ none_there) v)
    | inr (i, there) ↦
        let (e, at, same, mine) =
          element_at-id_of key i c.ll v.distinct (sym (v.agrees key) ∙ there) in
        subst IsValid (sym (put_old key value c i e there at)) (moved-IsValid i c e value at v)
  ]

  -- Removing the oldest entry keeps a cache valid.
  pub remove_oldest-IsValid : (c : Lru V) → IsValid c → IsValid (remove_oldest len c)
  unfolding remove_oldest
  remove_oldest-IsValid c v = elim (Option-cases (back c.ll)) [
    | inl nothing ↦ subst IsValid (sym (removed_none c nothing)) v
    | inr (e, last) ↦ subst IsValid (sym (removed_last c e last)) (record {
      agrees = λ k.
          lookup-delete text_dec e.key k c.cache
          ∙ ap (λ o. ite (text_dec e.key k) none o) (v.agrees k)
          ∙ sym (id_of-drop_back k c.ll e last v.distinct);
      distinct = drop_back-AreDistinct c.ll e last v.distinct;
      fresh = (All-drop_back (λ f. f.id < c.next_id) c.ll e last v.fresh).1;
      counted =
          lowered c.n_bytes (size len c.ll) (entry_size len e) (size len (drop_back c.ll)) v.counted
            (size-drop_back len c.ll e last);
    })
  ]

  seen-IsValid :
      (i : ℕ) (c : Lru V) (e : Element V)
      → element_at i c.ll ≡ some e
      → IsValid c
      → IsValid (record c { ll = e ∷ unlink i c.ll })
  unfolding id_of
  seen-IsValid i c e h v = record {
    agrees = λ k. v.agrees k ∙ sym (id_of-unlink k i c.ll e h v.distinct);
    distinct = unlink-AreDistinct i c.ll e h v.distinct;
    fresh = All-unlink (λ f. f.id < c.next_id) i c.ll e h v.fresh;
    counted = v.counted ∙ ap pos (sym (size-unlink len i c.ll e h));
  }

  -- Looking a key up keeps a cache valid.
  pub get-IsValid : (key : Text) (c : Lru V) → IsValid c → IsValid (get key c).0
  unfolding get
  get-IsValid key c v = elim (Option-cases (lookup text_dec key c.cache)) [
    | inl none_there ↦ subst (λ r. IsValid r.0) (sym (get_miss key c none_there)) v
    | inr (i, there) ↦
        let (e, at, same, mine) =
          element_at-id_of key i c.ll v.distinct (sym (v.agrees key) ∙ there) in
        subst (λ r. IsValid r.0) (sym (get_hit key c i e there at)) (seen-IsValid i c e at v)
  ]
