-- ===== src/CacheV2/Levels/Operations.antt =====
-- sonnet-cache-v2/store/lru2.go, the store: each operation of a valid store returns and leaves it valid.
use sonnet_pro.Prelude.{ℕ, List, [], ◌∷◌, Option, none, some, Text, ltb, leb, ◌<◌, ◌&&◌, ◌>>=◌}
use sonnet_pro.CacheV2.Levels.{
  Store, bucket, on_first, on_second, delete_in, delete, get_second, get_from, serve, put_second,
  delete_all, delete_keys_in, promote, expire, get_value, set_with_expiration, expire_at_of,
}
use sonnet_pro.CacheV2.Lru2.{Node, put, get, del}
use sonnet_pro.CacheV2.Levels.Laws.{
  Gives, some-Gives, bind-Gives, if-Gives, Keeps, Leaves, put-IsSound, get-IsSound, del-IsSound,
  on_first-Leaves, on_second-Leaves, bucket_lt,
}

module _ {V : Type 0} where
  bind-Leaves :
      {A B : Type 0} (n : ℕ) (o : Option (Store V × A)) (f : Store V × A → Option (Store V × B))
      → Leaves n o
      → ((q : Store V × A) → Keeps n q.0 → Leaves n (f q))
      → Leaves n (o >>= f)
  bind-Leaves n o f g h = bind-Gives (λ q. Keeps n q.0) (λ q. Keeps n q.0) o f g h

  -- The same for an operation with no answer.
  bind-Keeps :
      {A : Type 0} (n : ℕ) (o : Option (Store V × A)) (f : Store V × A → Option (Store V))
      → Leaves n o
      → ((q : Store V × A) → Keeps n q.0 → Gives (Keeps n) (f q))
      → Gives (Keeps n) (o >>= f)
  bind-Keeps n o f g h = bind-Gives (λ q. Keeps n q.0) (Keeps n) o f g h

  drop-Keeps :
      (n : ℕ) (s : Store V) (log : List (Text × V))
      → Keeps n s
      → Keeps n (record s { dropped = log })
  drop-Keeps n s log h = record {
    valid = record { wide = h.valid.wide; first = h.valid.first; second = h.valid.second };
    count = h.count;
  }

  pub delete_in-Leaves :
      (key : Text) (i n : ℕ) (s : Store V) → i < n → Keeps n s → Leaves n (delete_in key i s)
  unfolding delete_in
  delete_in-Leaves key i n s p h =
      bind-Leaves n (on_first i (del key) s) _
        (on_first-Leaves i n (del key) s p h (del-IsSound key))
        (λ q k.
          bind-Leaves n (on_second i (del key) q.0) _
            (on_second-Leaves i n (del key) q.0 p k (del-IsSound key))
            (λ r m. some-Gives _ (drop-Keeps n r.0 _ m)))

  pub delete-Leaves : (key : Text) (n : ℕ) (s : Store V) → Keeps n s → Leaves n (delete key s)
  unfolding delete
  delete-Leaves key n s h = delete_in-Leaves key (bucket key s) n s (bucket_lt key n s h) h

  expire-Leaves :
      (key : Text) (i n : ℕ) (s : Store V) → i < n → Keeps n s → Leaves n (expire key i s)
  unfolding expire
  expire-Leaves key i n s p h =
      bind-Leaves n (delete_in key i s) _ (delete_in-Leaves key i n s p h) (λ q k. some-Gives _ k)

  get_second-Leaves :
      (now : ℕ) (key : Text) (i n : ℕ) (s : Store V)
      → i < n
      → Keeps n s
      → Leaves n (get_second now key i s)
  unfolding get_second
  get_second-Leaves now key i n s p h =
      bind-Leaves n (on_second i (get key) s) _
        (on_second-Leaves i n (get key) s p h (get-IsSound key)) (λ q k. some-Gives _ k)

  serve-Leaves :
      (now : ℕ) (key : Text) (i n : ℕ) (node : Option (Node V)) (s : Store V)
      → i < n
      → Keeps n s
      → Leaves n (serve now key i node s)
  unfolding serve
  serve-Leaves now key i n none s p h = some-Gives _ h
  serve-Leaves now key i n (some node) s p h =
      if-Gives (ltb 0 node.expire_at && leb node.expire_at now) (expire key i s)
        (some (s, some node.v)) (expire-Leaves key i n s p h) (some-Gives _ h)

  put_second-Leaves :
      (key : Text) (i n : ℕ) (v : Option V) (e : ℕ) (s : Store V)
      → i < n
      → Keeps n s
      → Leaves n (put_second key i v e s)
  unfolding put_second
  put_second-Leaves key i n v e s p h =
      bind-Leaves n (on_second i (put key v e) s) _
        (on_second-Leaves i n (put key v e) s p h (put-IsSound key v e)) (λ q k. some-Gives _ k)

  get_from-Leaves :
      (now : ℕ) (key : Text) (i n : ℕ) (found : Option (Node V × ℕ)) (s : Store V)
      → i < n
      → Keeps n s
      → Leaves n (get_from now key i found s)
  unfolding get_from promote
  get_from-Leaves now key i n (some (node, e)) s p h =
      if-Gives (ltb 0 e && leb e now) (expire key i s) (put_second key i node.v e s)
        (expire-Leaves key i n s p h) (put_second-Leaves key i n node.v e s p h)
  get_from-Leaves now key i n none s p h =
      bind-Leaves n (get_second now key i s) _ (get_second-Leaves now key i n s p h)
        (λ q k. serve-Leaves now key i n q.1 q.0 p k)

  pub get_value-Leaves :
      (now : ℕ) (key : Text) (n : ℕ) (s : Store V) → Keeps n s → Leaves n (get_value now key s)
  unfolding get_value
  get_value-Leaves now key n s h =
      let i = bucket key s in
      let p = bucket_lt key n s h in
      bind-Leaves n (on_first i (del key) s) _
        (on_first-Leaves i n (del key) s p h (del-IsSound key))
        (λ q k. get_from-Leaves now key i n q.1 q.0 p k)

  pub set_with_expiration-Keeps :
      (now : ℕ) (key : Text) (v : Option V) (e n : ℕ) (s : Store V)
      → Keeps n s
      → Gives (Keeps n) (set_with_expiration now key v e s)
  unfolding set_with_expiration
  set_with_expiration-Keeps now key v e n s h =
      let i = bucket key s in
      let at = expire_at_of now e in
      bind-Keeps n (on_first i (put key v at) s) _
        (on_first-Leaves i n (put key v at) s (bucket_lt key n s h) h (put-IsSound key v at))
        (λ q k. some-Gives q.0 k)

  pub delete_all-Keeps :
      (ks : List Text) (n : ℕ) (s : Store V) → Keeps n s → Gives (Keeps n) (delete_all ks s)
  unfolding delete_all
  delete_all-Keeps [] n s h = some-Gives s h
  delete_all-Keeps (k ∷ ks) n s h =
      bind-Keeps n (delete k s) _ (delete-Leaves k n s h) (λ q m. delete_all-Keeps ks n q.0 m)

  pub delete_keys_in-Keeps :
      (i n : ℕ) (ks : List Text) (s : Store V)
      → i < n
      → Keeps n s
      → Gives (Keeps n) (delete_keys_in i ks s)
  unfolding delete_keys_in
  delete_keys_in-Keeps i n [] s p h = some-Gives s h
  delete_keys_in-Keeps i n (k ∷ ks) s p h =
      bind-Keeps n (delete_in k i s) _ (delete_in-Leaves k i n s p h)
        (λ q m. delete_keys_in-Keeps i n ks q.0 p m)
