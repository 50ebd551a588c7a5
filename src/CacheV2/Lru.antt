-- ===== src/CacheV2/Lru.antt =====
-- sonnet-cache-v2/store/lru.go: the store with an expiration for each key. The list is from its back,
-- where an element goes when it is used, to its front; an element has an identity, which the map of
-- items holds. `now` is the reading of the clock of a call; a map is met in the order of its list.
-- Byte counts are integers without the bound of int64. Ticker, channel and Close are left out.
pub mod Shape
pub mod Valid
pub mod Steps
pub mod Runs
pub mod Evict
use sonnet_pro.Prelude.Int.{ℤ, pos, negsuc, ltb_ℤ, ◌+ℤ◌, ◌-ℤ◌}
use sonnet_pro.Prelude.Maps.{lookup, insert, delete}
use sonnet_pro.Prelude.{
  ℕ, zero, suc, ◌+◌, ◌-◌, List, [], ◌∷◌, ◌++◌, map, Bool, true, false, not, ◌&&◌, Option, none,
  some, Text, text_dec, length, ltb, ite, ℕ_discrete, ◌==◌, if◌then◌else◌,
}
use sonnet_pro.Cache.Lru.{Element, element_at, unlink, back, entry_size}

-- `lruCache`, without what is left out.
pub record LruCache (V : Type 0) : Type 0 where
  pub list : List (Element V)
  pub items : List (Text × ℕ)
  pub expires : List (Text × ℕ)
  pub max_bytes : ℤ
  pub used_bytes : ℤ
  pub next_id : ℕ
  pub evicted : List (Text × V)

-- `list.MoveToBack(elem)`, which does nothing for an element that was removed.
unfoldable pub move_to_back : {V : Type 0} → ℕ → List (Element V) → List (Element V)
unfolding element_at unlink
move_to_back i es = elim (element_at i es) [ none ↦ es | some e ↦ e ∷ unlink i es ]

-- The outcome of the first part of `Get`: no such key, an expired one, which a goroutine then deletes,
-- or an element with its value.
pub data Looked (V : Type 0) : Type 0 where
  absent expired : Looked V
  present : (id : ℕ) (value : V) → Looked V

module _ {V : Type 0} where
  -- `newLRUCache`.
  unfoldable pub new_lru_cache : ℤ → LruCache V
  new_lru_cache max_bytes = record {
    list = [];
    items = [];
    expires = [];
    max_bytes = max_bytes;
    used_bytes = pos 0;
    next_id = 0;
    evicted = [];
  }

  -- `time.Now().After(expTime)` for the expiration of a key, where it has one.
  unfoldable pub is_expired : ℕ → Text → LruCache V → Bool
  is_expired now key c = elim (lookup text_dec key c.expires) [ none ↦ false | some t ↦ ltb t now ]

  -- The part of `Get` under the read lock.
  unfoldable pub get_read : ℕ → Text → LruCache V → Looked V
  unfolding is_expired element_at
  get_read now key c =
      let found : Looked V = elim (lookup text_dec key c.items) [
        | none ↦ absent
        | some i ↦ elim (element_at i c.list) [
          | none ↦ absent
          | some e ↦ if is_expired now key c then expired else present i e.value
        ]
      ] in
      found

  -- The part of `Get` under the write lock, if the key is still there.
  unfoldable pub get_touch : Text → ℕ → LruCache V → LruCache V
  unfolding move_to_back
  get_touch key i c = elim (lookup text_dec key c.items) [
    | none ↦ c
    | some _ ↦ record c { list = move_to_back i c.list }
  ]

  -- `GetExpiration`.
  unfoldable pub get_expiration : Text → LruCache V → Option ℕ
  get_expiration key c = lookup text_dec key c.expires

  -- What a duration does to the expiration of a key; 0 stands for all that are not positive.
  unfoldable pub expire : ℕ → Text → ℕ → LruCache V → LruCache V
  expire now key zero c = record c { expires = delete text_dec key c.expires }
  expire now key (suc left) c = record c {
    expires = insert text_dec key (now + suc left) c.expires;
  }

  -- `UpdateExpiration`.
  unfoldable pub update_expiration : ℕ → Text → ℕ → LruCache V → LruCache V × Bool
  unfolding expire
  update_expiration now key left c = elim (lookup text_dec key c.items) [
    | none ↦ (c, false)
    | some _ ↦ (expire now key left c, true)
  ]

  -- `GetWithExpiration`: the value and the time that is left.
  unfoldable pub get_with_expiration : ℕ → Text → LruCache V → LruCache V × Option (V × ℕ)
  unfolding move_to_back element_at
  get_with_expiration now key c = elim (lookup text_dec key c.items) [
    | none ↦ (c, none)
    | some i ↦ elim (element_at i c.list) [
      | none ↦ (c, none)
      | some e ↦ elim (lookup text_dec key c.expires) [
        | none ↦ (record c { list = move_to_back i c.list }, some (e.value, 0))
        | some t ↦
            if ltb t now
            then (c, none)
            else (record c { list = move_to_back i c.list }, some (e.value, t - now))
      ]
    ]
  ]

  -- `Clear`; the callback is called for each item in the order of the map.
  unfoldable pub clear : LruCache V → LruCache V
  unfolding element_at
  clear c = record c {
    list = [];
    items = [];
    expires = [];
    used_bytes = pos 0;
    evicted = c.evicted ++ map (λ e. (e.key, e.value)) c.list;
  }

  module _ (len : V → ℕ) where
    -- `removeElement`.
    unfoldable pub remove_element : Element V → LruCache V → LruCache V
    unfolding unlink
    remove_element e c = record c {
      list = unlink e.id c.list;
      items = delete text_dec e.key c.items;
      expires = delete text_dec e.key c.expires;
      used_bytes = c.used_bytes -ℤ pos (entry_size len e);
      evicted = c.evicted ++ (e.key, e.value) ∷ [];
    }

    -- `if elem, ok := c.items[key]; ok`, the removal, and whether there was one.
    unfoldable pub delete_key : Text → LruCache V → LruCache V × Bool
    unfolding remove_element element_at
    delete_key key c = elim (lookup text_dec key c.items) [
      | none ↦ (c, false)
      | some i ↦ elim (element_at i c.list) [
        | none ↦ (c, false)
        | some e ↦ (remove_element e c, true)
      ]
    ]

    -- `Get`, where nothing comes between its parts, and the deletion that it starts.
    unfoldable pub get : ℕ → Text → LruCache V → LruCache V × Option V
    unfolding get_read get_touch delete_key
    get now key c = elim (get_read now key c) [
      | absent ↦ (c, none)
      | expired ↦ ((delete_key key c).0, none)
      | present i value ↦ (get_touch key i c, some value)
    ]

    -- The first loop of `evict`, over the expirations as they stand when it begins.
    unfoldable pub drop_expired : ℕ → List (Text × ℕ) → LruCache V → LruCache V
    unfolding delete_key
    drop_expired now [] c = c
    drop_expired now ((key, t) ∷ rest) c =
        drop_expired now rest (if ltb t now then (delete_key key c).0 else c)

    -- `c.maxBytes > 0 && c.usedBytes > c.maxBytes`.
    unfoldable pub is_over : LruCache V → Bool
    is_over c = ltb_ℤ (pos 0) c.max_bytes && ltb_ℤ c.max_bytes c.used_bytes

    -- The second loop of `evict`: its fuel is the length of the list, which each round makes shorter.
    unfoldable pub shrink : ℕ → LruCache V → LruCache V
    unfolding is_over back remove_element
    shrink zero c = c
    shrink (suc fuel) c = elim (back c.list) [
      | none ↦ c
      | some e ↦ let rest = shrink fuel (remove_element e c) in if is_over c then rest else c
    ]

    -- `evict`.
    unfoldable pub evict : ℕ → LruCache V → LruCache V
    unfolding drop_expired shrink
    evict now c = let c' = drop_expired now c.expires c in shrink (length c'.list) c'

    -- `SetMaxBytes`.
    unfoldable pub set_max_bytes : ℕ → ℤ → LruCache V → LruCache V
    unfolding evict
    set_max_bytes now max_bytes c =
        let c' = record c { max_bytes = max_bytes } in
        if ltb_ℤ (pos 0) max_bytes then evict now c' else c'

    -- The update of the element of a key that is there.
    unfoldable pub replace : Element V → V → LruCache V → LruCache V
    unfolding unlink
    replace e value c = record c {
      list = record e { value = value } ∷ unlink e.id c.list;
      used_bytes = c.used_bytes +ℤ (pos (len value) -ℤ pos (len e.value));
    }

    -- `list.PushBack` and the entries of a new key.
    unfoldable pub push_back : Text → V → LruCache V → LruCache V
    push_back key value c = record c {
      list = record { id = c.next_id; key = key; value = value } ∷ c.list;
      items = insert text_dec key c.next_id c.items;
      used_bytes = c.used_bytes +ℤ pos (length key + len value);
      next_id = suc c.next_id;
    }

    -- `SetWithExpiration` for a value that is not nil.
    unfoldable pub store_value : ℕ → Text → V → ℕ → LruCache V → LruCache V
    unfolding expire replace push_back evict element_at
    store_value now key value left c =
        let c' = expire now key left c in
        elim (lookup text_dec key c.items) [
          | none ↦ evict now (push_back key value c')
          | some i ↦ elim (element_at i c.list) [ none ↦ c' | some e ↦ replace e value c' ]
        ]

    -- `SetWithExpiration`.
    unfoldable pub set_with_expiration : ℕ → Text → Option V → ℕ → LruCache V → LruCache V
    unfolding delete_key store_value
    set_with_expiration now key none left c = (delete_key key c).0
    set_with_expiration now key (some value) left c = store_value now key value left c

    -- `Set`.
    unfoldable pub set : ℕ → Text → Option V → LruCache V → LruCache V
    unfolding set_with_expiration
    set now key value c = set_with_expiration now key value 0 c
