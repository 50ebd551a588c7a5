-- ===== src/CacheV2/Traces.antt =====
-- sonnet-cache-v2/cache.go: sequences of calls.
use sonnet_pro.Prelude.{
  ℕ, zero, suc, ◌+◌, ◌≡◌, refl, ◌∙◌, arith, List, [], ◌∷◌, true, false, Option, none, some, Text,
  Bool-cases, inl, inr,
}
use sonnet_pro.CacheV2.{
  Store, Cache, Call, add_call, add_expiring_call, get_call, delete_call, clear_call, len_call,
  close_call, Reply, done, miss, deleted, count, new_cache, close, is_idle, ensure_initialized,
  on_store, add, add_expiring, get_check, found, get_locked, get, delete, clear, length_of, step,
}

module _ {S V B : Type 0} (st : Store S V B) where
  -- The calls one after another, and their replies.
  unfoldable pub run : List (Call B) → Cache S → Option (Cache S × List (Reply B))
  run [] c = some (c, [])
  run (call ∷ calls) c = elim (step st call c) [
    | none ↦ none
    | some (c', reply) ↦ elim (run calls c') [
      | none ↦ none
      | some (c'', replies) ↦ some (c'', reply ∷ replies)
    ]
  ]

module _ {S : Type 0} where
  -- An initialized cache has a store, and a closed one is not initialized.
  pub record IsValid (c : Cache S) : Type 0 where
    pub stored : c.initialized ≡ true → (s : S) × (c.store ≡ some s)
    pub shut : c.closed ≡ true → c.initialized ≡ false

  pub new_cache-IsValid : IsValid new_cache
  unfolding new_cache
  new_cache-IsValid = record { stored = λ i. absurd (cc); shut = λ x. refl }

module _ {S V B : Type 0} (st : Store S V B) where
  abbrev pub Succeeds : Option (Cache S × Reply B) → Type 0
  Succeeds o = (c' : Cache S) × (r : Reply B) × (o ≡ some (c', r)) × IsValid c'

  live : (c : Cache S) (s : S) → c.closed ≡ false → c.store ≡ some s → IsValid c
  live c s o e = record { stored = λ i. (s, e); shut = λ x. absurd (cc) }

  -- The store of a cache that passes the test of `Delete`, `Clear` and `Len`.
  busy :
      (c : Cache S)
      → IsValid c
      → is_idle c ≡ false
      → (s : S) × (c.store ≡ some s) × (c.closed ≡ false)
  unfolding is_idle
  busy c v e =
      let open_ : c.closed ≡ false = ground (arith, e) in
      let i : c.initialized ≡ true = ground (arith, e, open_) in
      let (s, there) = v.stored i in (s, there, open_)

  pub ensured :
      (c : Cache S)
      → IsValid c
      → (s : S) × (ensure_initialized st c ≡ record c { store = some s; initialized = true })
  unfolding ensure_initialized
  ensured c v = elim (Bool-cases c.initialized) [
    | inl i ↦ let (s, e) = v.stored i in (s, ground (arith, i, e))
    | inr i ↦ (st.new_store, ground (arith, i))
  ]

  pub add-IsValid :
      (key : Text) (value : B) (c : Cache S) → IsValid c → Succeeds (add st key value c)
  unfolding add on_store
  add-IsValid key value c v = elim (Bool-cases c.closed) [
    | inl shut ↦ (c, done, ground (arith, shut), v)
    | inr open_ ↦
        let (s, e) = ensured c v in
        let s' = st.set key (st.of_view value) s in
        let c' : Cache S = record c { store = some s'; initialized = true } in
        (c', done, ground (arith, open_, e), live c' s' open_ refl)
  ]

  pub add_expiring-IsValid :
      (key : Text) (value : B) (left : ℕ) (c : Cache S)
      → IsValid c
      → Succeeds (add_expiring st key value left c)
  unfolding add_expiring on_store
  add_expiring-IsValid key value zero c v = elim (Bool-cases c.closed) [
    | inl shut ↦ (c, done, ground (arith, shut), v)
    | inr open_ ↦
        let (s, e) = ensured c v in
        let c' : Cache S = record c { store = some s; initialized = true } in
        (c', done, ground (arith, open_, e), live c' s open_ refl)
  ]
  add_expiring-IsValid key value (suc left) c v = elim (Bool-cases c.closed) [
    | inl shut ↦ (c, done, ground (arith, shut), v)
    | inr open_ ↦
        let (s, e) = ensured c v in
        let s' = st.set_expiring key (st.of_view value) (suc left) s in
        let c' : Cache S = record c { store = some s'; initialized = true } in
        (c', done, ground (arith, open_, e), live c' s' open_ refl)
  ]

  found_keeps :
      (c : Cache S) (o : Option V)
      → ((found st c o).0.closed ≡ c.closed) × ((found st c o).0.store ≡ c.store)
  unfolding found
  found_keeps c none = (refl, refl)
  found_keeps c (some v) = ground arith

  found_live :
      (c : Cache S) (s : S) (o : Option V)
      → c.closed ≡ false
      → c.store ≡ some s
      → IsValid (found st c o).0
  found_live c s o open_ e =
      let (flag, kept) = found_keeps c o in live (found st c o).0 s (flag ∙ open_) (kept ∙ e)

  pub get-IsValid : (key : Text) (c : Cache S) → IsValid c → Succeeds (get st key c)
  unfolding get get_check get_locked on_store
  get-IsValid key c v = elim (Bool-cases c.closed) [
    | inl shut ↦ (c, miss, ground (arith, shut), v)
    | inr open_ ↦ elim (Bool-cases c.initialized) [
      | inl i ↦
          let (s, e) = v.stored i in
          let s' = (st.fetch key s).0 in
          let c' : Cache S = record c { store = some s' } in
          let out = found st c' (st.fetch key s).1 in
          (
            out.0,
            out.1,
            ground (arith, open_, i, e),
            found_live c' s' (st.fetch key s).1 open_ refl,
          )
      | inr i ↦
          let c' : Cache S = record c { misses = c.misses + 1 } in
          (c', miss, ground (arith, open_, i), record { stored = v.stored; shut = v.shut })
    ]
  ]

  pub delete-IsValid : (key : Text) (c : Cache S) → IsValid c → Succeeds (delete st key c)
  unfolding delete on_store
  delete-IsValid key c v = elim (Bool-cases (is_idle c)) [
    | inl idle ↦ (c, deleted false, ground (arith, idle), v)
    | inr e ↦
        let (s, there, open_) = busy c v e in
        let c' : Cache S = record c { store = some (st.remove key s).0 } in
        (c', deleted (st.remove key s).1, ground (arith, e, there), live c' _ open_ refl)
  ]

  pub clear-IsValid : (c : Cache S) → IsValid c → Succeeds (clear st c)
  unfolding clear on_store
  clear-IsValid c v = elim (Bool-cases (is_idle c)) [
    | inl idle ↦ (c, done, ground (arith, idle), v)
    | inr e ↦
        let (s, there, open_) = busy c v e in
        let c' : Cache S = record c { store = some (st.clear_store s); hits = 0; misses = 0 } in
        (c', done, ground (arith, e, there), live c' _ open_ refl)
  ]

  length_of-IsValid : (c : Cache S) → IsValid c → Succeeds (length_of st c)
  unfolding length_of on_store
  length_of-IsValid c v = elim (Bool-cases (is_idle c)) [
    | inl idle ↦ (c, count 0, ground (arith, idle), v)
    | inr e ↦
        let (s, there, open_) = busy c v e in (c, count (st.len s), ground (arith, e, there), v)
  ]

  pub close-IsValid : (c : Cache S) → IsValid c → IsValid (close c)
  unfolding close
  close-IsValid c v = elim (Bool-cases c.closed) [
    | inl shut ↦ simp shut v
    | inr open_ ↦ simp open_ (record { stored = λ i. absurd (cc); shut = λ x. refl })
  ]

  step-IsValid : (call : Call B) (c : Cache S) → IsValid c → Succeeds (step st call c)
  unfolding step
  step-IsValid (add_call key value) c v = add-IsValid key value c v
  step-IsValid (add_expiring_call key value left) c v = add_expiring-IsValid key value left c v
  step-IsValid (get_call key) c v = get-IsValid key c v
  step-IsValid (delete_call key) c v = delete-IsValid key c v
  step-IsValid clear_call c v = clear-IsValid c v
  step-IsValid len_call c v = length_of-IsValid c v
  step-IsValid close_call c v = (close c, done, refl, close-IsValid c v)

  -- No sequence of calls on a valid cache, one after another, reaches a nil store: each run returns,
  -- and leaves the cache valid.
  pub run-IsValid :
      (calls : List (Call B)) (c : Cache S)
      → IsValid c
      → (c' : Cache S) × (replies : List (Reply B)) × (run st calls c ≡ some (c', replies))
        × IsValid c'
  unfolding run
  run-IsValid [] c v = (c, [], refl, v)
  run-IsValid (call ∷ calls) c v =
      let (c', reply, e, v') = step-IsValid call c v in
      let (c'', replies, e', v'') = run-IsValid calls c' v' in
      (c'', reply ∷ replies, ground (arith, e, e'), v'')

  step-shut :
      (call : Call B) (c : Cache S)
      → c.closed ≡ true
      → (r : Reply B) × (step st call c ≡ some (c, r))
  unfolding step add add_expiring get get_check delete clear length_of is_idle close
  step-shut (add_call key value) c e = (done, ground (arith, e))
  step-shut (add_expiring_call key value zero) c e = (done, ground (arith, e))
  step-shut (add_expiring_call key value (suc left)) c e = (done, ground (arith, e))
  step-shut (get_call key) c e = (miss, ground (arith, e))
  step-shut (delete_call key) c e = (deleted false, ground (arith, e))
  step-shut clear_call c e = (done, ground (arith, e))
  step-shut len_call c e = (count 0, ground (arith, e))
  step-shut close_call c e = (done, ground (arith, e))

  -- No sequence of calls, one after another, changes a closed cache.
  pub run-closed :
      (calls : List (Call B)) (c : Cache S)
      → c.closed ≡ true
      → (replies : List (Reply B)) × (run st calls c ≡ some (c, replies))
  unfolding run
  run-closed [] c e = ([], refl)
  run-closed (call ∷ calls) c e =
      let (r, once) = step-shut call c e in
      let (replies, rest) = run-closed calls c e in (r ∷ replies, ground (arith, once, rest))

  -- A `Close` that comes between the two parts of a `Get`, on an open cache, makes the second one
  -- panic.
  pub get_locked-close :
      (key : Text) (c : Cache S) → c.closed ≡ false → get_locked st key (close c) ≡ none
  unfolding get_locked on_store close
  get_locked-close key c e = ground (arith, e)
