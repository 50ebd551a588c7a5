-- ===== src/CacheV2.antt =====
-- sonnet-cache-v2/cache.go: the wrapper of a store, which is made on first use and dropped by Close.
-- The store is behind its interface. `none` is the panic of a call of a nil store. The flags are
-- atomic and the rest is under a lock, so `Get` is two steps, and so are the calls of its kind.
pub mod Levels
pub mod Ring
pub mod Traces
pub mod Group
pub mod Lru
pub mod Lru2
use sonnet_pro.Prelude.{
  ℕ, zero, suc, ◌+◌, List, [], ◌∷◌, Bool, true, false, not, ◌||◌, ◌&&◌, Option, none, some, Text,
  if◌then◌else◌,
}

-- `store.Store`: `S` is a store, `V` a value and `B` a `ByteView`. The errors of `Set` are only
-- logged, so a failing `set` is one that returns the store it leaves.
pub record Store (S V B : Type 0) : Type 0 where
  pub new_store : S
  pub set : Text → V → S → S
  pub set_expiring : Text → V → ℕ → S → S
  pub fetch : Text → S → S × Option V
  pub remove : Text → S → S × Bool
  pub clear_store : S → S
  pub len : S → ℕ
  pub of_view : B → V
  pub as_view : V → Option B

-- `Cache`, without its options.
pub record Cache (S : Type 0) : Type 0 where
  pub store : Option S
  pub hits : ℕ
  pub misses : ℕ
  pub initialized : Bool
  pub closed : Bool

-- The methods. `left` is `time.Until(expirationTime)`, 0 if that has passed.
pub data Call (B : Type 0) : Type 0 where
  add_call : Text → B → Call B
  add_expiring_call : Text → B → (left : ℕ) → Call B
  get_call : Text → Call B
  delete_call : Text → Call B
  clear_call : Call B
  len_call : Call B
  close_call : Call B

pub data Reply (B : Type 0) : Type 0 where
  done miss : Reply B
  hit : B → Reply B
  deleted : Bool → Reply B
  count : ℕ → Reply B

-- `NewCache`.
unfoldable pub new_cache : {S : Type 0} → Cache S
new_cache = record { store = none; hits = 0; misses = 0; initialized = false; closed = false }

-- `Close`.
unfoldable pub close : {S : Type 0} → Cache S → Cache S
close c = if c.closed then c else record c { store = none; initialized = false; closed = true }

-- The test at the top of `Delete`, `Clear` and `Len`.
unfoldable pub is_idle : {S : Type 0} → Cache S → Bool
is_idle c = c.closed || not c.initialized

module _ {S V B : Type 0} (st : Store S V B) where
  -- `ensureInitialized`.
  unfoldable pub ensure_initialized : Cache S → Cache S
  ensure_initialized c =
      if c.initialized then c else record c { store = some st.new_store; initialized = true }

  -- A call of the store, which panics on nil.
  unfoldable pub on_store : {R : Type 0} → Cache S → (S → Cache S × R) → Option (Cache S × R)
  on_store c f = elim c.store [ none ↦ none | some s ↦ some (f s) ]

  -- `Add`.
  unfoldable pub add : Text → B → Cache S → Option (Cache S × Reply B)
  unfolding on_store ensure_initialized
  add key value c =
      let c' = ensure_initialized c in
      if c.closed
      then some (c, done)
      else on_store c' (λ s. (record c' { store = some (st.set key (st.of_view value) s) }, done))

  -- `AddWithExpiration`.
  unfoldable pub add_expiring : Text → B → ℕ → Cache S → Option (Cache S × Reply B)
  unfolding on_store ensure_initialized
  add_expiring key value zero c = some ((if c.closed then c else ensure_initialized c), done)
  add_expiring key value (suc left) c =
      let c' = ensure_initialized c in
      if c.closed
      then some (c, done)
      else on_store c' (λ s.
        (record c' { store = some (st.set_expiring key (st.of_view value) (suc left) s) }, done))

  -- The part of `Get` before its lock: `none` if it goes on.
  unfoldable pub get_check : Cache S → Option (Cache S × Reply B)
  get_check c =
      if c.closed
      then some (c, miss)
      else if c.initialized
      then none
      else some (record c { misses = c.misses + 1 }, miss)

  -- What `Get` counts and returns for the value that the store found. A value that is no `ByteView`
  -- counts as a hit and as a miss.
  unfoldable pub found : Cache S → Option V → Cache S × Reply B
  found c none = (record c { misses = c.misses + 1 }, miss)
  found c (some v) = elim (st.as_view v) [
    | some b ↦ (record c { hits = c.hits + 1 }, hit b)
    | none ↦ (record c { hits = c.hits + 1; misses = c.misses + 1 }, miss)
  ]

  -- The part of `Get` under its lock.
  unfoldable pub get_locked : Text → Cache S → Option (Cache S × Reply B)
  unfolding on_store found
  get_locked key c =
      on_store c (λ s. let (s', v) = st.fetch key s in found (record c { store = some s' }) v)

  -- `Get`, where nothing comes between its parts.
  unfoldable pub get : Text → Cache S → Option (Cache S × Reply B)
  unfolding get_check get_locked
  get key c = elim (get_check c) [ some answer ↦ some answer | none ↦ get_locked key c ]

  -- `Delete`.
  unfoldable pub delete : Text → Cache S → Option (Cache S × Reply B)
  unfolding on_store is_idle
  delete key c =
      if is_idle c
      then some (c, deleted false)
      else on_store c
          (λ s. let (s', was) = st.remove key s in (record c { store = some s' }, deleted was))

  -- `Clear`.
  unfoldable pub clear : Cache S → Option (Cache S × Reply B)
  unfolding on_store is_idle
  clear c =
      if is_idle c
      then some (c, done)
      else on_store c
          (λ s. (record c { store = some (st.clear_store s); hits = 0; misses = 0 }, done))

  -- `Len`.
  unfoldable pub length_of : Cache S → Option (Cache S × Reply B)
  unfolding on_store is_idle
  length_of c = if is_idle c then some (c, count 0) else on_store c (λ s. (c, count (st.len s)))

  unfoldable pub step : Call B → Cache S → Option (Cache S × Reply B)
  step (add_call key value) c = add key value c
  step (add_expiring_call key value left) c = add_expiring key value left c
  step (get_call key) c = get key c
  step (delete_call key) c = delete key c
  step clear_call c = clear c
  step len_call c = length_of c
  step close_call c = some (close c, done)
