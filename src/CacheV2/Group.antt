-- ===== src/CacheV2/Group.antt =====
-- sonnet-cache-v2/group.go: a group over its cache, its peers and its getter. A `ByteView` is its
-- bytes. The peers and the getter are the application's: a `World` is what they answer during a call.
-- The loader is the single flight, which runs its function where no other call is under way.
pub mod Loads
pub mod Laws
pub mod Runs
pub mod Registry
use sonnet_pro.Prelude.{
  ℕ, zero, suc, ◌+◌, ◌-◌, ◌<◌, List, [], ◌∷◌, Bool, true, false, Option, none, some, Text,
  if◌then◌else◌, ltb,
}
use sonnet_pro.CacheV2
use sonnet_pro.CacheV2.{Store, Cache, Reply, done, miss, hit, deleted, count}

-- What `PickPeer` answers.
pub data Pick : Type 0 where
  nobody self : Pick
  peer : (id : ℕ) → Pick

-- `getter` and `peer_get` answer `none` for an error; `elapsed` is the time between the two readings of
-- the clock for an expiration.
pub record World : Type 0 where
  pub getter : Text → Option Text
  pub pick_peer : Text → Pick
  pub peer_get : ℕ → Text → Option Text
  pub elapsed : ℕ

-- `groupStats`, without the duration.
pub record Stats : Type 0 where
  pub loads : ℕ
  pub local_hits : ℕ
  pub local_misses : ℕ
  pub peer_hits : ℕ
  pub peer_misses : ℕ
  pub loader_hits : ℕ
  pub loader_errors : ℕ

-- `Group`; `has_peers` tells whether `peers` is set.
pub record Group (S : Type 0) : Type 0 where
  pub cache : Cache S
  pub has_peers : Bool
  pub expiration : ℕ
  pub closed : Bool
  pub stats : Stats

pub data Error : Type 0 where
  group_closed key_required value_required load_failed : Error

pub data Result (A : Type 0) : Type 0 where
  ok : A → Result A
  err : Error → Result A

-- What `syncToPeers` sends, and to whom.
pub data Sync : Type 0 where
  sync_set : (id : ℕ) (key value : Text) → Sync
  sync_delete : (id : ℕ) (key : Text) → Sync

unfoldable pub new_group : {S : Type 0} → ℕ → Bool → Group S
new_group expiration has_peers = record {
  cache = CacheV2.new_cache;
  has_peers = has_peers;
  expiration = expiration;
  closed = false;
  stats = record {
    loads = 0;
    local_hits = 0;
    local_misses = 0;
    peer_hits = 0;
    peer_misses = 0;
    loader_hits = 0;
    loader_errors = 0;
  };
}

-- `loadData` from the getter.
unfoldable pub load_getter : World → Text → Stats → Stats × Option Text
load_getter w key s = elim (w.getter key) [
  | none ↦ (s, none)
  | some bytes ↦ (record s { loader_hits = s.loader_hits + 1 }, some bytes)
]

-- `loadData` from the peer that owns the key, and else from the getter.
unfoldable pub load_peer : World → ℕ → Text → Stats → Stats × Option Text
unfolding load_getter
load_peer w id key s = elim (w.peer_get id key) [
  | none ↦ load_getter w key (record s { peer_misses = s.peer_misses + 1 })
  | some bytes ↦ (record s { peer_hits = s.peer_hits + 1 }, some bytes)
]

-- `loadData`.
unfoldable pub load_data : World → Bool → Text → Stats → Stats × Option Text
unfolding load_getter load_peer
load_data w false key s = load_getter w key s
load_data w true key s = elim (w.pick_peer key) [
  | nobody ↦ load_getter w key s
  | self ↦ load_getter w key s
  | peer id ↦ load_peer w id key s
]

-- `syncToPeers`, for a request that does not come from a peer itself.
unfoldable pub sync : (ℕ → Sync) → World → Bool → Bool → Text → Option Sync
sync message w has_peers from_peer key =
    if from_peer
    then none
    else if has_peers
    then elim (w.pick_peer key) [ nobody ↦ none | self ↦ none | peer id ↦ some (message id) ]
    else none

module _ {S V : Type 0} (st : Store S V Text) where
  -- The cache with a value, with its expiration if there is one.
  unfoldable pub keep : World → Text → Text → Group S → Option (Group S)
  keep w key value g =
      let outcome : Option (Cache S × Reply Text) =
        if ltb 0 g.expiration
        then CacheV2.add_expiring st key value (g.expiration - w.elapsed) g.cache
        else CacheV2.add st key value g.cache in
      elim outcome [ none ↦ none | some (c, _) ↦ some (record g { cache = c }) ]

  -- `load` for the outcome of `loadData`.
  unfoldable pub loaded :
      World → Text → Group S → Stats × Option Text → Option (Group S × Result Text)
  unfolding keep
  loaded w key g (s, none) = some (
    record g { stats = record s { loads = s.loads + 1; loader_errors = s.loader_errors + 1 } },
    err load_failed,
  )
  loaded w key g (s, some view) =
      elim (keep w key view (record g { stats = record s { loads = s.loads + 1 } })) [
        | none ↦ none
        | some g' ↦ some (g', ok view)
      ]

  -- `load`.
  unfoldable pub load : World → Text → Group S → Option (Group S × Result Text)
  unfolding loaded load_data
  load w key g = loaded w key g (load_data w g.has_peers key g.stats)

  -- `Get` behind its guards, for what the local cache answered.
  unfoldable pub answer : World → Text → Group S → Reply Text → Option (Group S × Result Text)
  unfolding load
  answer w key g (hit view) =
      some (record g { stats = record g.stats { local_hits = g.stats.local_hits + 1 } }, ok view)
  answer w key g r =
      load w key (record g { stats = record g.stats { local_misses = g.stats.local_misses + 1 } })

  -- `Get`.
  unfoldable pub get : World → Text → Group S → Option (Group S × Result Text)
  unfolding answer
  get w [] g = some (g, err (if g.closed then group_closed else key_required))
  get w (x ∷ key) g =
      let local : Option (Cache S × Reply Text) = CacheV2.get st (x ∷ key) g.cache in
      let outcome : Option (Group S × Result Text) = elim local [
        | none ↦ none
        | some (c, r) ↦ answer w (x ∷ key) (record g { cache = c }) r
      ] in
      if g.closed then some (g, err group_closed) else outcome

  -- `Set`: the group, the error if there is one, and what is sent to a peer.
  unfoldable pub set :
      World → Bool → Text → Text → Group S → Option (Group S × Option Error × Option Sync)
  unfolding keep sync
  set w from_peer key value g =
      let refuse : Error → Option (Group S × Option Error × Option Sync) =
        λ e. some (g, some e, none) in
      let kept : Option (Group S × Option Error × Option Sync) = elim (keep w key value g) [
        | none ↦ none
        | some g' ↦ some (g', none, sync (λ id. sync_set id key value) w g.has_peers from_peer key)
      ] in
      if g.closed then refuse group_closed else elim key [
        | [] ↦ refuse key_required
        | _ ∷ _ ↦ elim value [ [] ↦ refuse value_required | _ ∷ _ ↦ kept ]
      ]

  -- `Delete`.
  unfoldable pub delete :
      World → Bool → Text → Group S → Option (Group S × Option Error × Option Sync)
  unfolding sync
  delete w from_peer key g =
      let refuse : Error → Option (Group S × Option Error × Option Sync) =
        λ e. some (g, some e, none) in
      let gone : Option (Group S × Option Error × Option Sync) =
        elim (CacheV2.delete st key g.cache) [
          | none ↦ none
          | some (c, _) ↦ some (
            record g { cache = c },
            none,
            sync (λ id. sync_delete id key) w g.has_peers from_peer key,
          )
        ] in
      if g.closed then refuse group_closed else elim key [ [] ↦ refuse key_required | _ ∷ _ ↦ gone ]

  -- `Clear`.
  unfoldable pub clear : Group S → Option (Group S)
  clear g =
      let cleared : Option (Group S) = elim (CacheV2.clear st g.cache) [
        | none ↦ none
        | some (c, _) ↦ some (record g { cache = c })
      ] in
      if g.closed then some g else cleared

-- `Close`, without the global map of groups.
unfoldable pub close : {S : Type 0} → Group S → Group S
close g = if g.closed then g else record g { cache = CacheV2.close g.cache; closed = true }

-- `RegisterPeers`: `none` is its panic.
unfoldable pub register_peers : {S : Type 0} → Group S → Option (Group S)
register_peers g = if g.has_peers then none else some (record g { has_peers = true })
