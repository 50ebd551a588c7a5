-- ===== src/CacheV2/Group/Laws.antt =====
-- sonnet-cache-v2/group.go: `Get` and `Set` of a group.
use sonnet_pro.Prelude.{
  suc, ◌+◌, ◌-◌, ◌≡◌, refl, sym, ap, ◌∙◌, inl, inr, arith, [], ◌∷◌, Bool, true, false, Bool-cases,
  Option, none, some, Text, ltb, if◌then◌else◌,
}
use sonnet_pro.CacheV2
use sonnet_pro.CacheV2.{Store, Cache, Reply, done, miss, hit, deleted, count}
use sonnet_pro.CacheV2.Traces
use sonnet_pro.CacheV2.Group.{
  World, Stats, Group, Error, group_closed, key_required, value_required, Result, ok, err, Sync,
  sync_set, load_data, sync, keep, loaded, load, answer, get, set,
}
use sonnet_pro.CacheV2.Group.Loads.{
  served, fetched, outcome_of, IsLoad, load_data-IsLoad, load_data-fetched,
}

module _ {S V : Type 0} (st : Store S V Text) where
  -- The cache of a group is valid, each miss was a load, and each load gave a value or an error.
  pub record IsValid (g : Group S) : Type 0 where
    pub cached : Traces.IsValid g.cache
    pub missed : g.stats.loads ≡ g.stats.local_misses
    pub counted : g.stats.loads ≡ served g.stats + g.stats.loader_errors

  -- `keep` returns, and changes nothing but the cache.
  keep_returns :
      (w : World) (key value : Text) (g : Group S)
      → Traces.IsValid g.cache
      → (c : Cache S) × (keep st w key value g ≡ some (record g { cache = c })) × Traces.IsValid c
  unfolding keep
  keep_returns w key value g v = elim (Bool-cases (ltb 0 g.expiration)) [
    | inl some_time ↦
        let (c, r, e, v') =
          Traces.add_expiring-IsValid st key value (g.expiration - w.elapsed) g.cache v in
        (c, ground (arith, some_time, e), v')
    | inr no_time ↦
        let (c, r, e, v') = Traces.add-IsValid st key value g.cache v in
        (c, ground (arith, no_time, e), v')
  ]

  -- What a `Get` owes: it returns the result that is due, and the group is valid again.
  abbrev Returns : Result Text → Option (Group S × Result Text) → Type 0
  Returns due o = (g' : Group S) × (r : Result Text) × (o ≡ some (g', r)) × IsValid g' × (r ≡ due)

  loaded-Returns :
      (w : World) (key : Text) (g : Group S) (out : Stats × Option Text)
      → IsLoad w key g.stats out
      → Traces.IsValid g.cache
      → suc g.stats.loads ≡ g.stats.local_misses
      → g.stats.loads ≡ served g.stats + g.stats.loader_errors
      → Returns (outcome_of out.1) (loaded st w key g out)
  unfolding loaded
  loaded-Returns w key g (s, none) l v m n = (
    _,
    _,
    refl,
    record {
      cached = v;
      missed = omega (arith, l.loads, l.misses, m);
      counted = elim l.outcome [
        | inl (e, same) ↦ omega (arith, l.loads, l.errors, n, same)
        | inr (view, e, more) ↦ absurd (cc)
      ];
    },
    refl,
  )
  loaded-Returns w key g (s, some value) l v m n =
      let g_1 : Group S = record g { stats = record s { loads = s.loads + 1 } } in
      let (c, e, v') = keep_returns w key value g_1 v in
      (
        record g_1 { cache = c },
        ok value,
        ap (λ o. elim o [ none ↦ none | some g' ↦ some (g', ok value) ]) e,
        record {
          cached = v';
          missed = omega (arith, l.loads, l.misses, m);
          counted = elim l.outcome [
            | inl (o, same) ↦ absurd (cc)
            | inr (view, o, more) ↦ omega (arith, l.loads, l.errors, n, more)
          ];
        },
        refl,
      )

  missed-Returns :
      (w : World) (key : Text) (g : Group S) (c : Cache S)
      → IsValid g
      → Traces.IsValid c
      → Returns (outcome_of (fetched w g.has_peers key)) (
          load st w key (record g {
            cache = c;
            stats = record g.stats { local_misses = g.stats.local_misses + 1 };
          }))
  unfolding load
  missed-Returns w key g c v vc =
      let g_1 : Group S = record g {
        cache = c;
        stats = record g.stats { local_misses = g.stats.local_misses + 1 };
      } in
      let (g', r, e, v', due) =
        loaded-Returns w key g_1 (load_data w g.has_peers key g_1.stats)
          (load_data-IsLoad w g.has_peers key g_1.stats) vc (omega (arith, v.missed)) v.counted in
      (g', r, e, v', due ∙ ap outcome_of (load_data-fetched w g.has_peers key g_1.stats))

  -- What the answer of the local cache leaves to do: nothing if it is a hit.
  abbrev pub owed : World → Bool → Text → Option (Cache S × Reply Text) → Result Text
  owed w has_peers key (some (c, hit view)) = ok view
  owed w has_peers key o = outcome_of (fetched w has_peers key)

  answer-Returns :
      (w : World) (key : Text) (g : Group S) (c : Cache S) (r : Reply Text)
      → IsValid g
      → Traces.IsValid c
      → Returns (owed w g.has_peers key (some (c, r))) (answer st w key (record g { cache = c }) r)
  unfolding answer
  answer-Returns w key g c (hit b) v vc =
      (_, ok b, refl, record { cached = vc; missed = v.missed; counted = v.counted }, refl)
  answer-Returns w key g c done v vc = missed-Returns w key g c v vc
  answer-Returns w key g c miss v vc = missed-Returns w key g c v vc
  answer-Returns w key g c (deleted b) v vc = missed-Returns w key g c v vc
  answer-Returns w key g c (count n) v vc = missed-Returns w key g c v vc

  -- The result that `Get` has to return.
  abbrev pub due : World → Text → Group S → Result Text
  due w [] g = if g.closed then err group_closed else err key_required
  due w (x ∷ key) g =
      if g.closed
      then err group_closed
      else owed w g.has_peers (x ∷ key) (CacheV2.get st (x ∷ key) g.cache)

  -- `Get` on a valid group returns and leaves a valid group. The result is the error of a closed group,
  -- else that of an empty key, else the value of the local cache if that has the key, else what its
  -- peer answers if there are peers and another one owns the key, and else, or if that peer fails,
  -- what the getter answers.
  pub get_returns :
      (w : World) (key : Text) (g : Group S)
      → IsValid g
      → (g' : Group S) × (r : Result Text) × (get st w key g ≡ some (g', r))
        × IsValid g'
        × (r ≡ due w key g)
  unfolding get
  get_returns w [] g v = elim (Bool-cases g.closed) [
    | inl shut ↦ (g, err group_closed, ground (arith, shut), v, ground (arith, shut))
    | inr open_ ↦ (g, err key_required, ground (arith, open_), v, ground (arith, open_))
  ]
  get_returns w (x ∷ key) g v = elim (Bool-cases g.closed) [
    | inl shut ↦ (g, err group_closed, ground (arith, shut), v, ground (arith, shut))
    | inr open_ ↦
        let (c, r, e, vc) = Traces.get-IsValid st (x ∷ key) g.cache v.cached in
        let (g', r', e', v', same) = answer-Returns w (x ∷ key) g c r v vc in
        (
          g',
          r',
          ground (arith, open_, e, e'),
          v',
          same
              ∙ ap (owed w g.has_peers (x ∷ key)) (sym e)
              ∙ sym (if_open g.closed (err group_closed) _ open_),
        )
  ]
    where
      if_open : (b : Bool) (x y : Result Text) → b ≡ false → (if b then x else y) ≡ y
      if_open b x y e = ground (arith, e)

  -- The error that `Set` has to report.
  abbrev pub refusal : Bool → Text → Text → Option Error
  refusal true key value = some group_closed
  refusal false [] value = some key_required
  refusal false (k ∷ key) [] = some value_required
  refusal false (k ∷ key) (b ∷ value) = none

  -- `Set` on a valid group returns and leaves a valid group. It reports the closed group, else the
  -- empty key, else the empty value, and no other error; where it reports one it leaves the group as
  -- it was and sends nothing.
  pub set_returns :
      (w : World) (from_peer : Bool) (key value : Text) (g : Group S)
      → IsValid g
      → (g' : Group S) × (e : Option Error) × (m : Option Sync) × (set st w from_peer key value g
          ≡ some (g', e, m))
        × IsValid g'
        × (e ≡ refusal g.closed key value)
        × ((x : Error) → e ≡ some x → (g' ≡ g) × (m ≡ none))
  unfolding set
  set_returns w from_peer key value g v = elim (Bool-cases g.closed) [
    | inl shut ↦ (
      g,
      some group_closed,
      none,
      ground (arith, shut),
      v,
      sym (ap (λ b. refusal b key value) shut),
      λ x e. (refl, refl),
    )
    | inr open_ ↦ go key value open_
  ]
    where
      go :
          (key value : Text)
          → g.closed ≡ false
          → (g' : Group S) × (e : Option Error) × (m : Option Sync) × (set st w from_peer key value
                g
              ≡ some (g', e, m))
            × IsValid g'
            × (e ≡ refusal g.closed key value)
            × ((x : Error) → e ≡ some x → (g' ≡ g) × (m ≡ none))
      go [] value open_ = (
        g,
        some key_required,
        none,
        ground (arith, open_),
        v,
        sym (ap (λ b. refusal b [] value) open_),
        λ x e. (refl, refl),
      )
      go (k ∷ key) [] open_ = (
        g,
        some value_required,
        none,
        ground (arith, open_),
        v,
        sym (ap (λ b. refusal b (k ∷ key) []) open_),
        λ x e. (refl, refl),
      )
      go (k ∷ key) (b ∷ value) open_ =
          let (c, e, vc) = keep_returns w (k ∷ key) (b ∷ value) g v.cached in
          (
            record g { cache = c },
            none,
            sync (λ id. sync_set id (k ∷ key) (b ∷ value)) w g.has_peers from_peer (k ∷ key),
            ground (arith, open_, e),
            record { cached = vc; missed = v.missed; counted = v.counted },
            sym (ap (λ shut. refusal shut (k ∷ key) (b ∷ value)) open_),
            λ x o. absurd (cc),
          )
