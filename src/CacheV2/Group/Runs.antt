-- ===== src/CacheV2/Group/Runs.antt =====
-- sonnet-cache-v2/group.go: sequences of calls of a group.
use sonnet_pro.Prelude.{
  ℕ, ◌≡◌, refl, sym, ap, subst, arith, List, [], ◌∷◌, Bool, true, Bool-cases, Option, none, some,
  Text, inl, inr,
}
use sonnet_pro.CacheV2
use sonnet_pro.CacheV2.{Store, Cache}
use sonnet_pro.CacheV2.Traces
use sonnet_pro.CacheV2.Group.{
  World, Group, Result, Error, Sync, new_group, get, set, delete, clear, close,
}
use sonnet_pro.CacheV2.Group.Laws.{IsValid, get_returns, set_returns}

-- The calls, each with what the world answers during it.
pub data Call : Type 0 where
  gets : World → (key : Text) → Call
  sets : World → (from_peer : Bool) → (key value : Text) → Call
  deletes : World → (from_peer : Bool) → (key : Text) → Call
  clears closes : Call

-- The group behind a call, without what the call returns.
abbrev of_get : {S : Type 0} → Option (Group S × Result Text) → Option (Group S)
of_get none = none
of_get (some (g, r)) = some g

abbrev of_set : {S : Type 0} → Option (Group S × Option Error × Option Sync) → Option (Group S)
of_set none = none
of_set (some (g, e, m)) = some g

module _ {S V : Type 0} (st : Store S V Text) where
  unfoldable pub step : Call → Group S → Option (Group S)
  step (gets w key) g = of_get (get st w key g)
  step (sets w from_peer key value) g = of_set (set st w from_peer key value g)
  step (deletes w from_peer key) g = of_set (delete st w from_peer key g)
  step clears g = clear st g
  step closes g = some (close g)

  unfoldable pub run : List Call → Group S → Option (Group S)
  run [] g = some g
  run (call ∷ calls) g = elim (step call g) [ none ↦ none | some g' ↦ run calls g' ]

  delete-IsValid :
      (w : World) (from_peer : Bool) (key : Text) (g : Group S)
      → IsValid st g
      → (g' : Group S) × (of_set (delete st w from_peer key g) ≡ some g') × IsValid st g'
  unfolding delete
  delete-IsValid w from_peer [] g v = elim (Bool-cases g.closed) [
    | inl shut ↦ (g, ground (arith, shut), v)
    | inr open_ ↦ (g, ground (arith, open_), v)
  ]
  delete-IsValid w from_peer (k ∷ key) g v = elim (Bool-cases g.closed) [
    | inl shut ↦ (g, ground (arith, shut), v)
    | inr open_ ↦
        let (c, r, e, vc) = Traces.delete-IsValid st (k ∷ key) g.cache v.cached in
        (
          record g { cache = c },
          ground (arith, open_, e),
          record { cached = vc; missed = v.missed; counted = v.counted },
        )
  ]

  clear-IsValid :
      (g : Group S) → IsValid st g → (g' : Group S) × (clear st g ≡ some g') × IsValid st g'
  unfolding clear
  clear-IsValid g v = elim (Bool-cases g.closed) [
    | inl shut ↦ (g, ground (arith, shut), v)
    | inr open_ ↦
        let (c, r, e, vc) = Traces.clear-IsValid st g.cache v.cached in
        (
          record g { cache = c },
          ground (arith, open_, e),
          record { cached = vc; missed = v.missed; counted = v.counted },
        )
  ]

  close-IsValid : (g : Group S) → IsValid st g → IsValid st (close g)
  close-IsValid g v = elim (Bool-cases g.closed) [
    | inl shut ↦
        let eq : close g ≡ g = unfold close in ground (arith, shut) in subst (IsValid st) (sym eq) v
    | inr open_ ↦
        let eq : close g ≡ record g { cache = CacheV2.close g.cache; closed = true } =
          unfold close in ground (arith, open_) in
        subst (IsValid st) (sym eq) (record {
          cached = Traces.close-IsValid st g.cache v.cached;
          missed = v.missed;
          counted = v.counted;
        })
  ]

  step-IsValid :
      (call : Call) (g : Group S)
      → IsValid st g
      → (g' : Group S) × (step call g ≡ some g') × IsValid st g'
  unfolding step
  step-IsValid (gets w key) g v =
      let (g', r, e, v', from) = get_returns st w key g v in (g', ap of_get e, v')
  step-IsValid (sets w from_peer key value) g v =
      let (g', x, m, e, v', refused, same) = set_returns st w from_peer key value g v in
      (g', ap of_set e, v')
  step-IsValid (deletes w from_peer key) g v = delete-IsValid w from_peer key g v
  step-IsValid clears g v = clear-IsValid g v
  step-IsValid closes g v = (close g, refl, close-IsValid g v)

  -- Every sequence of calls of a valid group returns and leaves it valid: its cache is, each miss was
  -- a load, and each load was counted for a peer, for the getter or as an error.
  pub run-counted :
      (calls : List Call) (g : Group S)
      → IsValid st g
      → (g' : Group S) × (run calls g ≡ some g') × IsValid st g'
  unfolding run
  run-counted [] g v = (g, refl, v)
  run-counted (call ∷ calls) g v =
      let (g', e, v') = step-IsValid call g v in
      let (g'', e', v'') = run-counted calls g' v' in (g'', ground (arith, e, e'), v'')

  pub new_group-IsValid :
      (expiration : ℕ) (has_peers : Bool) → IsValid st (new_group expiration has_peers)
  unfolding new_group
  new_group-IsValid expiration has_peers = record {
    cached = Traces.new_cache-IsValid;
    missed = refl;
    counted = omega arith;
  }
