-- ===== src/CacheV2/Levels/Runs.antt =====
-- sonnet-cache-v2/store/lru2.go, the store: sequences of calls, and `Get` after `Set`.
use sonnet_pro.Prelude.{
  Option, ℕ, ◌≡◌, ◌+◌, ◌^◌, refl, ◌∙◌, ap, arith, List, [], ◌∷◌, true, some, Text, inl, inr, ltb,
  leb, false, update, ◌<◌, Option-cases, ◌>>=◌, ◌&&◌,
}
use sonnet_pro.CacheV2.Levels.{
  Store, bucket, delete, get_value, set_with_expiration, clear, cleanup, len, promote, get_from,
  put_second, expire_at_of,
}
use sonnet_pro.CacheV2.Levels.Laws.{
  IsSound, IsValid, on_first-returns, on_second-returns, put-IsSound, bucket_lt,
}
use sonnet_pro.CacheV2.Lru2.{Node, Level, put, del}
use sonnet_pro.CacheV2.Lru2.Spec.{store, retired, entry}
use sonnet_pro.CacheV2.Lru2.Refines.{put-IsView}
use sonnet_pro.CacheV2.Lru2.Answers.{del-IsView}

pub data Call (V : Type 0) : Type 0 where
  sets : (now : ℕ) → Text → Option V → (expiration : ℕ) → Call V
  gets : (now : ℕ) → Text → Call V
  deletes : Text → Call V
  clears : Call V
  lens : Call V
  cleans : (now : ℕ) → Call V

module _ {V : Type 0} where
  unfoldable pub step : Call V → Store V → Option (Store V)
  unfolding set_with_expiration get_value delete clear len cleanup
  step (sets now key v e) s = set_with_expiration now key v e s
  step (gets now key) s = get_value now key s >>= λ q. some q.0
  step (deletes key) s = delete key s >>= λ q. some q.0
  step clears s = clear s
  step lens s = len s >>= λ n. some s
  step (cleans now) s = cleanup now s

  -- Calls in order, up to the first that panics.
  unfoldable pub run : List (Call V) → Store V → Option (Store V)
  unfolding step
  run [] s = some s
  run (x ∷ xs) s = step x s >>= λ s'. run xs s'

  entry-store : (size : ℕ) (n : Node V) (ns : List (Node V)) → entry n.k (store size n ns) ≡ some n
  entry-store size n ns = elim (Option-cases (entry n.k ns)) [
    | inl absent ↦ ground (arith, absent)
    | inr present ↦ let (old, there) = present in ground (arith, there)
  ]

  retired-live :
      (k : Text) (n : Node V) (ns : List (Node V))
      → entry k ns ≡ some n
      → 0 < n.expire_at
      → retired k ns ≡ some (record n { expire_at = 0 }, n.expire_at)
  retired-live k n ns there live =
      let b : ltb 0 n.expire_at ≡ true = ground (arith, live) in rw (there, b, retired) refl

  get_from_fresh :
      (now : ℕ) (key : Text) (i : ℕ) (n : Node V) (e : ℕ) (s : Store V)
      → now < e
      → i < s.count
      → IsSound (s.second i)
      → (s' : Store V) × (get_from now key i (some (n, e)) s ≡ some (s', some n.v))
  unfolding get_from promote put_second
  get_from_fresh now key i n e s later p h =
      let g = put-IsSound key n.v e (s.second i) h in
      let valid : (ltb 0 e && leb e now) ≡ false = ground (arith, later) in
      let stored = on_second-returns i (put key n.v e) s g.value.0 g.value.1 p g.returns in
      (
        record s { second = update s.second i g.value.0 },
        rw (get_from, promote, valid, put_second)
            (ap (λ o. o >>= λ q. some (q.0, some n.v)) stored),
      )

  -- `del` of a key that was just put on a sound level.
  level_del-put :
      (c : Level V) (key : Text) (v : Option V) (e : ℕ)
      → IsSound c
      → 0 < e
      → (c_1 : Level V) × (c_2 : Level V) × (a : ℕ) × (put key v e c ≡ some (c_1, a))
        × (del key c_1 ≡ some (c_2, some (record { k = key; v = v; expire_at = 0 }, e)))
  level_del-put c key v e h pos =
      let n : Node V = record { k = key; v = v; expire_at = e } in
      let ns = store c.cap n h.entries in
      let (c_1, returns_1, view_1, same_1) = put-IsView c h.entries key v e h.room h.view in
      let (c_2, returns_2, view_2, same_2) = del-IsView c_1 ns key view_1 in
      (
        c_1,
        c_2,
        _,
        returns_1,
        returns_2
            ∙ ap (λ a. some (c_2, a)) (retired-live key n ns (entry-store c.cap n h.entries) pos),
      )

  -- In a valid store, `Set` of a key with an expiration that ends within the int64 range returns, and
  -- then `Get` of the key returns its value as long as the clock has not reached that end.
  pub get_value-set_with_expiration :
      (s : Store V) (key : Text) (v : Option V) (now left later : ℕ)
      → IsValid s
      → 0 < left
      → now + left < 2 ^ 63
      → later < now + left
      → (s_1 : Store V) × (s_2 : Store V) × (set_with_expiration now key v left s ≡ some s_1)
        × (get_value later key s_1 ≡ some (s_2, some v))
  unfolding get_value set_with_expiration bucket expire_at_of
  get_value-set_with_expiration s key v now left later h pos fits before =
      let i = bucket key s in
      let e = expire_at_of now left in
      let e_pos : 0 < e = ground (arith, pos, fits) in
      let e_later : later < e = ground (arith, pos, fits, before) in
      let p = bucket_lt key s.count s (record { valid = h; count = refl }) in
      let n : Node V = record { k = key; v = v; expire_at = 0 } in
      let (c_1, c_2, a, put_returns, del_returns) =
        level_del-put (s.first i) key v e (h.first i) e_pos in
      let s_1 = record s { first = update s.first i c_1 } in
      let here : s_1.first i ≡ c_1 = ground arith in
      let after = record s_1 { first = update s_1.first i c_2 } in
      let stored = on_first-returns i (put key v e) s c_1 a p put_returns in
      let taken =
        on_first-returns i (del key) s_1 c_2 (some (n, e)) p (ap (del key) here ∙ del_returns) in
      let (s_2, served) = get_from_fresh later key i n e after e_later p (h.second i) in
      (
        s_1,
        s_2,
        ap (λ o. o >>= λ q. some q.0) stored,
        ap (λ o. o >>= λ q. get_from later key i q.1 q.0) taken ∙ served,
      )
