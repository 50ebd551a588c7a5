-- ===== src/CacheV2/Group/Loads.antt =====
-- sonnet-cache-v2/group.go: loading a key: its value from a peer or the getter, and the counters.
use sonnet_pro.Prelude.{
  ℕ, suc, ◌+◌, ◌≡◌, refl, sym, subst, ◌⊎◌, inl, inr, arith, Bool, true, false, Option, none, some,
  Option-cases, Text,
}
use sonnet_pro.CacheV2.Group.{
  Pick, nobody, self, peer, World, Stats, load_failed, Result, ok, err, load_getter, load_peer,
  load_data,
}

-- The values that peers and the getter gave.
abbrev pub served : Stats → ℕ
served s = s.peer_hits + s.loader_hits

-- What a key is to be loaded as: the value of the peer that owns it, if there are peers and the owner is
-- another one and answers, and else that of the getter.
abbrev pub fetched : World → Bool → Text → Option Text
fetched w false key = w.getter key
fetched w true key = elim (w.pick_peer key) [
  | nobody ↦ w.getter key
  | self ↦ w.getter key
  | peer id ↦ elim (w.peer_get id key) [ none ↦ w.getter key | some view ↦ some view ]
]

-- A loaded value as the result of a call.
abbrev pub outcome_of : Option Text → Result Text
outcome_of none = err load_failed
outcome_of (some view) = ok view

-- What `loadData` counts.
pub record IsLoad (w : World) (key : Text) (s : Stats) (out : Stats × Option Text) : Type 0 where
  pub loads : out.0.loads ≡ s.loads
  pub misses : out.0.local_misses ≡ s.local_misses
  pub errors : out.0.loader_errors ≡ s.loader_errors
  pub outcome :
      ((out.1 ≡ none) × (served out.0 ≡ served s))
      ⊎ ((view : Text) × (out.1 ≡ some view) × (served out.0 ≡ suc (served s)))

IsLoad-failed :
    (w : World) (key : Text) (s s' : Stats)
    → s'.loads ≡ s.loads
    → s'.local_misses ≡ s.local_misses
    → s'.loader_errors ≡ s.loader_errors
    → served s' ≡ served s
    → IsLoad w key s (s', none)
IsLoad-failed w key s s' l m e n = record {
  loads = l;
  misses = m;
  errors = e;
  outcome = inl (refl, n);
}

load_getter-IsLoad :
    (w : World) (key : Text) (s s' : Stats)
    → s'.loads ≡ s.loads
    → s'.local_misses ≡ s.local_misses
    → s'.loader_errors ≡ s.loader_errors
    → served s' ≡ served s
    → IsLoad w key s (load_getter w key s')
load_getter-IsLoad w key s s' l m er n = elim (Option-cases (w.getter key)) [
  | inl e ↦
      let eq : load_getter w key s' ≡ (s', none) = unfold load_getter in ground (arith, e) in
      subst (IsLoad w key s) (sym eq) (IsLoad-failed w key s s' l m er n)
  | inr (view, e) ↦
      let eq : load_getter w key s' ≡ (record s' { loader_hits = s'.loader_hits + 1 }, some view) =
        unfold load_getter in ground (arith, e) in
      subst (IsLoad w key s) (sym eq) (record {
        loads = l;
        misses = m;
        errors = er;
        outcome = inr (view, refl, omega (arith, n));
      })
]

load_peer-IsLoad :
    (w : World) (id : ℕ) (key : Text) (s : Stats)
    → w.pick_peer key ≡ peer id
    → IsLoad w key s (load_peer w id key s)
load_peer-IsLoad w id key s p = elim (Option-cases (w.peer_get id key)) [
  | inl e ↦
      let eq : load_peer w id key s
          ≡ load_getter w key (record s { peer_misses = s.peer_misses + 1 }) =
        unfold load_peer in ground (arith, e) in
      subst (IsLoad w key s) (sym eq) (
        load_getter-IsLoad w key s (record s { peer_misses = s.peer_misses + 1 }) refl refl refl
          refl)
  | inr (view, e) ↦
      let eq : load_peer w id key s ≡ (record s { peer_hits = s.peer_hits + 1 }, some view) =
        unfold load_peer in ground (arith, e) in
      subst (IsLoad w key s) (sym eq) (record {
        loads = refl;
        misses = refl;
        errors = refl;
        outcome = inr (view, refl, omega arith);
      })
]

pick_cases : (p : Pick) → (p ≡ nobody) ⊎ (p ≡ self) ⊎ ((id : ℕ) × (p ≡ peer id))
pick_cases nobody = inl refl
pick_cases self = inr (inl refl)
pick_cases (peer id) = inr (inr (id, refl))

pub load_data-IsLoad :
    (w : World) (has_peers : Bool) (key : Text) (s : Stats)
    → IsLoad w key s (load_data w has_peers key s)
load_data-IsLoad w false key s =
    unfold load_data in load_getter-IsLoad w key s s refl refl refl refl
load_data-IsLoad w true key s = elim (pick_cases (w.pick_peer key)) [
  | inl e ↦
      let eq : load_data w true key s ≡ load_getter w key s =
        unfold load_data in ground (arith, e) in
      subst (IsLoad w key s) (sym eq) (load_getter-IsLoad w key s s refl refl refl refl)
  | inr (inl e) ↦
      let eq : load_data w true key s ≡ load_getter w key s =
        unfold load_data in ground (arith, e) in
      subst (IsLoad w key s) (sym eq) (load_getter-IsLoad w key s s refl refl refl refl)
  | inr (inr (id, e)) ↦
      let eq : load_data w true key s ≡ load_peer w id key s =
        unfold load_data in ground (arith, e) in
      subst (IsLoad w key s) (sym eq) (load_peer-IsLoad w id key s e)
]

load_getter-value : (w : World) (key : Text) (s : Stats) → (load_getter w key s).1 ≡ w.getter key
load_getter-value w key s = elim (Option-cases (w.getter key)) [
  | inl e ↦ unfold load_getter in ground (arith, e)
  | inr (view, e) ↦ unfold load_getter in ground (arith, e)
]

pub load_data-fetched :
    (w : World) (has_peers : Bool) (key : Text) (s : Stats)
    → (load_data w has_peers key s).1 ≡ fetched w has_peers key
unfolding load_data load_peer
load_data-fetched w false key s = load_getter-value w key s
load_data-fetched w true key s = elim (pick_cases (w.pick_peer key)) [
  | inl e ↦ let v = load_getter-value w key s in ground (arith, e, v)
  | inr (inl e) ↦ let v = load_getter-value w key s in ground (arith, e, v)
  | inr (inr (id, e)) ↦ elim (Option-cases (w.peer_get id key)) [
    | inl q ↦
        let v = load_getter-value w key (record s { peer_misses = s.peer_misses + 1 }) in
        ground (arith, e, q, v)
    | inr (view, q) ↦ ground (arith, e, q)
  ]
]
