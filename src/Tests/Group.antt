-- ===== src/Tests/Group.antt =====
-- A group of sonnet-cache-v2 over a store of one entry, and the map of groups.
use sonnet_pro.Prelude.Maps.{lookup, insert}
use sonnet_pro.Prelude.{
  ◌≡◌, refl, [], ◌∷◌, true, false, Option, none, some, Text, codes, text_dec, ite, ◌==◌,
  if◌then◌else◌,
}
use sonnet_pro.CacheV2.{Store}
use sonnet_pro.CacheV2.Group
use sonnet_pro.CacheV2.Group.{Group, World, self, Result, ok, Error, Sync, new_group}
use sonnet_pro.CacheV2.Group.Laws
use sonnet_pro.CacheV2.Group.Laws.{due, refusal, get_returns, set_returns}
use sonnet_pro.CacheV2.Group.Runs.{new_group-IsValid}
use sonnet_pro.CacheV2.Group.Registry
use sonnet_pro.CacheV2.Group.Registry.{empty_registry, destroy_group}
use sonnet_pro.CacheV2.Group.Registry.Blocking.{Made, created, start, destroy_group-blocks}

abbrev one_entry : Store (Option (Text × Text)) Text Text
one_entry = record {
  new_store = none;
  set = λ k v s. some (k, v);
  set_expiring = λ k v left s. some (k, v);
  fetch = λ k s. (s, elim s [ none ↦ none | some (j, v) ↦ ite (text_dec j k) (some v) none ]);
  remove = λ k s. (none, true);
  clear_store = λ s. none;
  len = λ s. elim s [ none ↦ 0 | some e ↦ 1 ];
  of_view = λ b. b;
  as_view = λ v. some v;
}

-- A getter that answers "v", and no other peer.
abbrev world : World
world = record {
  getter = λ key. some (codes "v");
  pick_peer = λ key. self;
  peer_get = λ id key. none;
  elapsed = 0;
}

abbrev group : Group (Option (Text × Text))
group = new_group 0 true

group-IsValid : Laws.IsValid one_entry group
group-IsValid = new_group-IsValid one_entry 0 true

get_returns_example :
    (g' : Group (Option (Text × Text))) × (r : Result Text) × (Group.get one_entry world
        (codes "k")
        group
      ≡ some (g', r))
    × Laws.IsValid one_entry g'
    × (r ≡ due one_entry world (codes "k") group)
get_returns_example = get_returns one_entry world (codes "k") group group-IsValid

set_returns_example :
    (g' : Group (Option (Text × Text))) × (e : Option Error) × (m : Option Sync) × (Group.set
        one_entry world false
        (codes "k")
        []
        group
      ≡ some (g', e, m))
    × Laws.IsValid one_entry g'
    × (e ≡ refusal one_entry group.closed (codes "k") [])
    × ((x : Error) → e ≡ some x → (g' ≡ group) × (m ≡ none))
set_returns_example = set_returns one_entry world false (codes "k") [] group group-IsValid

abbrev named_registry : Registry.Registry
named_registry = record {
  locked = false;
  groups = (codes "a", 0) ∷ [];
  closed = λ i. false;
  name_of = λ i. if i == 0 then codes "a" else [];
  next = 1;
}

named_registry-Made : Made named_registry
unfolding Registry.new_group Registry.with_lock empty_registry insert
named_registry-Made = created (codes "a") start refl

destroy_group-blocks_example : destroy_group (codes "a") named_registry ≡ none
destroy_group-blocks_example =
    destroy_group-blocks (codes "a") 0 named_registry named_registry-Made
      (unfold Registry.get_group lookup text_dec in refl)
