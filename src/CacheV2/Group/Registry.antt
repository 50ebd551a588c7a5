-- ===== src/CacheV2/Group/Registry.antt =====
-- sonnet-cache-v2/group.go: the global map of groups under its lock, which is not reentrant. A group is
-- an identity here. `none` is a method that waits for ever for the lock that its own caller holds.
pub mod Blocking
use sonnet_pro.Prelude.Maps.{lookup, insert, delete}
use sonnet_pro.Prelude.{
  ℕ, suc, List, [], ◌∷◌, Bool, true, false, Option, none, some, Text, text_dec, ◌==◌, if◌then◌else◌,
}

pub record Registry : Type 0 where
  pub locked : Bool
  pub groups : List (Text × ℕ)
  pub closed : ℕ → Bool
  pub name_of : ℕ → Text
  pub next : ℕ

unfoldable pub empty_registry : Registry
empty_registry = record {
  locked = false;
  groups = [];
  closed = λ i. false;
  name_of = λ i. [];
  next = 0;
}

-- `groupsMu.Lock()`, the body, and the unlocking.
unfoldable pub with_lock : (Registry → Option Registry) → Registry → Option Registry
with_lock body r =
    let outcome : Option Registry = elim (body (record r { locked = true })) [
      | none ↦ none
      | some r' ↦ some (record r' { locked = false })
    ] in
    if r.locked then none else outcome

-- `NewGroup`, which replaces a group of the same name.
unfoldable pub new_group : Text → Registry → Option Registry
unfolding with_lock
new_group name r =
    with_lock
      (λ r. some (record r {
        groups = insert text_dec name r.next r.groups;
        name_of = λ i. if i == r.next then name else r.name_of i;
        next = suc r.next;
      }))
      r

-- `GetGroup`.
unfoldable pub get_group : Text → Registry → Option ℕ
get_group name r = lookup text_dec name r.groups

unfoldable pub remove : Text → Registry → Registry
remove name r = record r { groups = delete text_dec name r.groups }

-- `Close`, as far as the map.
unfoldable pub close : ℕ → Registry → Option Registry
unfolding with_lock remove
close i r =
    let shut = record r { closed = λ j. if j == i then true else r.closed j } in
    let outcome = with_lock (λ r. some (remove (r.name_of i) r)) shut in
    if r.closed i then some r else outcome

-- The body of `DestroyGroup` and of the loop of `DestroyAllGroups`.
unfoldable pub destroy : Text → ℕ → Registry → Option Registry
unfolding close remove
destroy name i r = elim (close i r) [ none ↦ none | some r' ↦ some (remove name r') ]

-- `DestroyGroup`.
unfoldable pub destroy_group : Text → Registry → Option Registry
unfolding with_lock destroy
destroy_group name =
    with_lock
      (λ r. elim (lookup text_dec name r.groups) [ none ↦ some r | some i ↦ destroy name i r ])

unfoldable pub destroy_each : List (Text × ℕ) → Registry → Option Registry
unfolding destroy
destroy_each [] r = some r
destroy_each ((name, i) ∷ rest) r = elim (destroy name i r) [
  | none ↦ none
  | some r' ↦ destroy_each rest r'
]

-- `DestroyAllGroups`.
unfoldable pub destroy_all : Registry → Option Registry
unfolding with_lock destroy_each
destroy_all = with_lock (λ r. destroy_each r.groups r)
