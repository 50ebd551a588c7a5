-- ===== src/Web/Engine.antt =====
-- sonnet-web/sonnet.go: the engine, its groups and their middlewares. A `*RouterGroup` is the index
-- of the group in `engine.groups`, which holds every group; index 0 is the engine's own.
pub mod Groups
use sonnet_pro.Prelude.{
  ℕ, zero, suc, List, [], ◌∷◌, ◌++◌, Bool, Option, none, some, Text, codes, length, get_elem?,
  has_prefix, if◌then◌else◌,
}
use sonnet_pro.Web.Router.{Router, new_router, add_route, Chosen, choose}

pub record RouterGroup (H : Type 0) : Type 0 where
  pub prefix : Text
  pub middlewares : List H
  pub parent : Option ℕ

pub record Engine (H : Type 0) : Type 0 where
  pub router : Router H
  pub groups : List (RouterGroup H)

-- `New`.
unfoldable pub new_engine : {H : Type 0} → Engine H
unfolding new_router
new_engine = record {
  router = new_router;
  groups = record { prefix = []; middlewares = []; parent = none } ∷ [];
}

-- `Group`: the engine, and the new group. A pointer to no group is a fault.
unfoldable pub add_group : {H : Type 0} → Engine H → ℕ → Text → Option (Engine H × ℕ)
add_group e id prefix = elim (get_elem? e.groups id) [
  | none ↦ none
  | some g ↦ some (
    record e {
      groups =
          e.groups
          ++ record { prefix = g.prefix ++ prefix; middlewares = []; parent = some id } ∷ [];
    },
    length e.groups,
  )
]

unfoldable pub extend : {H : Type 0} → List H → RouterGroup H → RouterGroup H
extend ms g = record g { middlewares = g.middlewares ++ ms }

unfoldable pub extend_at : {H : Type 0} → List H → ℕ → List (RouterGroup H) → List (RouterGroup H)
unfolding extend
extend_at ms id [] = []
extend_at ms zero (g ∷ gs) = extend ms g ∷ gs
extend_at ms (suc id) (g ∷ gs) = g ∷ extend_at ms id gs

-- `Use`.
unfoldable pub use_middlewares : {H : Type 0} → Engine H → ℕ → List H → Engine H
unfolding extend_at
use_middlewares e id ms = record e { groups = extend_at ms id e.groups }

-- `addRoute` of a group.
unfoldable pub add_group_route : {H : Type 0} → Engine H → ℕ → Text → Text → H → Option (Engine H)
add_group_route e id method comp handler = elim (get_elem? e.groups id) [
  | none ↦ none
  | some g ↦ some (record e { router = add_route e.router method (g.prefix ++ comp) handler })
]

-- `GET` and `POST`.
unfoldable pub get : {H : Type 0} → Engine H → ℕ → Text → H → Option (Engine H)
unfolding add_group_route
get e id pattern handler = add_group_route e id (codes "GET") pattern handler

unfoldable pub post : {H : Type 0} → Engine H → ℕ → Text → H → Option (Engine H)
unfolding add_group_route
post e id pattern handler = add_group_route e id (codes "POST") pattern handler

-- The loop of `ServeHTTP` over the groups.
unfoldable pub gather : {H : Type 0} → Text → List (RouterGroup H) → List H
gather path [] = []
gather path (g ∷ gs) =
    let rest = gather path gs in if has_prefix path g.prefix then g.middlewares ++ rest else rest

-- `ServeHTTP` up to `c.Next()`: the middlewares, and the handler that `handle` appends to them.
unfoldable pub serve : {H : Type 0} → Engine H → Text → Text → List H × Chosen H
unfolding gather
serve e method path = (gather path e.groups, choose e.router method path)
