-- ===== src/Web/Router.antt =====
-- sonnet-web/router.go: patterns, the table of routes and handlers, and the lookup of a request.
pub mod Parse
pub mod Laws
use sonnet_pro.Prelude.Maps.{lookup, insert}
use sonnet_pro.Prelude.{
  ℕ, suc, ◌+◌, List, [], ◌∷◌, ◌++◌, Bool, Option, none, some, ite, Text, codes, text_dec, split,
  join, length, get_elem?, drop, leb, ◌==◌, ◌&&◌, if◌then◌else◌,
}
use sonnet_pro.Web.Trie
use sonnet_pro.Web.Trie.{Node, pattern_of, empty_node, search_node, travel}

-- The loop of `parsePattern`: empty items are skipped, and an item that starts with "*" ends it.
unfoldable pub parse_items : List Text → List Text
parse_items [] = []
parse_items ([] ∷ items) = parse_items items
parse_items ((c ∷ item) ∷ items) =
    let rest = parse_items items in (c ∷ item) ∷ (if c == b'*' then [] else rest)

-- `parsePattern`.
unfoldable pub parse_pattern : Text → List Text
unfolding parse_items split
parse_pattern pattern = parse_items (split pattern b'/')

abbrev pub Params : Type 0
Params = List (Text × Text)

-- `handlers` is generic in the handler functions, which are the application's.
pub record Router (H : Type 0) : Type 0 where
  pub roots : List (Text × Node)
  pub handlers : List (Text × H)

unfoldable pub new_router : {H : Type 0} → Router H
new_router = record { roots = []; handlers = [] }

-- `method + "-" + pattern`.
unfoldable pub route_key : Text → Text → Text
route_key method pattern = method ++ (b'-' ∷ pattern)

-- `r.roots[method]`, with the new root of a method that has none.
unfoldable pub root_of : {H : Type 0} → Router H → Text → Node
unfolding empty_node
root_of r method = elim (lookup text_dec method r.roots) [ none ↦ empty_node | some n ↦ n ]

-- `addRoute`.
unfoldable pub add_route : {H : Type 0} → Router H → Text → Text → H → Router H
unfolding root_of route_key
add_route r method pattern handler =
    let parts = parse_pattern pattern in
    let root = Trie.insert pattern parts (root_of r method) in
    record {
      roots = insert text_dec method root r.roots;
      handlers = insert text_dec (route_key method pattern) handler r.handlers;
    }

-- The loop of `getRoute` over the parts of the pattern, from `index` on; `none` is the panic of an
-- index or of a slice that is out of range.
unfoldable pub bind_params : List Text → ℕ → List Text → Params → Option Params
bind_params [] index path params = some params
bind_params ([] ∷ parts) index path params = none
bind_params ((c ∷ name) ∷ parts) index path params =
    let rest : Option Params = elim (get_elem? path index) [
      | none ↦ none
      | some value ↦ bind_params parts (suc index) path (insert text_dec name value params)
    ] in
    let tail : Option Params =
      if leb index (length path)
      then some (insert text_dec name (join (b'/' ∷ []) (drop index path)) params)
      else none in
    let skip = bind_params parts (suc index) path params in
    if c == b':' then rest else (if (c == b'*') && leb 1 (length name) then tail else skip)

-- What `getRoute` returns: `nil, nil`, or a node and its parameters, or a panic.
pub data Lookup : Type 0 where
  panic missing : Lookup
  route : Node → Params → Lookup

abbrev pub bound : Node → Option Params → Lookup
bound n none = panic
bound n (some params) = route n params

-- `getRoute`.
unfoldable pub get_route : {H : Type 0} → Router H → Text → Text → Lookup
unfolding bind_params parse_pattern
get_route r method path =
    let search_parts = parse_pattern path in
    elim (lookup text_dec method r.roots) [
      | none ↦ missing
      | some root ↦ elim (search_node search_parts root) [
        | none ↦ missing
        | some n ↦ bound n (bind_params (parse_pattern (pattern_of n)) 0 search_parts [])
      ]
    ]

-- `getRoutes`.
unfoldable pub get_routes : {H : Type 0} → Router H → Text → List Node
unfolding travel
get_routes r method = elim (lookup text_dec method r.roots) [
  | none ↦ []
  | some root ↦ travel [] root
]

-- What `handle` does before `c.Next()`: it appends a handler to the chain. `nil_handler` is the
-- zero value that `r.handlers[key]` has for a missing key, whose call would panic.
pub data Chosen (H : Type 0) : Type 0 where
  registered : H → Params → Chosen H
  not_found nil_handler crashed : Chosen H

unfoldable pub choose : {H : Type 0} → Router H → Text → Text → Chosen H
unfolding get_route route_key
choose r method path = elim (get_route r method path) [
  | panic ↦ crashed
  | missing ↦ not_found
  | route n params ↦ elim (lookup text_dec (route_key method (pattern_of n)) r.handlers) [
    | none ↦ nil_handler
    | some h ↦ registered h params
  ]
]
