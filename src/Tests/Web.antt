-- ===== src/Tests/Web.antt =====
-- sonnet-web: the router, the groups and the chain of handlers on small inputs.
use sonnet_pro.Prelude.{
  ℕ, List, [], ◌∷◌, ◌≡◌, ◌⊎◌, ◌<◌, refl, arith, none, some, true, Text, codes, join,
}
use sonnet_pro.Prelude.Maps.{lookup, insert}
use sonnet_pro.Web.Trie
use sonnet_pro.Web.Trie.{Node, node, nil, empty_node, search_node, pattern_of}
use sonnet_pro.Web.Trie.Search
use sonnet_pro.Web.Router.{
  Params, Router, new_router, add_route, get_route, registered, not_found, choose, get_routes,
}
use sonnet_pro.Web.Router.Laws
use sonnet_pro.Web.Router.Laws.{IsValid}
use sonnet_pro.Web.Context.{Handler, plain, wrap, fail, next}
use sonnet_pro.Web.Context.Onion.{onion, next-onion}
use sonnet_pro.Web.Engine.{RouterGroup, Engine, new_engine, add_group, use_middlewares, serve, get}
use sonnet_pro.Web.Engine.Groups
use sonnet_pro.Web.Engine.Groups.{IsNested}

web : Unit {0}
unfolding choose get_route get_routes add_route new_router serve add_group use_middlewares
    new_engine get next lookup insert join Trie.insert search_node Trie.first_result Trie.found
    Trie.is_star Trie.match_children
web = tt

abbrev hello : Text
hello = codes "/hello/:name"

abbrev assets : Text
assets = codes "/assets/*file"

table : Router ℕ
table = add_route (add_route new_router (codes "GET") hello 1) (codes "GET") assets 2

table_tests :
    (choose table (codes "GET") (codes "/hello/go")
      ≡ registered 1 ((codes "name", codes "go") ∷ []))
    × (choose table (codes "GET") (codes "/assets/css/a.css")
        ≡ registered 2 ((codes "file", codes "css/a.css") ∷ []))
    × (choose table (codes "GET") (codes "/hello") ≡ not_found)
    × (choose table (codes "POST") (codes "/hello/go") ≡ not_found)
unfolding web table
table_tests = (refl, refl, refl, refl)

first-IsValid : IsValid (add_route (new_router {H = ℕ}) (codes "GET") hello 1)
first-IsValid =
    Laws.add_route-IsValid new_router (codes "GET") hello 1 (λ e. cc) Laws.new_router-IsValid

table-IsValid : IsValid table
unfolding table
table-IsValid =
    Laws.add_route-IsValid (add_route new_router (codes "GET") hello 1) (codes "GET") assets 2
      (λ e. cc) first-IsValid

hello_go :
    choose table (codes "GET") (codes "/hello/go") ≡ registered 1 ((codes "name", codes "go") ∷ [])
unfolding web table
hello_go = refl

choose_total_example :
    (choose table (codes "GET") (codes "/hello/go") ≡ not_found)
    ⊎ ((h : ℕ) × (params : Params) × (choose table (codes "GET") (codes "/hello/go")
          ≡ registered h params))
choose_total_example = Laws.choose_total table (codes "GET") (codes "/hello/go") table-IsValid

choose-add_route_example :
    (g : ℕ) × (params : Params) × (choose
        (add_route table (codes "GET") (codes "/x") 3)
        (codes "GET")
        (codes "/x")
      ≡ registered g params)
choose-add_route_example =
    Laws.choose-add_route table (codes "GET") (codes "/x") 3 (λ e. cc) table-IsValid

choose-add_route_exact_example :
    (params : Params) × (choose
        (add_route (new_router {H = ℕ}) (codes "GET") hello 1)
        (codes "GET")
        hello
      ≡ registered 1 params)
unfolding web
choose-add_route_exact_example =
    Laws.choose-add_route_exact new_router (codes "GET") hello 1 (λ e. cc) Laws.new_router-IsValid
      (refl, tt)

choose-add_route_keeps_example :
    (g : ℕ) × (params : Params) × (choose
        (add_route table (codes "POST") (codes "/x") 3)
        (codes "GET")
        (codes "/hello/go")
      ≡ registered g params)
choose-add_route_keeps_example =
    Laws.choose-add_route_keeps table (codes "POST") (codes "/x") 3 (codes "GET")
      (codes "/hello/go") 1 ((codes "name", codes "go") ∷ []) (λ e. cc) table-IsValid hello_go

search-insert_taken_over_example :
    search_node (codes "bob" ∷ []) (
      Trie.insert
        (codes "/me")
        (codes "me" ∷ [])
        (Trie.insert (codes "/:id") (codes ":id" ∷ []) empty_node))
    ≡ some (node (codes "/me") (codes ":id") nil true)
search-insert_taken_over_example =
    Search.search-insert_taken_over (codes "/:id") (codes "/me") (codes "id") (codes "me")
      (codes "bob") (λ e. cc)

abbrev chain : List (Handler (List ℕ))
chain =
    wrap (λ s. 1 ∷ s) (λ s. 9 ∷ s)
    ∷ plain (λ s. 2 ∷ s)
    ∷ fail (λ s. 3 ∷ s)
    ∷ plain (λ s. 4 ∷ s)
    ∷ []

chain_run : next 5 chain (0, []) ≡ some (7, 9 ∷ 3 ∷ 2 ∷ 1 ∷ [])
unfolding web
chain_run = refl

next-onion_example : (last : ℕ) × (4 < last) × (next 5 chain (0, []) ≡ some (last, onion chain []))
next-onion_example = next-onion chain 5 [] (omega arith)

abbrev groups : List (RouterGroup ℕ)
groups =
    record { prefix = []; middlewares = 1 ∷ []; parent = none }
    ∷ record { prefix = codes "/v1"; middlewares = 2 ∷ []; parent = some 0 }
    ∷ []

started : Engine ℕ
started = use_middlewares new_engine 0 (1 ∷ [])

started-IsNested : IsNested started.groups
unfolding started
started-IsNested = Groups.use_middlewares-IsNested new_engine 0 (1 ∷ []) Groups.new_engine-IsNested

versioned : Engine ℕ
versioned = record started {
  groups =
      record { prefix = []; middlewares = 1 ∷ []; parent = none }
      ∷ record { prefix = codes "/v1"; middlewares = []; parent = some 0 }
      ∷ [];
}
