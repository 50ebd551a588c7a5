-- ===== src/Web/Router/Laws.antt =====
-- sonnet-web/router.go: the invariant of the route table, and what a request gets from it.
use sonnet_pro.Prelude.Maps.{lookup, insert, lookup-insert}
use sonnet_pro.Prelude.{
  ℕ, suc, ◌+◌, ◌≤◌, List, [], ◌∷◌, ◌≡◌, ◌≢◌, ◌⊎◌, refl, subst, arith, none, some, Text, text_dec,
  length, get_elem?-some, All, Option-cases, inl, inr,
}
use sonnet_pro.Web.Trie
use sonnet_pro.Web.Trie.{Node, pattern_of, empty_node, search_node}
use sonnet_pro.Web.Trie.Shape.{HasStarPatterns, insert-HasStarPatterns}
use sonnet_pro.Web.Trie.Depth.{HasPatterns, HasPatterns-mono, insert-HasPatterns, search-Ends}
use sonnet_pro.Web.Trie.Search.{
  IsFound, search-insert, search-insert_keeps, HasNoStar, search-insert_exact,
}
use sonnet_pro.Web.Router.{
  parse_pattern, Params, Router, new_router, route_key, root_of, add_route, bind_params, get_route,
  registered, not_found, choose,
}
use sonnet_pro.Web.Router.Parse.{IsPart, parse_pattern-IsPart, parse_pattern-HasLastStar}

-- No index of `getRoute` is out of range where the path has as many parts as the pattern.
bind_params_total :
    (parts : List Text) (index : ℕ) (path : List Text) (params : Params)
    → All IsPart parts
    → index + length parts ≤ length path
    → bind_params parts index path params ≢ none
unfolding bind_params
bind_params_total [] index path params h le = λ e. cc
bind_params_total ([] ∷ parts) index path params h le = absurd (h.0.0 refl)
bind_params_total ((c ∷ name) ∷ parts) index path params h le =
    let (value, at) = get_elem?-some path index (omega arith) in
    rw at (
      ground (
        arith,
        bind_params_total parts (suc index) path params h.1,
        bind_params_total parts (suc index) path (insert text_dec name value params) h.1,
      ))

module _ {H : Type 0} where
  -- A pattern of `method` stands as deep as it has parts, and its handler is registered.
  abbrev pub IsServed : Router H → Text → ℕ → Text → Type 0
  IsServed r method d pattern =
      (length (parse_pattern pattern) ≡ d)
      × (lookup text_dec (route_key method pattern) r.handlers ≢ none)

  pub record IsValid (r : Router H) : Type 0 where
    pub stars : (m : Text) (n : Node) → lookup text_dec m r.roots ≡ some n → HasStarPatterns n
    pub served :
        (m : Text) (n : Node) → lookup text_dec m r.roots ≡ some n → HasPatterns n (IsServed r m) 0

  root_of-HasStarPatterns : (r : Router H) (m : Text) → IsValid r → HasStarPatterns (root_of r m)
  unfolding root_of empty_node Trie.is_star
  root_of-HasStarPatterns r m v = elim (Option-cases (lookup text_dec m r.roots)) [
    | inl e ↦ rw (e, root_of) ((λ q. cc), tt)
    | inr (n, e) ↦ rw (e, root_of) (v.stars m n e)
  ]

  root_of-HasPatterns :
      (r : Router H) (m : Text) → IsValid r → HasPatterns (root_of r m) (IsServed r m) 0
  unfolding root_of empty_node
  root_of-HasPatterns r m v = elim (Option-cases (lookup text_dec m r.roots)) [
    | inl e ↦ rw (e, root_of) ((λ q. absurd (q refl)), tt)
    | inr (n, e) ↦ rw (e, root_of) (v.served m n e)
  ]

  -- The empty table is valid.
  pub new_router-IsValid : IsValid (new_router {H = H})
  unfolding new_router lookup
  new_router-IsValid = record { stars = λ m n e. absurd (cc); served = λ m n e. absurd (cc) }

  IsServed-add_route :
      (r : Router H) (method pattern : Text) (h : H) (m : Text) (d : ℕ) (p : Text)
      → IsServed r m d p
      → IsServed (add_route r method pattern h) m d p
  unfolding add_route
  IsServed-add_route r method pattern h m d p s =
      ground (arith, lookup-insert text_dec (route_key method pattern) (route_key m p) h r.handlers)

  IsServed-self :
      (r : Router H) (method pattern : Text) (h : H)
      → IsServed (add_route r method pattern h) method (0 + length (parse_pattern pattern)) pattern
  unfolding add_route
  IsServed-self r method pattern h = (
    omega arith,
    ground (
      arith,
      lookup-insert text_dec (route_key method pattern) (route_key method pattern) h r.handlers,
    ),
  )

  roots-add_route :
      (r : Router H) (method pattern : Text) (h : H) (m : Text) (n : Node)
      → lookup text_dec m (add_route r method pattern h).roots ≡ some n
      → ((method ≡ m) × (Trie.insert pattern (parse_pattern pattern) (root_of r method) ≡ n))
        ⊎ (lookup text_dec m r.roots ≡ some n)
  unfolding add_route
  roots-add_route r method pattern h m n e =
      let root = Trie.insert pattern (parse_pattern pattern) (root_of r method) in
      ground (arith, lookup-insert text_dec method m root r.roots)

  lookup-handlers-add_route :
      (r : Router H) (m pattern : Text) (h : H)
      → lookup text_dec (route_key m pattern) (add_route r m pattern h).handlers ≡ some h
  unfolding add_route
  lookup-handlers-add_route r m pattern h =
      ground
        (arith, lookup-insert text_dec (route_key m pattern) (route_key m pattern) h r.handlers)

  pub add_route-IsValid :
      (r : Router H) (method pattern : Text) (h : H)
      → pattern ≢ []
      → IsValid r
      → IsValid (add_route r method pattern h)
  add_route-IsValid r method pattern h ne v =
      let parts = parse_pattern pattern in
      let after = add_route r method pattern h in
      record {
        stars = λ m n e. elim (roots-add_route r method pattern h m n e) [
          | inl (_, same) ↦ subst HasStarPatterns same (
              insert-HasStarPatterns pattern parts (root_of r method) ne
                (parse_pattern-HasLastStar pattern) (root_of-HasStarPatterns r method v))
          | inr old ↦ v.stars m n old
        ];
        served = λ m n e.
            let grow = λ (k : Text). HasPatterns-mono (IsServed-add_route r method pattern h k) in
            elim (roots-add_route r method pattern h m n e) [
              | inl (at, same) ↦
                  subst (λ k. HasPatterns n (IsServed after k) 0) at
                    (subst (λ t. HasPatterns t (IsServed after method) 0) same
                      (insert-HasPatterns (IsServed after method) pattern parts (root_of r method) 0
                        (IsServed-self r method pattern h)
                        (grow method (root_of r method) 0 (root_of-HasPatterns r method v))))
              | inr old ↦ grow m n 0 (v.served m n old)
            ];
      }

  -- A search that ends at `n` is answered by the handler registered for the pattern of `n`.
  choose_hit :
      (r : Router H) (m path : Text) (root n : Node)
      → IsValid r
      → lookup text_dec m r.roots ≡ some root
      → search_node (parse_pattern path) root ≡ some n
      → (h : H) × (params : Params) × (choose r m path ≡ registered h params)
        × (lookup text_dec (route_key m (pattern_of n)) r.handlers ≡ some h)
  unfolding choose
  choose_hit r m path root n v at hit =
      let ends = search-Ends (IsServed r m) (parse_pattern path) root 0 (v.served m root at) hit in
      let parts = parse_pattern (pattern_of n) in
      let total =
        bind_params_total parts 0 (parse_pattern path) [] (parse_pattern-IsPart (pattern_of n))
          (omega (arith, ends.holds.0, ends.at_most)) in
      elim (Option-cases (bind_params parts 0 (parse_pattern path) [])) [
        | inl e ↦ absurd (total e)
        | inr (params, e) ↦
            elim (Option-cases (lookup text_dec (route_key m (pattern_of n)) r.handlers)) [
              | inl q ↦ absurd (ends.holds.1 q)
              | inr (h, q) ↦ (h, params, rw (at, hit, e, q, choose, get_route), q)
            ]
      ]

  -- A request on a valid table is answered by a registered handler, or by the 404 handler: the
  -- lookup neither panics nor calls a nil handler.
  pub choose_total :
      (r : Router H) (m path : Text)
      → IsValid r
      → (choose r m path ≡ not_found)
        ⊎ ((h : H) × (params : Params) × (choose r m path ≡ registered h params))
  unfolding choose
  choose_total r m path v = elim (Option-cases (lookup text_dec m r.roots)) [
    | inl e ↦ inl (rw (e, choose, get_route))
    | inr (root, e) ↦ elim (Option-cases (search_node (parse_pattern path) root)) [
      | inl q ↦ inl (rw (e, q, choose, get_route))
      | inr (n, q) ↦
          let (h, params, chosen, _) = choose_hit r m path root n v e q in inr (h, params, chosen)
    ]
  ]

  lookup-roots-add_route :
      (r : Router H) (m pattern : Text) (h : H)
      → lookup text_dec m (add_route r m pattern h).roots
        ≡ some (Trie.insert pattern (parse_pattern pattern) (root_of r m))
  unfolding add_route
  lookup-roots-add_route r m pattern h =
      let root = Trie.insert pattern (parse_pattern pattern) (root_of r m) in
      ground (arith, lookup-insert text_dec m m root r.roots)

  -- In a valid table, a request whose path is the pattern of the route just added, which is not empty,
  -- is answered by a registered handler.
  pub choose-add_route :
      (r : Router H) (m pattern : Text) (h : H)
      → pattern ≢ []
      → IsValid r
      → (g : H) × (params : Params) × (choose (add_route r m pattern h) m pattern
          ≡ registered g params)
  choose-add_route r m pattern h ne v =
      let parts = parse_pattern pattern in
      let root = Trie.insert pattern parts (root_of r m) in
      let some_node =
        search-insert pattern parts (root_of r m) ne (parse_pattern-HasLastStar pattern)
          (root_of-HasStarPatterns r m v) in
      elim (Option-cases (search_node parts root)) [
        | inl e ↦ absurd (some_node e)
        | inr (n, e) ↦
            let (g, params, chosen, _) =
              choose_hit (add_route r m pattern h) m pattern root n
                (add_route-IsValid r m pattern h ne v) (lookup-roots-add_route r m pattern h) e in
            (g, params, chosen)
      ]

  -- In a valid table where the method has no "*" route yet, a request whose path is the pattern of the
  -- route just added, which is not empty, is answered by the handler just registered.
  pub choose-add_route_exact :
      (r : Router H) (m pattern : Text) (h : H)
      → pattern ≢ []
      → IsValid r
      → HasNoStar (root_of r m)
      → (params : Params) × (choose (add_route r m pattern h) m pattern ≡ registered h params)
  choose-add_route_exact r m pattern h ne v plain =
      let parts = parse_pattern pattern in
      let after = add_route r m pattern h in
      let root = Trie.insert pattern parts (root_of r m) in
      let finds =
        search-insert_exact pattern parts (root_of r m) ne (parse_pattern-HasLastStar pattern)
          plain in
      let (g, params, chosen, stored) =
        choose_hit after m pattern root finds.target (add_route-IsValid r m pattern h ne v)
          (lookup-roots-add_route r m pattern h) finds.hit in
      let own : lookup text_dec (route_key m pattern) after.handlers ≡ some h =
        lookup-handlers-add_route r m pattern h in
      (params, cc (finds.holds))

  choose-IsFound :
      (r : Router H) (m path : Text) (g : H) (params : Params)
      → choose r m path ≡ registered g params
      → (root : Node) × (lookup text_dec m r.roots ≡ some root)
        × IsFound (search_node (parse_pattern path) root)
  unfolding choose
  choose-IsFound r m path g params e = elim (Option-cases (lookup text_dec m r.roots)) [
    | inl q ↦ absurd (let none_here : choose r m path ≡ not_found = rw (q, choose, get_route) in cc)
    | inr (root, q) ↦ elim (Option-cases (search_node (parse_pattern path) root)) [
      | inl s ↦
          absurd (let none_here : choose r m path ≡ not_found = rw (q, s, choose, get_route) in cc)
      | inr (n, s) ↦ (root, q, λ z. cc)
    ]
  ]

  root_kept :
      (r : Router H) (k pattern : Text) (h : H) (m : Text) (root : Node) (path : List Text)
      → pattern ≢ []
      → lookup text_dec m r.roots ≡ some root
      → IsFound (search_node path root)
      → (root' : Node) × (lookup text_dec m (add_route r k pattern h).roots ≡ some root')
        × IsFound (search_node path root')
  unfolding add_route root_of
  root_kept r k pattern h m root path ne at hit = elim (text_dec k m) [
    | yes same ↦ (
      Trie.insert pattern (parse_pattern pattern) root,
      ground (
        arith,
        lookup-insert text_dec k m (Trie.insert pattern (parse_pattern pattern) (root_of r k))
            r.roots,
      ),
      search-insert_keeps pattern path (parse_pattern pattern) root ne hit,
    )
    | no other ↦ (
      root,
      ground (
        arith,
        lookup-insert text_dec k m (Trie.insert pattern (parse_pattern pattern) (root_of r k))
            r.roots,
      ),
      hit,
    )
  ]

  -- In a valid table, a request that was answered by a registered handler still is after a route whose
  -- pattern is not empty is added.
  pub choose-add_route_keeps :
      (r : Router H) (k pattern : Text) (h : H) (m path : Text) (g : H) (params : Params)
      → pattern ≢ []
      → IsValid r
      → choose r m path ≡ registered g params
      → (g' : H) × (params' : Params) × (choose (add_route r k pattern h) m path
          ≡ registered g' params')
  choose-add_route_keeps r k pattern h m path g params ne v e =
      let (root, at, hit) = choose-IsFound r m path g params e in
      let (root', at', hit') = root_kept r k pattern h m root (parse_pattern path) ne at hit in
      elim (Option-cases (search_node (parse_pattern path) root')) [
        | inl q ↦ absurd (hit' q)
        | inr (n, q) ↦
            let (g', params', chosen, _) =
              choose_hit (add_route r k pattern h) m path root' n
                (add_route-IsValid r k pattern h ne v) at' q in
            (g', params', chosen)
      ]
