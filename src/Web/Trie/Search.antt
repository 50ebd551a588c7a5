-- ===== src/Web/Trie/Search.antt =====
-- sonnet-web/trie.go: what `search` finds after `insert`.
use sonnet_pro.Prelude.{
  List, [], ◌∷◌, Bool, true, false, ◌≡◌, ◌≢◌, ◌⊎◌, refl, arith, Text, Option, none, some,
  Bool-cases, inl, inr,
}
use sonnet_pro.Web.Trie.{
  Node, Nodes, node, nil, cons, pattern_of, is_wild_part, new_node, empty_node, matches,
  update_child, insert, is_star, match_children, found, first_result, search_node,
}
use sonnet_pro.Web.Trie.Shape.{
  HasStarPatterns, HaveStarPatterns, HasLastStar, matches-insert, matches_self,
}

-- A search that does not return nil.
abbrev pub IsFound : Option Node → Type 0
IsFound r = r ≢ none

found-IsFound :
    (pattern part : Text) (cs : Nodes) (w : Bool)
    → pattern ≢ []
    → IsFound (found (node pattern part cs w))
unfolding found
found-IsFound [] part cs w ne = absurd (ne refl)
found-IsFound (c ∷ pattern) part cs w ne = λ e. cc

found-pattern :
    (pattern part : Text) (cs : Nodes) (w : Bool)
    → IsFound (found (node pattern part cs w))
    → pattern ≢ []
unfolding found
found-pattern [] part cs w h = absurd (h refl)
found-pattern (c ∷ pattern) part cs w h = λ e. cc

first_result_head :
    (f : Node → Option Node) (n : Node) (ns : List Node)
    → IsFound (f n)
    → IsFound (first_result f (n ∷ ns))
unfolding first_result
first_result_head f n ns h = ground arith

-- `f` changes a child that `search` then finds.
update_child-IsFound :
    (f : Node → Node) (look : Node → Option Node) (x : Text) (cs : Nodes)
    → ((c : Node) → matches x (f c) ≡ matches x c)
    → IsFound (look (f (new_node x)))
    → ((c : Node) → HasStarPatterns c → IsFound (look (f c)))
    → HaveStarPatterns cs
    → IsFound (first_result look (match_children x (update_child f x cs)))
unfolding update_child match_children
update_child-IsFound f look x nil same new old h =
    rw (same (new_node x), matches_self x) (first_result_head look _ [] new)
update_child-IsFound f look x (cons c cs) same new old h = elim (Bool-cases (matches x c)) [
  | inl e ↦ rw (e, same c, e) (first_result_head look _ _ (old c h.0))
  | inr e ↦ rw (e, e) (update_child-IsFound f look x cs same new old h.1)
]

search-insert_node :
    (pattern : Text) (parts : List Text) (pat part : Text) (cs : Nodes) (w : Bool)
    → pattern ≢ []
    → HasLastStar parts
    → (is_star part ≡ true → (pat ≢ []) ⊎ (parts ≡ []))
    → HaveStarPatterns cs
    → IsFound (search_node parts (insert pattern parts (node pat part cs w)))
unfolding insert search_node new_node
search-insert_node pattern [] pat part cs w ne last star h = found-IsFound pattern part cs w ne
search-insert_node pattern (x ∷ parts) pat part cs w ne last star h =
    elim (Bool-cases (is_star part)) [
      | inl e ↦
          rw e (found-IsFound pat part _ w (elim (star e) [ inl q ↦ q | inr q ↦ absurd (cc) ]))
      | inr e ↦ rw e (
          update_child-IsFound (insert pattern parts) (search_node parts) x cs
            (matches-insert x pattern parts)
            (search-insert_node pattern parts [] x nil (is_wild_part x) ne last.1
              (λ s. inr (last.0 s)) tt)
            (elim [
              | node p q ds v ↦
                  λ g. search-insert_node pattern parts p q ds v ne last.1 (λ s. inl (g.0 s)) g.1
            ])
            h)
    ]

-- A path that spells a route's own parts is found once the route is inserted, whatever routes the
-- trie held before.
pub search-insert :
    (pattern : Text) (parts : List Text) (n : Node)
    → pattern ≢ []
    → HasLastStar parts
    → HasStarPatterns n
    → IsFound (search_node parts (insert pattern parts n))
search-insert pattern parts (node pat part cs w) ne last g =
    search-insert_node pattern parts pat part cs w ne last (λ s. inl (g.0 s)) g.1

update_child_keeps :
    (f : Node → Node) (look : Node → Option Node) (x y : Text) (cs : Nodes)
    → ((c : Node) → matches y (f c) ≡ matches y c)
    → ((c : Node) → IsFound (look c) → IsFound (look (f c)))
    → IsFound (first_result look (match_children y cs))
    → IsFound (first_result look (match_children y (update_child f x cs)))
unfolding update_child match_children first_result
update_child_keeps f look x y nil same keep h = absurd (h refl)
update_child_keeps f look x y (cons c cs) same keep h =
    ground (arith, same c, keep c, update_child_keeps f look x y cs same keep)

-- A path that was found is still found after any other insertion.
pub search-insert_keeps :
    (pattern : Text) (path parts : List Text) (n : Node)
    → pattern ≢ []
    → IsFound (search_node path n)
    → IsFound (search_node path (insert pattern parts n))
unfolding insert search_node
search-insert_keeps pattern [] [] (node pat part cs w) ne h = found-IsFound pattern part cs w ne
search-insert_keeps pattern [] (x ∷ parts) (node pat part cs w) ne h =
    found-IsFound pat part _ w (found-pattern pat part cs w h)
search-insert_keeps pattern (y ∷ path) [] (node pat part cs w) ne h =
    ground (arith, found-IsFound pattern part cs w ne)
search-insert_keeps pattern (y ∷ path) (x ∷ parts) (node pat part cs w) ne h =
    elim (Bool-cases (is_star part)) [
      | inl e ↦ rw e (found-IsFound pat part _ w (found-pattern pat part cs w (rw e at h)))
      | inr e ↦ rw e (
          update_child_keeps (insert pattern parts) (search_node path) x y cs
            (matches-insert y pattern parts) (λ c. search-insert_keeps pattern path parts c ne)
            (rw e at h))
    ]

-- No node of the trie has a part that starts with "*".
abbrev mutual
  pub HasNoStar : Node → Type 0
  HasNoStar (node pattern part children w) = (is_star part ≡ false) × HaveNoStar children

  pub HaveNoStar : Nodes → Type 0
  HaveNoStar nil = Unit
  HaveNoStar (cons n ns) = HasNoStar n × HaveNoStar ns

-- The search ends at a node that holds the pattern.
pub record Finds (pattern : Text) (result : Option Node) : Type 0 where
  pub target : Node
  pub hit : result ≡ some target
  pub holds : pattern_of target ≡ pattern

found-Finds :
    (pattern part : Text) (cs : Nodes) (w : Bool)
    → pattern ≢ []
    → Finds pattern (found (node pattern part cs w))
unfolding found
found-Finds [] part cs w ne = absurd (ne refl)
found-Finds (c ∷ pattern) part cs w ne = record {
  target = node (c ∷ pattern) part cs w;
  hit = refl;
  holds = refl;
}

update_child-Finds :
    (pattern : Text) (f : Node → Node) (look : Node → Option Node) (x : Text) (cs : Nodes)
    → ((c : Node) → matches x (f c) ≡ matches x c)
    → Finds pattern (look (f (new_node x)))
    → ((c : Node) → HasNoStar c → Finds pattern (look (f c)))
    → HaveNoStar cs
    → Finds pattern (first_result look (match_children x (update_child f x cs)))
unfolding update_child match_children first_result
update_child-Finds pattern f look x nil same new old h =
    rw (same (new_node x), matches_self x)
      (record { target = new.target; hit = ground (arith, new.hit); holds = new.holds })
update_child-Finds pattern f look x (cons c cs) same new old h = elim (Bool-cases (matches x c)) [
  | inl e ↦
      let o = old c h.0 in
      rw (e, same c, e) (record { target = o.target; hit = ground (arith, o.hit); holds = o.holds })
  | inr e ↦ rw (e, e) (update_child-Finds pattern f look x cs same new old h.1)
]

search-insert_node_exact :
    (pattern : Text) (parts : List Text) (pat part : Text) (cs : Nodes) (w : Bool)
    → pattern ≢ []
    → HasLastStar parts
    → (is_star part ≡ true → parts ≡ [])
    → HaveNoStar cs
    → Finds pattern (search_node parts (insert pattern parts (node pat part cs w)))
unfolding insert search_node new_node
search-insert_node_exact pattern [] pat part cs w ne last star h = found-Finds pattern part cs w ne
search-insert_node_exact pattern (x ∷ parts) pat part cs w ne last star h =
    elim (Bool-cases (is_star part)) [
      | inl e ↦ absurd (let q = star e in cc)
      | inr e ↦ rw e (
          update_child-Finds pattern (insert pattern parts) (search_node parts) x cs
            (matches-insert x pattern parts)
            (search-insert_node_exact pattern parts [] x nil (is_wild_part x) ne last.1 last.0 tt)
            (elim [
              | node p q ds v ↦ λ g.
                  search-insert_node_exact pattern parts p q ds v ne last.1
                    (λ s. absurd (let o = g.0 in cc)) g.1
            ])
            h)
    ]

-- Where no earlier route has a "*" part, a path that spells the inserted route's own parts ends at
-- that route.
pub search-insert_exact :
    (pattern : Text) (parts : List Text) (n : Node)
    → pattern ≢ []
    → HasLastStar parts
    → HasNoStar n
    → Finds pattern (search_node parts (insert pattern parts n))
search-insert_exact pattern parts (node pat part cs w) ne last g =
    search-insert_node_exact pattern parts pat part cs w ne last (λ s. absurd (let o = g.0 in cc))
      g.1

-- In an empty trie, a route of one literal part that is inserted after a route of one ":" part takes
-- over its node: in the trie of these two routes every path of one part ends at a node that holds the
-- second pattern, if that is not empty, and the part of the first.
pub search-insert_taken_over :
    (first second name literal path : Text)
    → second ≢ []
    → search_node
        (path ∷ [])
        (insert second (literal ∷ []) (insert first ((b':' ∷ name) ∷ []) empty_node))
      ≡ some (node second (b':' ∷ name) nil true)
unfolding insert search_node empty_node update_child new_node matches match_children is_star
    first_result found
search-insert_taken_over first [] name literal path ne = absurd (ne refl)
search-insert_taken_over first (c ∷ second) name literal path ne = ground arith
