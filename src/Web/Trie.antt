-- ===== src/Web/Trie.antt =====
-- sonnet-web/trie.go: the route trie. A node's children are a list type of their own. `parts` is
-- what is left of the source's `parts` from `height` on, so `len(parts) == height` is `[]`.
pub mod Shape
pub mod Search
pub mod Depth
use sonnet_pro.Prelude.{
  ℕ, List, [], ◌∷◌, ◌++◌, Bool, true, false, ◌||◌, Option, none, some, ite, Text, text_dec,
  has_prefix, ◌==◌, if◌then◌else◌,
}

mutual
  pub data Node : Type 0 where
    node : (pattern part : Text) → Nodes → (is_wild : Bool) → Node

  pub data Nodes : Type 0 where
    nil : Nodes
    cons : Node → Nodes → Nodes

abbrev pub pattern_of : Node → Text
pattern_of (node pattern part children is_wild) = pattern

abbrev pub part_of : Node → Text
part_of (node pattern part children is_wild) = part

abbrev pub is_wild_of : Node → Bool
is_wild_of (node pattern part children is_wild) = is_wild

-- `part[0] == ':' || part[0] == '*'`. `parsePattern` makes no empty part, so the
-- panic of `part[0]` is out of reach and the first clause is never used.
unfoldable pub is_wild_part : Text → Bool
is_wild_part [] = false
is_wild_part (c ∷ _) = c == b':' || c == b'*'

-- `&node{part: part, isWild: …}` and `&node{}`.
unfoldable pub new_node : Text → Node
unfolding is_wild_part
new_node part = node [] part nil (is_wild_part part)

unfoldable pub empty_node : Node
empty_node = node [] [] nil false

-- `child.part == part || child.isWild`.
unfoldable pub matches : Text → Node → Bool
unfolding text_dec
matches part (node _ p _ w) = ite (text_dec p part) true w

-- `matchChild`.
unfoldable pub match_child : Text → Nodes → Option Node
unfolding matches
match_child part nil = none
match_child part (cons c cs) = if matches part c then some c else match_child part cs

-- `matchChildren`.
unfoldable pub match_children : Text → Nodes → List Node
unfolding matches
match_children part nil = []
match_children part (cons c cs) =
    let rest = match_children part cs in if matches part c then c ∷ rest else rest

-- `child := n.matchChild(part)`, the append of a new child where there is none, and the call
-- `child.insert(…)`, which changes that child in place: `f` is that call.
unfoldable pub update_child : (Node → Node) → Text → Nodes → Nodes
unfolding matches new_node
update_child f part nil = cons (f (new_node part)) nil
update_child f part (cons c cs) =
    let later = cons c (update_child f part cs) in if matches part c then cons (f c) cs else later

-- `insert`.
unfoldable pub insert : Text → List Text → Node → Node
unfolding update_child
insert pattern [] (node _ part children w) = node pattern part children w
insert pattern (x ∷ parts) (node pat part children w) =
    node pat part (update_child (insert pattern parts) x children) w

-- `strings.HasPrefix(n.part, "*")`.
unfoldable pub is_star : Text → Bool
unfolding has_prefix
is_star part = has_prefix part (b'*' ∷ [])

-- `if n.pattern == "" { return nil }; return n`.
unfoldable pub found : Node → Option Node
found (node [] part children w) = none
found (node (c ∷ pattern) part children w) = some (node (c ∷ pattern) part children w)

-- The loop of `search` over the matching children: the first result that is not nil.
unfoldable pub first_result : (Node → Option Node) → List Node → Option Node
first_result f [] = none
first_result f (c ∷ cs) = elim (f c) [ some r ↦ some r | none ↦ first_result f cs ]

-- `search`.
unfoldable pub search_node : List Text → Node → Option Node
unfolding is_star found match_children first_result
search_node [] n = found n
search_node (x ∷ parts) (node pat part children w) =
    if is_star part
    then found (node pat part children w)
    else first_result (search_node parts) (match_children x children)

-- `travel`: the nodes that hold a pattern, in preorder, after those already in the list.
unfoldable mutual
  pub travel : List Node → Node → List Node
  travel list (node [] part children w) = travel_all list children
  travel list (node (c ∷ pattern) part children w) =
      travel_all (list ++ node (c ∷ pattern) part children w ∷ []) children

  pub travel_all : List Node → Nodes → List Node
  travel_all list nil = list
  travel_all list (cons n ns) = travel_all (travel list n) ns
