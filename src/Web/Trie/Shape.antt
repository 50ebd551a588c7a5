-- ===== src/Web/Trie/Shape.antt =====
-- sonnet-web/trie.go: what `insert` keeps of a trie's shape.
use sonnet_pro.Prelude.{
  List, [], ◌∷◌, Bool, true, ◌≡◌, ◌≢◌, ◌⊎◌, refl, arith, Text, Bool-cases, inl, inr,
}
use sonnet_pro.Web.Trie.{
  Node, Nodes, node, nil, cons, part_of, is_wild_part, new_node, matches, update_child, insert,
  is_star,
}

-- Every node whose part starts with "*" holds a pattern.
abbrev mutual
  pub HasStarPatterns : Node → Type 0
  HasStarPatterns (node pattern part children w) =
      (is_star part ≡ true → pattern ≢ []) × HaveStarPatterns children

  pub HaveStarPatterns : Nodes → Type 0
  HaveStarPatterns nil = Unit
  HaveStarPatterns (cons n ns) = HasStarPatterns n × HaveStarPatterns ns

-- A part that starts with "*" is the last one.
abbrev pub HasLastStar : List Text → Type 0
HasLastStar [] = Unit
HasLastStar (x ∷ parts) = (is_star x ≡ true → parts ≡ []) × HasLastStar parts

pub part_of-insert :
    (pattern : Text) (parts : List Text) (n : Node) → part_of (insert pattern parts n) ≡ part_of n
unfolding insert
part_of-insert pattern [] (node p q cs w) = refl
part_of-insert pattern (x ∷ parts) (node p q cs w) = refl

pub matches-insert :
    (x pattern : Text) (parts : List Text) (n : Node)
    → matches x (insert pattern parts n) ≡ matches x n
unfolding insert matches
matches-insert x pattern [] (node p q cs w) = refl
matches-insert x pattern (y ∷ parts) (node p q cs w) = refl

pub matches_self : (x : Text) → matches x (new_node x) ≡ true
unfolding matches new_node
matches_self x = ground arith

-- What holds of the children after `f` has changed one of them, or a new one.
pub update_child-HaveStarPatterns :
    (f : Node → Node) (x : Text) (cs : Nodes)
    → HasStarPatterns (f (new_node x))
    → ((c : Node) → HasStarPatterns c → HasStarPatterns (f c))
    → HaveStarPatterns cs
    → HaveStarPatterns (update_child f x cs)
unfolding update_child
update_child-HaveStarPatterns f x nil new keep h = (new, tt)
update_child-HaveStarPatterns f x (cons c cs) new keep h = elim (Bool-cases (matches x c)) [
  | inl e ↦ rw e (keep c h.0, h.1)
  | inr e ↦ rw e (h.0, update_child-HaveStarPatterns f x cs new keep h.1)
]

insert-HasStarPatterns' :
    (pattern : Text) (parts : List Text) (pat part : Text) (cs : Nodes) (w : Bool)
    → pattern ≢ []
    → HasLastStar parts
    → (is_star part ≡ true → (pat ≢ []) ⊎ (parts ≡ []))
    → HaveStarPatterns cs
    → HasStarPatterns (insert pattern parts (node pat part cs w))
unfolding insert new_node
insert-HasStarPatterns' pattern [] pat part cs w ne last star h = (λ _. ne, h)
insert-HasStarPatterns' pattern (x ∷ parts) pat part cs w ne last star h = (
  λ s. elim (star s) [ inl e ↦ e | inr e ↦ absurd (cc) ],
  update_child-HaveStarPatterns (insert pattern parts) x cs
      (insert-HasStarPatterns' pattern parts [] x nil (is_wild_part x) ne last.1
        (λ s. inr (last.0 s)) tt)
      (elim [
        | node p q ds v ↦
            λ g. insert-HasStarPatterns' pattern parts p q ds v ne last.1 (λ s. inl (g.0 s)) g.1
      ])
      h,
)

-- `insert` keeps the star nodes' patterns.
pub insert-HasStarPatterns :
    (pattern : Text) (parts : List Text) (n : Node)
    → pattern ≢ []
    → HasLastStar parts
    → HasStarPatterns n
    → HasStarPatterns (insert pattern parts n)
insert-HasStarPatterns pattern parts (node pat part cs w) ne last g =
    insert-HasStarPatterns' pattern parts pat part cs w ne last (λ s. inl (g.0 s)) g.1
