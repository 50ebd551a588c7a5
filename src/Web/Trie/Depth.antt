-- ===== src/Web/Trie/Depth.antt =====
-- sonnet-web/trie.go: what holds of the patterns in a trie, by the depth at which they stand.
use sonnet_pro.Prelude.{
  ℕ, suc, ◌+◌, ◌≤◌, List, [], ◌∷◌, Bool, ◌≡◌, ◌≢◌, refl, subst, arith, length, Text, Option, some,
  Bool-cases, Option-cases, inl, inr,
}
use sonnet_pro.Web.Trie.{
  Node, Nodes, node, nil, cons, pattern_of, is_wild_part, new_node, matches, update_child, insert,
  is_star, match_children, found, first_result, search_node,
}

-- `P d pattern` holds of each pattern at depth `d`.
abbrev mutual
  pub HasPatterns : Node → (ℕ → Text → Type 0) → ℕ → Type 0
  HasPatterns (node pattern part children w) P d =
      (pattern ≢ [] → P d pattern) × HavePatterns children P (suc d)

  pub HavePatterns : Nodes → (ℕ → Text → Type 0) → ℕ → Type 0
  HavePatterns nil P d = Unit
  HavePatterns (cons n ns) P d = HasPatterns n P d × HavePatterns ns P d

module _ {P Q : ℕ → Text → Type 0} (weaker : (d : ℕ) (p : Text) → P d p → Q d p) where
  mutual
    pub HasPatterns-mono : (n : Node) (d : ℕ) → HasPatterns n P d → HasPatterns n Q d
    HasPatterns-mono (node pat part cs w) d h =
        (λ ne. weaker d pat (h.0 ne), HavePatterns-mono cs (suc d) h.1)

    HavePatterns-mono : (ns : Nodes) (d : ℕ) → HavePatterns ns P d → HavePatterns ns Q d
    HavePatterns-mono nil d h = tt
    HavePatterns-mono (cons n ns) d h = (HasPatterns-mono n d h.0, HavePatterns-mono ns d h.1)

module _ (P : ℕ → Text → Type 0) where
  update_child-HavePatterns :
      (f : Node → Node) (x : Text) (cs : Nodes) (d : ℕ)
      → HasPatterns (f (new_node x)) P d
      → ((c : Node) → HasPatterns c P d → HasPatterns (f c) P d)
      → HavePatterns cs P d
      → HavePatterns (update_child f x cs) P d
  unfolding update_child
  update_child-HavePatterns f x nil d new keep h = (new, tt)
  update_child-HavePatterns f x (cons c cs) d new keep h = elim (Bool-cases (matches x c)) [
    | inl e ↦ rw e (keep c h.0, h.1)
    | inr e ↦ rw e (h.0, update_child-HavePatterns f x cs d new keep h.1)
  ]

  -- The pattern that `insert` stores stands as deep below the node as it has parts.
  pub insert-HasPatterns :
      (pattern : Text) (parts : List Text) (n : Node) (d : ℕ)
      → P (d + length parts) pattern
      → HasPatterns n P d
      → HasPatterns (insert pattern parts n) P d
  unfolding insert new_node
  insert-HasPatterns pattern [] (node pat part cs w) d p h =
      (λ _. subst (λ k. P k pattern) (omega arith) p, h.1)
  insert-HasPatterns pattern (x ∷ parts) (node pat part cs w) d p h =
      let p' : P (suc d + length parts) pattern = subst (λ k. P k pattern) (omega arith) p in
      (
        h.0,
        update_child-HavePatterns (insert pattern parts) x cs (suc d)
            (insert-HasPatterns pattern parts (node [] x nil (is_wild_part x)) (suc d) p'
              (λ e. absurd (e refl), tt))
            (λ c. insert-HasPatterns pattern parts c (suc d) p') h.1,
      )

-- Where `search` ends, and what it reads there.
pub record Ends (P : ℕ → Text → Type 0) (d most : ℕ) (r : Node) : Type 0 where
  pub depth : ℕ
  pub holds : P depth (pattern_of r)
  pub at_most : depth ≤ d + most

module _ (P : ℕ → Text → Type 0) {r : Node} where
  found-Ends :
      (pat part : Text) (cs : Nodes) (w : Bool) (d most : ℕ)
      → HasPatterns (node pat part cs w) P d
      → found (node pat part cs w) ≡ some r
      → Ends P d most r
  unfolding found
  found-Ends [] part cs w d most h e = absurd (cc)
  found-Ends (c ∷ pat) part cs w d most h e =
      let same : node (c ∷ pat) part cs w ≡ r = cc in
      record {
        depth = d;
        holds = subst (λ n. P d (pattern_of n)) same (h.0 (λ q. cc));
        at_most = omega arith;
      }

  first_result-Ends :
      (look : Node → Option Node) (x : Text) (cs : Nodes) (d most : ℕ)
      → ((c : Node) → HasPatterns c P d → look c ≡ some r → Ends P d most r)
      → HavePatterns cs P d
      → first_result look (match_children x cs) ≡ some r
      → Ends P d most r
  unfolding first_result match_children
  first_result-Ends look x nil d most each h e = absurd (cc)
  first_result-Ends look x (cons c cs) d most each h e = elim (Bool-cases (matches x c)) [
    | inr other ↦ first_result-Ends look x cs d most each h.1 (rw (other, match_children) at e)
    | inl same ↦ elim (Option-cases (look c)) [
      | inl missed ↦ first_result-Ends look x cs d most each h.1 (ground arith)
      | inr (n, hit) ↦ each c h.0 (ground arith)
    ]
  ]

  -- `search` ends at a node that holds a pattern, no deeper than the path has parts.
  pub search-Ends :
      (path : List Text) (n : Node) (d : ℕ)
      → HasPatterns n P d
      → search_node path n ≡ some r
      → Ends P d (length path) r
  unfolding search_node
  search-Ends [] (node pat part cs w) d h e = found-Ends pat part cs w d 0 h e
  search-Ends (x ∷ path) (node pat part cs w) d h e = elim (Bool-cases (is_star part)) [
    | inl star ↦ found-Ends pat part cs w d _ h (rw star at e)
    | inr plain ↦
        let ends =
          first_result-Ends (search_node path) x cs (suc d) (length path)
            (λ c g q. search-Ends path c (suc d) g q) h.1 (rw plain at e) in
        record { depth = ends.depth; holds = ends.holds; at_most = omega arith }
  ]
