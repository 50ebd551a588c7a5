-- ===== src/Web/Engine/Groups.antt =====
-- sonnet-web/sonnet.go: nested groups and the middlewares that a request meets.
use mathlib.Core.List.{append_assoc}
use sonnet_pro.Prelude.{
  ℕ, zero, suc, ◌<◌, List, [], ◌∷◌, ◌++◌, ◌≡◌, ◌⊎◌, inl, inr, refl, sym, arith, true, some, Text,
  length, get_elem?, has_prefix, Option-cases, Bool-cases, subst,
}
use sonnet_pro.Web.Engine.{
  RouterGroup, Engine, new_engine, add_group, extend, extend_at, use_middlewares, gather,
}

-- A path that starts with `p ++ q` starts with `p`.
pub has_prefix-append : (s p q : Text) → has_prefix s (p ++ q) ≡ true → has_prefix s p ≡ true
unfolding has_prefix
has_prefix-append s [] q h = refl
has_prefix-append [] (y ∷ p) q h = h
has_prefix-append (x ∷ s) (y ∷ p) q h = ground (arith, has_prefix-append s p q)

module _ {H : Type 0} where
  -- A group's parent was made before it, and the group's prefix extends the parent's.
  pub record IsChild (gs : List (RouterGroup H)) (g : RouterGroup H) (at id : ℕ) : Type 0 where
    pub parent : RouterGroup H
    pub stored : get_elem? gs id ≡ some parent
    pub older : id < at
    pub suffix : Text
    pub extends : g.prefix ≡ parent.prefix ++ suffix

  abbrev pub IsNested : List (RouterGroup H) → Type 0
  IsNested gs =
      (i id : ℕ) (g : RouterGroup H)
      → get_elem? gs i ≡ some g
      → g.parent ≡ some id
      → IsChild gs g i id

  get_elem?-lt :
      (gs : List (RouterGroup H)) (i : ℕ) {g : RouterGroup H}
      → get_elem? gs i ≡ some g
      → i < length gs
  get_elem?-lt [] i e = absurd (cc)
  get_elem?-lt (x ∷ gs) zero e = omega arith
  get_elem?-lt (x ∷ gs) (suc i) e = omega (arith, get_elem?-lt gs i e)

  get_elem?-snoc :
      (gs : List (RouterGroup H)) (x g : RouterGroup H) (i : ℕ)
      → get_elem? (gs ++ x ∷ []) i ≡ some g
      → (get_elem? gs i ≡ some g) ⊎ ((i ≡ length gs) × (x ≡ g))
  get_elem?-snoc [] x g zero e = inr (refl, cc)
  get_elem?-snoc [] x g (suc i) e = absurd (cc)
  get_elem?-snoc (y ∷ gs) x g zero e = inl e
  get_elem?-snoc (y ∷ gs) x g (suc i) e = ground (arith, get_elem?-snoc gs x g i e)

  get_elem?-snoc_keeps :
      (gs : List (RouterGroup H)) (x g : RouterGroup H) (i : ℕ)
      → get_elem? gs i ≡ some g
      → get_elem? (gs ++ x ∷ []) i ≡ some g
  get_elem?-snoc_keeps [] x g i e = absurd (cc)
  get_elem?-snoc_keeps (y ∷ gs) x g zero e = e
  get_elem?-snoc_keeps (y ∷ gs) x g (suc i) e = get_elem?-snoc_keeps gs x g i e

  pub new_engine-IsNested : IsNested (new_engine {H = H}).groups
  unfolding new_engine
  new_engine-IsNested zero id g e p = absurd (ground arith)
  new_engine-IsNested (suc i) id g e p = absurd (cc)

  add_group_groups :
      (e : Engine H) (id : ℕ) (prefix : Text) {e' : Engine H} {new : ℕ}
      → add_group e id prefix ≡ some (e', new)
      → (p : RouterGroup H) × (get_elem? e.groups id ≡ some p)
        × (e'.groups
            ≡ e.groups
              ++ record { prefix = p.prefix ++ prefix; middlewares = []; parent = some id } ∷ [])
  unfolding add_group
  add_group_groups e id prefix done = elim (Option-cases (get_elem? e.groups id)) [
    | inl q ↦ absurd (ground arith)
    | inr (p, q) ↦ (p, q, ground arith)
  ]

  IsChild-snoc :
      {gs : List (RouterGroup H)} {g : RouterGroup H} {at id : ℕ} (x : RouterGroup H)
      → IsChild gs g at id
      → IsChild (gs ++ x ∷ []) g at id
  IsChild-snoc {gs} {id} x c = record {
    parent = c.parent;
    stored = get_elem?-snoc_keeps gs x c.parent id c.stored;
    older = c.older;
    suffix = c.suffix;
    extends = c.extends;
  }

  -- A new group keeps the nesting.
  pub add_group-IsNested :
      (e : Engine H) (id : ℕ) (prefix : Text) {e' : Engine H} {new : ℕ}
      → IsNested e.groups
      → add_group e id prefix ≡ some (e', new)
      → IsNested e'.groups
  add_group-IsNested e id prefix {e'} nested done =
      let (p, q, same) = add_group_groups e id prefix done in
      let x : RouterGroup H = record {
        prefix = p.prefix ++ prefix;
        middlewares = [];
        parent = some id;
      } in
      subst IsNested (sym same) (λ i k g at parent. elim (get_elem?-snoc e.groups x g i at) [
        | inl old ↦ IsChild-snoc x (nested i k g old parent)
        | inr (last, new) ↦
            let k_id : id ≡ k = cc in
            record {
              parent = p;
              stored = rw (← k_id) (get_elem?-snoc_keeps e.groups x p id q);
              older = omega (arith, get_elem?-lt e.groups id q);
              suffix = prefix;
              extends = cc;
            }
      ])

  -- Two groups that differ in their middlewares alone.
  abbrev IsLike : RouterGroup H → RouterGroup H → Type 0
  IsLike g g' = (g'.prefix ≡ g.prefix) × (g'.parent ≡ g.parent)

  extend_at_back :
      (ms : List H) (id : ℕ) (gs : List (RouterGroup H)) (i : ℕ) {g' : RouterGroup H}
      → get_elem? (extend_at ms id gs) i ≡ some g'
      → (g : RouterGroup H) × (get_elem? gs i ≡ some g) × IsLike g g'
  unfolding extend_at
  extend_at_back ms id [] i e = absurd (cc)
  extend_at_back ms zero (g ∷ gs) zero e = (g, refl, ground arith)
  extend_at_back ms zero (g ∷ gs) (suc i) {g'} e = (g', e, (refl, refl))
  extend_at_back ms (suc id) (g ∷ gs) zero e = (g, refl, ground arith)
  extend_at_back ms (suc id) (g ∷ gs) (suc i) e = extend_at_back ms id gs i e

  extend_at_there :
      (ms : List H) (id : ℕ) (gs : List (RouterGroup H)) (i : ℕ) {g : RouterGroup H}
      → get_elem? gs i ≡ some g
      → (g' : RouterGroup H) × (get_elem? (extend_at ms id gs) i ≡ some g') × IsLike g g'
  unfolding extend_at
  extend_at_there ms id [] i e = absurd (cc)
  extend_at_there ms zero (x ∷ gs) zero {g} e = (extend ms g, ground arith, (refl, refl))
  extend_at_there ms zero (x ∷ gs) (suc i) {g} e = (g, e, (refl, refl))
  extend_at_there ms (suc id) (x ∷ gs) zero {g} e = (g, e, (refl, refl))
  extend_at_there ms (suc id) (x ∷ gs) (suc i) e = extend_at_there ms id gs i e

  -- So does `Use`.
  pub use_middlewares-IsNested :
      (e : Engine H) (id : ℕ) (ms : List H)
      → IsNested e.groups
      → IsNested (use_middlewares e id ms).groups
  unfolding use_middlewares
  use_middlewares-IsNested e id ms nested i k g' at parent =
      let (g, old, same) = extend_at_back ms id e.groups i at in
      let c = nested i k g old (cc (same.1)) in
      let (p, stored, like) = extend_at_there ms id e.groups k c.stored in
      record {
        parent = p;
        stored = stored;
        older = c.older;
        suffix = c.suffix;
        extends = cc (same.0, like.0, c.extends);
      }

  gather_group :
      (path : Text) (gs : List (RouterGroup H)) (i : ℕ) (g : RouterGroup H)
      → get_elem? gs i ≡ some g
      → has_prefix path g.prefix ≡ true
      → (front back : List H) × (gather path gs ≡ front ++ (g.middlewares ++ back))
  unfolding gather
  gather_group path [] i g e h = absurd (cc)
  gather_group path (x ∷ gs) zero g e h = ([], gather path gs, ground arith)
  gather_group path (x ∷ gs) (suc i) g e h =
      let (front, back, same) = gather_group path gs i g e h in
      elim (Bool-cases (has_prefix path x.prefix)) [
        | inl q ↦ (x.middlewares ++ front, back, rw (q, same) (simp append_assoc))
        | inr q ↦ (front, back, rw (q, same))
      ]

  gather_groups :
      (path : Text) (gs : List (RouterGroup H)) (i j : ℕ) (g k : RouterGroup H)
      → i < j
      → get_elem? gs i ≡ some g
      → get_elem? gs j ≡ some k
      → has_prefix path g.prefix ≡ true
      → has_prefix path k.prefix ≡ true
      → (front mid back : List H) × (gather path gs
          ≡ front ++ (g.middlewares ++ (mid ++ (k.middlewares ++ back))))
  unfolding gather
  gather_groups path [] i j g k lt at_i at_j h_i h_j = absurd (cc)
  gather_groups path (x ∷ gs) i zero g k lt at_i at_j h_i h_j = absurd (omega arith)
  gather_groups path (x ∷ gs) zero (suc j) g k lt at_i at_j h_i h_j =
      let (front, back, same) = gather_group path gs j k at_j h_j in
      ([], front, back, ground (arith, same))
  gather_groups path (x ∷ gs) (suc i) (suc j) g k lt at_i at_j h_i h_j =
      let (front, mid, back, same) =
        gather_groups path gs i j g k (omega arith) at_i at_j h_i h_j in
      elim (Bool-cases (has_prefix path x.prefix)) [
        | inl q ↦ (x.middlewares ++ front, mid, back, rw (q, same) (simp append_assoc))
        | inr q ↦ (front, mid, back, rw (q, same))
      ]

  -- A request that meets a group's middlewares meets those of the group's parent before them.
  pub gather-parent :
      (path : Text) (gs : List (RouterGroup H)) (i id : ℕ) (g : RouterGroup H)
      → IsNested gs
      → get_elem? gs i ≡ some g
      → g.parent ≡ some id
      → has_prefix path g.prefix ≡ true
      → (p : RouterGroup H) × (get_elem? gs id ≡ some p)
        × ((front mid back : List H) × (gather path gs
              ≡ front ++ (p.middlewares ++ (mid ++ (g.middlewares ++ back)))))
  gather-parent path gs i id g nested at parent h =
      let c = nested i id g at parent in
      let h' : has_prefix path (c.parent.prefix ++ c.suffix) ≡ true = rw (← c.extends) h in
      (
        c.parent,
        c.stored,
        gather_groups path gs id i c.parent g c.older c.stored at
            (has_prefix-append path c.parent.prefix c.suffix h') h,
      )
