-- ===== src/Cache/Ring/Owner.antt =====
-- sonnet-cache/consistent_hash/consistent_hash.go: which node a key belongs to, and what a new node
-- changes.
use sonnet_pro.Prelude.Maps.{insert, lookup-insert}
use sonnet_pro.Prelude.{
  ℕ, zero, suc, ◌%◌, ◌≤◌, ◌<◌, ◌≡◌, refl, sym, ap, subst, ◌∙◌, arith, leb, Bool-cases, ◌⊎◌, inl,
  inr, List, [], ◌∷◌, ◌++◌, length, get_or, Text, itoa, ite, ℕ_discrete,
}
use native.Mathlib.Nat.{mod_self, mod-eq_of_lt}
use sonnet_pro.Cache.Ring.{Ring, sort_ints, add_replicas, add_keys, add, node_at, find_index, get}
use sonnet_pro.Cache.Ring.Search.{IsFirst, sort_search-IsFirst}
use sonnet_pro.Cache.Ring.Order.{
  In, IsSorted, sort_ints-IsSorted, In-sort_ints, sort_ints-In, get_or-In, In-get_or, get_or_mono,
}

-- `p` is the first point from `h` on, clockwise: the smallest one that is not below `h`, or, where
-- there is none, the smallest of all.
pub record IsOwner (h p : ℕ) (keys : List ℕ) : Type 0 where
  pub member : In p keys
  pub nearest :
      ((h ≤ p) × ((q : ℕ) → In q keys → h ≤ q → p ≤ q))
      ⊎ (((q : ℕ) → In q keys → q < h) × ((q : ℕ) → In q keys → p ≤ q))

pub owner_unique : (h p p' : ℕ) (keys : List ℕ) → IsOwner h p keys → IsOwner h p' keys → p ≡ p'
owner_unique h p p' keys o o' = elim o.nearest [
  | inl (le, near) ↦ elim o'.nearest [
    | inl (le', near') ↦ omega (arith, near p' o'.member le', near' p o.member le)
    | inr (all', near') ↦ absurd (omega (arith, all' p o.member))
  ]
  | inr (all, near) ↦ elim o'.nearest [
    | inl (le', near') ↦ absurd (omega (arith, all p' o'.member))
    | inr (all', near') ↦ omega (arith, near p' o'.member, near' p o.member)
  ]
]

find_index-IsFirst :
    (keys : List ℕ) (h : ℕ)
    → IsSorted keys
    → IsFirst (length keys) (λ i. leb h (get_or keys i 0)) (find_index keys h)
unfolding find_index
find_index-IsFirst keys h s =
    sort_search-IsFirst (length keys) (λ i. leb h (get_or keys i 0))
      (λ a b le lt pass. ground (arith, get_or_mono keys a b s le lt)) (length keys) 0 (length keys)
      (omega arith) (omega arith) (omega arith) (λ k lt. absurd (omega arith))
      (λ k a b. absurd (omega arith))

-- The point that `Get` reads.
abbrev pub point_of : List ℕ → ℕ → ℕ
point_of keys h = get_or keys (find_index keys h % length keys) 0

-- On sorted keys, the point that `Get` reads is the owner of the hash.
pub point_of-IsOwner :
    (keys : List ℕ) (h : ℕ) → IsSorted keys → 0 < length keys → IsOwner h (point_of keys h) keys
point_of-IsOwner keys h s some_key =
    let first = find_index-IsFirst keys h s in
    let r = find_index keys h in
    elim (Bool-cases (leb (length keys) r)) [
      | inl over ↦
          let at0 : r % length keys ≡ 0 =
            let e : r ≡ length keys = ground (arith, first.within) in
            rw e (mod_self (length keys)) in
          rw at0 (record {
            member = get_or-In keys 0 some_key;
            nearest = inr (
              λ q i.
                  let (k, lt, e) = In-get_or keys q i in
                  ground (arith, first.before k (ground (arith, first.within))),
              λ q i. let (k, lt, e) = In-get_or keys q i in ground (arith, get_or_mono keys 0 k s),
            );
          })
      | inr inside ↦
          let at_r : r % length keys ≡ r = mod-eq_of_lt (ground arith) in
          rw at_r (record {
            member = get_or-In keys r (ground arith);
            nearest = inl (
              ground (arith, first.from r),
              λ q i le.
                  let (k, lt, e) = In-get_or keys q i in
                  ground (arith, get_or_mono keys r k s, first.before k),
            );
          })
    ]

-- What adding the points of `key` does to a ring: the old points stay, and a point that is new, or
-- that belongs to another node than before, belongs to `key`.
record IsExtended (key : Text) (m m' : Ring) : Type 0 where
  kept : (p : ℕ) → In p m.keys → In p m'.keys
  added : (p : ℕ) → In p m'.keys → In p m.keys ⊎ (node_at m' p ≡ key)
  moved : (p : ℕ) → (node_at m' p ≡ node_at m p) ⊎ (node_at m' p ≡ key)

IsExtended-trans :
    (key : Text) (m m' m'' : Ring)
    → IsExtended key m m'
    → IsExtended key m' m''
    → IsExtended key m m''
IsExtended-trans key m m' m'' first second = record {
  kept = λ p i. second.kept p (first.kept p i);
  added = λ p i. elim (second.added p i) [
    | inl j ↦ elim (first.added p j) [
      | inl k ↦ inl k
      | inr e ↦ elim (second.moved p) [ inl e' ↦ inr (e' ∙ e) | inr e' ↦ inr e' ]
    ]
    | inr e ↦ inr e
  ];
  moved = λ p. elim (second.moved p) [
    | inl e' ↦ elim (first.moved p) [ inl e ↦ inl (e' ∙ e) | inr e ↦ inr (e' ∙ e) ]
    | inr e' ↦ inr e'
  ];
}

In-append_left : (p : ℕ) (xs ys : List ℕ) → In p xs → In p (xs ++ ys)
In-append_left p [] ys i = absurd i
In-append_left p (x ∷ xs) ys (inl e) = inl e
In-append_left p (x ∷ xs) ys (inr i) = inr (In-append_left p xs ys i)

append_one-In : (p q : ℕ) (xs : List ℕ) → In p (xs ++ q ∷ []) → In p xs ⊎ (p ≡ q)
append_one-In p q [] (inl e) = inr e
append_one-In p q [] (inr i) = absurd i
append_one-In p q (x ∷ xs) (inl e) = inl (inl e)
append_one-In p q (x ∷ xs) (inr i) = elim (append_one-In p q xs i) [
  | inl j ↦ inl (inr j)
  | inr e ↦ inr e
]

-- A ring with one more point.
abbrev with_point : ℕ → Text → Ring → Ring
with_point point key m = record m {
  keys = m.keys ++ point ∷ [];
  hash_map = insert ℕ_discrete point key m.hash_map;
}

node_at-with_point :
    (point : ℕ) (key : Text) (m : Ring) (p : ℕ)
    → node_at (with_point point key m) p ≡ ite (ℕ_discrete point p) key (node_at m p)
unfolding node_at
node_at-with_point point key m p = ground (arith, lookup-insert ℕ_discrete point p key m.hash_map)

with_point-IsExtended :
    (point : ℕ) (key : Text) (m : Ring) → IsExtended key m (with_point point key m)
with_point-IsExtended point key m = record {
  kept = λ p i. In-append_left p m.keys (point ∷ []) i;
  added = λ p i. elim (append_one-In p point m.keys i) [
    | inl j ↦ inl j
    | inr e ↦ inr (ground (arith, node_at-with_point point key m p))
  ];
  moved = λ p. ground (arith, node_at-with_point point key m p);
}

IsExtended-same : (key : Text) (m : Ring) → IsExtended key m m
IsExtended-same key m = record { kept = λ p i. i; added = λ p i. inl i; moved = λ p. inl refl }

add_replicas-IsExtended :
    (hash : Text → ℕ) (left i : ℕ) (key : Text) (m : Ring)
    → IsExtended key m (add_replicas hash left i key m)
unfolding add_replicas
add_replicas-IsExtended hash zero i key m = IsExtended-same key m
add_replicas-IsExtended hash (suc left) i key m =
    let point = hash (itoa i ++ key) in
    IsExtended-trans key m (with_point point key m) _ (with_point-IsExtended point key m)
      (add_replicas-IsExtended hash left (suc i) key (with_point point key m))

sorted-IsExtended :
    (key : Text) (m : Ring) → IsExtended key m (record m { keys = sort_ints m.keys })
unfolding node_at
sorted-IsExtended key m = record {
  kept = λ p i. In-sort_ints p m.keys i;
  added = λ p i. inl (sort_ints-In p m.keys i);
  moved = λ p. inl refl;
}

add-IsExtended :
    (hash : Text → ℕ) (key : Text) (m : Ring) → IsExtended key m (add hash (key ∷ []) m)
unfolding add add_keys
add-IsExtended hash key m =
    let m' = add_replicas hash m.replicas 0 key m in
    IsExtended-trans key m m' _ (add_replicas-IsExtended hash m.replicas 0 key m)
      (sorted-IsExtended key m')

-- `Add` leaves the keys sorted.
pub add-IsSorted :
    (hash : Text → ℕ) (nodes : List Text) (m : Ring) → IsSorted (add hash nodes m).keys
unfolding add
add-IsSorted hash nodes m = sort_ints-IsSorted (add_keys hash nodes m).keys

keys_cases : (xs : List ℕ) → (xs ≡ []) ⊎ ((x : ℕ) × (ys : List ℕ) × (xs ≡ x ∷ ys))
keys_cases [] = inl refl
keys_cases (x ∷ ys) = inr (x, ys, refl)

get_none : (hash : Text → ℕ) (key : Text) (m : Ring) → m.keys ≡ [] → get hash key m ≡ []
unfolding get
get_none hash key m e = rw e refl

get_some :
    (hash : Text → ℕ) (key : Text) (m : Ring) (p : ℕ)
    → In p m.keys
    → get hash key m ≡ node_at m (point_of m.keys (hash key))
unfolding get
get_some hash key m p i = elim (keys_cases m.keys) [
  | inl e ↦ absurd (subst (In p) e i)
  | inr (k, ks, e) ↦ rw e refl
]

In-pos : (p : ℕ) (xs : List ℕ) → In p xs → 0 < length xs
In-pos p [] i = absurd i
In-pos p (x ∷ xs) i = omega arith

-- On a ring with sorted keys, `Get` returns the node of the one point that owns the hash of the
-- key: the first point from the hash on, clockwise.
pub get-owner :
    (hash : Text → ℕ) (key : Text) (m : Ring) (p : ℕ)
    → IsSorted m.keys
    → IsOwner (hash key) p m.keys
    → get hash key m ≡ node_at m p
get-owner hash key m p s o =
    let found = point_of-IsOwner m.keys (hash key) s (In-pos p m.keys o.member) in
    get_some hash key m p o.member
    ∙ ap (node_at m) (owner_unique (hash key) (point_of m.keys (hash key)) p m.keys found o)

IsOwner-back :
    (h p : ℕ) (key : Text) (m m' : Ring)
    → IsExtended key m m'
    → In p m.keys
    → IsOwner h p m'.keys
    → IsOwner h p m.keys
IsOwner-back h p key m m' ext i o = record {
  member = i;
  nearest = elim o.nearest [
    | inl (le, near) ↦ inl (le, λ q j. near q (ext.kept q j))
    | inr (all, near) ↦ inr (λ q j. all q (ext.kept q j), λ q j. near q (ext.kept q j))
  ];
}

-- Adding a node to a ring with sorted keys moves keys to that node only: every key keeps the node it
-- had, or goes to the new one.
pub get-add_moved :
    (hash : Text → ℕ) (key node : Text) (m : Ring)
    → IsSorted m.keys
    → (get hash key (add hash (node ∷ []) m) ≡ get hash key m)
      ⊎ (get hash key (add hash (node ∷ []) m) ≡ node)
get-add_moved hash key node m s =
    let m' = add hash (node ∷ []) m in
    let s' : IsSorted m'.keys = add-IsSorted hash (node ∷ []) m in
    let ext : IsExtended node m m' = add-IsExtended hash node m in
    elim (keys_cases m'.keys) [
      | inl none_left ↦ elim (keys_cases m.keys) [
        | inl none_before ↦
            inl (get_none hash key m' none_left ∙ sym (get_none hash key m none_before))
        | inr (k, ks, e) ↦ absurd (subst (In k) none_left (ext.kept k (rw e (inl refl))))
      ]
      | inr (k, ks, e) ↦
          let p = point_of m'.keys (hash key) in
          let owner : IsOwner (hash key) p m'.keys =
            point_of-IsOwner m'.keys (hash key) s' (rw e (omega arith)) in
          let new : get hash key m' ≡ node_at m' p = get-owner hash key m' p s' owner in
          elim (ext.added p owner.member) [
            | inr at_node ↦ inr (new ∙ at_node)
            | inl i ↦
                let old : get hash key m ≡ node_at m p =
                  get-owner hash key m p s (IsOwner-back (hash key) p node m m' ext i owner) in
                elim (ext.moved p) [
                  | inl same ↦ inl (new ∙ same ∙ sym old)
                  | inr at_node ↦ inr (new ∙ at_node)
                ]
          ]
    ]
