-- ===== src/CacheV2/Group/Registry/Blocking.antt =====
-- sonnet-cache-v2/group.go: DestroyGroup holds the lock that Close takes.
use sonnet_pro.Prelude.Maps.{lookup, insert, delete, lookup-insert, lookup-delete}
use sonnet_pro.Prelude.{
  ℕ, suc, ◌≤◌, ◌<◌, ◌≡◌, ◌≢◌, refl, sym, ◌∙◌, subst, arith, true, false, Bool-cases, inl, inr, none,
  some, Text, text_dec, ◌==◌, if◌then◌else◌,
}
use sonnet_pro.CacheV2.Group.Registry.{
  Registry, empty_registry, with_lock, new_group, get_group, remove, close, destroy, destroy_group,
}

-- A group that is registered is open and has its name.
some_injective : {A : Type 0} {a b : A} → some a ≡ some b → a ≡ b
some_injective e = cc

pub record IsValid (r : Registry) : Type 0 where
  pub free : r.locked ≡ false
  pub registered :
      (name : Text) (i : ℕ)
      → lookup text_dec name r.groups ≡ some i
      → (r.closed i ≡ false) × (r.name_of i ≡ name) × (i < r.next)
  pub unused : (i : ℕ) → r.next ≤ i → r.closed i ≡ false

empty_registry-IsValid : IsValid empty_registry
unfolding empty_registry lookup
empty_registry-IsValid = record {
  free = refl;
  registered = λ name i e. absurd (cc);
  unused = λ i le. refl;
}

new_group-IsValid :
    (name : Text) (r : Registry)
    → IsValid r
    → (r' : Registry) × (new_group name r ≡ some r') × IsValid r'
unfolding new_group with_lock
new_group-IsValid name r v =
    let r' : Registry = record {
      locked = false;
      groups = insert text_dec name r.next r.groups;
      closed = r.closed;
      name_of = λ i. if i == r.next then name else r.name_of i;
      next = suc r.next;
    } in
    (
      r',
      ground (arith, v.free),
      record {
        free = refl;
        registered = λ n i e.
            let known = v.registered n i in
            ground (arith, lookup-insert text_dec name n r.next r.groups, known, v.unused i);
        unused = λ i le. v.unused i (omega arith);
      },
    )

close-IsValid :
    (i : ℕ) (r : Registry)
    → IsValid r
    → i < r.next
    → (r' : Registry) × (close i r ≡ some r') × IsValid r'
unfolding close with_lock remove
close-IsValid i r v lt = elim (Bool-cases (r.closed i)) [
  | inl shut ↦ (r, ground (arith, shut), v)
  | inr open_ ↦
      let r' : Registry = record {
        locked = false;
        groups = delete text_dec (r.name_of i) r.groups;
        closed = λ j. if j == i then true else r.closed j;
        name_of = r.name_of;
        next = r.next;
      } in
      (
        r',
        ground (arith, open_, v.free),
        record {
          free = refl;
          registered = λ n j e.
              let known = v.registered n j in
              ground (arith, lookup-delete text_dec (r.name_of i) n r.groups, known);
          unused = λ j le. let known = v.unused j le in ground (arith, known);
        },
      )
]

-- The calls of NewGroup and Close that made a registry.
pub data Made : Registry → Type 0 where
  start : Made empty_registry
  created : {r r' : Registry} (name : Text) → Made r → new_group name r ≡ some r' → Made r'
  shut : {r r' : Registry} (i : ℕ) → Made r → i < r.next → close i r ≡ some r' → Made r'

Made-IsValid : {r : Registry} → Made r → IsValid r
Made-IsValid start = empty_registry-IsValid
Made-IsValid (created {r} name m e) =
    let (r', e', v) = new_group-IsValid name r (Made-IsValid m) in
    subst IsValid (some_injective (sym e' ∙ e)) v
Made-IsValid (shut {r} i m lt e) =
    let (r', e', v) = close-IsValid i r (Made-IsValid m) lt in
    subst IsValid (some_injective (sym e' ∙ e)) v

-- On every registry that calls of NewGroup and Close make, DestroyGroup of a group that is there never
-- returns: it waits for the lock that it holds.
pub destroy_group-blocks :
    (name : Text) (i : ℕ) (r : Registry)
    → Made r
    → get_group name r ≡ some i
    → destroy_group name r ≡ none
unfolding destroy_group destroy close with_lock get_group
destroy_group-blocks name i r m e =
    let v = Made-IsValid m in
    let (open_, named, lt) = v.registered name i e in ground (arith, v.free, open_, e)

-- Closing a group that a later group of its name has replaced takes the later one, which stays open,
-- out of the map.
pub close-replaced :
    (name : Text) (i j : ℕ) (r : Registry)
    → Made r
    → get_group name r ≡ some j
    → r.name_of i ≡ name
    → r.closed i ≡ false
    → i ≢ j
    → (r' : Registry) × (close i r ≡ some r') × (get_group name r' ≡ none) × (r'.closed j ≡ false)
unfolding close with_lock remove get_group
close-replaced name i j r m e named open_ apart =
    let v = Made-IsValid m in
    let (open_j, named_j, lt) = v.registered name j e in
    let r' : Registry = record {
      locked = false;
      groups = delete text_dec (r.name_of i) r.groups;
      closed = λ k. if k == i then true else r.closed k;
      name_of = r.name_of;
      next = r.next;
    } in
    (
      r',
      ground (arith, open_, v.free),
      ground (arith, named, lookup-delete text_dec (r.name_of i) name r.groups),
      ground (arith, open_j, apart),
    )
