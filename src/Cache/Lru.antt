-- ===== src/Cache/Lru.antt =====
-- sonnet-cache/lru/lru.go. A list element is shared by the list and the map, so it has an identity,
-- and the map holds that. `len` is the `Len` of a value, `evicted` the calls of `OnEvicted` so far.
-- Byte counts are integers without the bound of int64.
pub mod Shape
pub mod Back
pub mod Valid
pub mod Evict
pub mod Add
use sonnet_pro.Prelude.Int.{ℤ, pos, ltb_ℤ, ◌+ℤ◌, ◌-ℤ◌}
use sonnet_pro.Prelude.Maps.{lookup, insert, delete}
use sonnet_pro.Prelude.{
  ℕ, zero, suc, ◌+◌, List, [], ◌∷◌, ◌++◌, Bool, true, false, not, ◌&&◌, Option, none, some, Text,
  text_dec, length, ite, ℕ_discrete, ◌==◌, if◌then◌else◌,
}

-- A `list.Element` with its `entry`.
pub record Element (V : Type 0) : Type 0 where
  pub id : ℕ
  pub key : Text
  pub value : V

-- `Cache`: `ll` from front to back.
pub record Lru (V : Type 0) : Type 0 where
  pub max_bytes : ℤ
  pub n_bytes : ℤ
  pub ll : List (Element V)
  pub cache : List (Text × ℕ)
  pub next_id : ℕ
  pub evicted : List (Text × V)

module _ {V : Type 0} where
  -- `New`.
  unfoldable pub new_lru : ℤ → Lru V
  new_lru max_bytes = record {
    max_bytes = max_bytes;
    n_bytes = pos 0;
    ll = [];
    cache = [];
    next_id = 0;
    evicted = [];
  }

  -- The element that an identity stands for.
  unfoldable pub element_at : ℕ → List (Element V) → Option (Element V)
  element_at i [] = none
  element_at i (e ∷ es) = ite (ℕ_discrete e.id i) (some e) (element_at i es)

  unfoldable pub unlink : ℕ → List (Element V) → List (Element V)
  unlink i [] = []
  unlink i (e ∷ es) = ite (ℕ_discrete e.id i) es (e ∷ unlink i es)

  -- `ll.Back()`, and the list without it.
  unfoldable pub back : List (Element V) → Option (Element V)
  back [] = none
  back (e ∷ []) = some e
  back (e ∷ f ∷ es) = back (f ∷ es)

  unfoldable pub drop_back : List (Element V) → List (Element V)
  drop_back [] = []
  drop_back (e ∷ []) = []
  drop_back (e ∷ f ∷ es) = e ∷ drop_back (f ∷ es)

  -- `Get`: the element goes to the front.
  unfoldable pub get : Text → Lru V → Lru V × Option V
  unfolding element_at unlink
  get key c = elim (lookup text_dec key c.cache) [
    | none ↦ (c, none)
    | some i ↦ elim (element_at i c.ll) [
      | none ↦ (c, none)
      | some e ↦ (record c { ll = e ∷ unlink i c.ll }, some e.value)
    ]
  ]

  module _ (len : V → ℕ) where
    -- `int64(len(key)) + int64(value.Len())`.
    abbrev pub entry_size : Element V → ℕ
    entry_size e = length e.key + len e.value

    -- `RemoveOldest`.
    unfoldable pub remove_oldest : Lru V → Lru V
    unfolding back drop_back
    remove_oldest c = elim (back c.ll) [
      | none ↦ c
      | some e ↦ record c {
        ll = drop_back c.ll;
        cache = delete text_dec e.key c.cache;
        n_bytes = c.n_bytes -ℤ pos (entry_size e);
        evicted = c.evicted ++ (e.key, e.value) ∷ [];
      }
    ]

    -- `c.maxBytes != 0 && c.maxBytes < c.nBytes`.
    unfoldable pub over : Lru V → Bool
    over c =
        let unbounded : Bool = elim c.max_bytes [ pos n ↦ n == 0 | _ ↦ false ] in
        not unbounded && ltb_ℤ c.max_bytes c.n_bytes

    -- The loop of `Add`: `none` means that the fuel ran out.
    unfoldable pub evict : ℕ → Lru V → Option (Lru V)
    unfolding over remove_oldest
    evict zero c = none
    evict (suc fuel) c = let rest = evict fuel (remove_oldest c) in if over c then rest else some c

    -- The first half of `Add`, for a key that is there and for one that is not.
    unfoldable pub replace : ℕ → V → Lru V → Lru V
    unfolding element_at unlink
    replace i value c = elim (element_at i c.ll) [
      | none ↦ c
      | some e ↦ record c {
        ll = record e { value = value } ∷ unlink i c.ll;
        n_bytes = c.n_bytes +ℤ (pos (len value) -ℤ pos (len e.value));
      }
    ]

    unfoldable pub push_front : Text → V → Lru V → Lru V
    push_front key value c = record c {
      ll = record { id = c.next_id; key = key; value = value } ∷ c.ll;
      cache = insert text_dec key c.next_id c.cache;
      n_bytes = c.n_bytes +ℤ (pos (length key) +ℤ pos (len value));
      next_id = suc c.next_id;
    }

    unfoldable pub put : Text → V → Lru V → Lru V
    unfolding replace push_front
    put key value c = elim (lookup text_dec key c.cache) [
      | some i ↦ replace i value c
      | none ↦ push_front key value c
    ]

    -- `Add`.
    unfoldable pub add : ℕ → Text → V → Lru V → Option (Lru V)
    unfolding put evict
    add fuel key value c = evict fuel (put key value c)
