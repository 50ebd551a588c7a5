-- ===== src/CacheV2/Levels/Laws.antt =====
-- sonnet-cache-v2/store/lru2.go, the store: its operations return and keep its levels consistent.
use sonnet_pro.Prelude.{
  ℕ, ◌≡◌, sym, ◌∙◌, ap, subst, refl, arith, List, Bool, true, false, Option, some, Text, inl, inr,
  ltb, update, ◌<◌, ◌==◌, if◌then◌else◌, Bool-cases, ◌>>=◌,
}
use sonnet_pro.CacheV2.Levels.{Store, bucket, on_first, on_second}
use sonnet_pro.CacheV2.Levels.Masks.{bit_and_le}
use sonnet_pro.CacheV2.Lru2.{Node, Level, put, get, del}
use sonnet_pro.CacheV2.Lru2.Refines.{IsView, put-IsView}
use sonnet_pro.CacheV2.Lru2.Answers.{get-IsView, del-IsView}

-- An operation that returns, with a result that has a property.
pub record Gives {ℓ ℓ'} {A : Type ℓ} (P : A → Type ℓ') (o : Option A) : Type (ℓ ⊔ ℓ') where
  pub value : A
  pub returns : o ≡ some value
  pub holds : P value

pub some-Gives {ℓ ℓ'} : {A : Type ℓ} {P : A → Type ℓ'} (a : A) → P a → Gives P (some a)
some-Gives a p = record { value = a; returns = refl; holds = p }

pub bind-Gives {ℓ ℓ'} :
    {A B : Type ℓ} (P : A → Type ℓ') (Q : B → Type ℓ') (o : Option A) (f : A → Option B)
    → Gives P o
    → ((a : A) → P a → Gives Q (f a))
    → Gives Q (o >>= f)
bind-Gives P Q o f g h =
    let rest = h g.value g.holds in
    record {
      value = rest.value;
      returns = ap (λ q. q >>= f) g.returns ∙ rest.returns;
      holds = rest.holds;
    }

pub if-Gives {ℓ ℓ'} :
    {A : Type ℓ} {P : A → Type ℓ'} (b : Bool) (x y : Option A)
    → Gives P x
    → Gives P y
    → Gives P (if b then x else y)
if-Gives true x y g h = g
if-Gives false x y g h = h

module _ {V : Type 0} where
  -- A level that has room for an entry and shows a list.
  pub record IsSound (c : Level V) : Type 0 where
    pub room : 0 < c.cap
    pub entries : List (Node V)
    pub view : IsView c entries

  -- A store with a bucket for each hash.
  pub record IsValid (s : Store V) : Type 0 where
    pub wide : s.mask < s.count
    pub first : (i : ℕ) → IsSound (s.first i)
    pub second : (i : ℕ) → IsSound (s.second i)

  pub record Keeps (n : ℕ) (s : Store V) : Type 0 where
    pub valid : IsValid s
    pub count : s.count ≡ n

  -- A method of a level that returns, and leaves it sound.
  abbrev KeepsSound : {A : Type 0} → Option (Level V × A) → Type 0
  KeepsSound o = Gives (λ q. IsSound q.0) o

  -- An operation of a store of `n` buckets that returns, and leaves it valid.
  abbrev pub Leaves : {A : Type 0} → ℕ → Option (Store V × A) → Type 0
  Leaves n o = Gives (λ q. Keeps n q.0) o

  pub put-IsSound :
      (key : Text) (v : Option V) (e : ℕ) (c : Level V) → IsSound c → KeepsSound (put key v e c)
  put-IsSound key v e c h =
      let (c', e', view, same) = put-IsView c h.entries key v e h.room h.view in
      record {
        value = (c', _);
        returns = e';
        holds = record { room = subst (λ k. 0 < k) (sym same) h.room; entries = _; view = view };
      }

  pub get-IsSound : (key : Text) (c : Level V) → IsSound c → KeepsSound (get key c)
  get-IsSound key c h =
      let (c', e', view, same) = get-IsView c h.entries key h.view in
      record {
        value = (c', _);
        returns = e';
        holds = record { room = subst (λ k. 0 < k) (sym same) h.room; entries = _; view = view };
      }

  pub del-IsSound : (key : Text) (c : Level V) → IsSound c → KeepsSound (del key c)
  del-IsSound key c h =
      let (c', e', view, same) = del-IsView c h.entries key h.view in
      record {
        value = (c', _);
        returns = e';
        holds = record { room = subst (λ k. 0 < k) (sym same) h.room; entries = _; view = view };
      }

  update-IsSound :
      (cs : ℕ → Level V) (i : ℕ) (c : Level V)
      → ((j : ℕ) → IsSound (cs j))
      → IsSound c
      → (j : ℕ) → IsSound (update cs i c j)
  update-IsSound cs i c h k j = elim (Bool-cases (j == i)) [
    | inl e ↦ subst IsSound (sym (choose e)) k
    | inr e ↦ subst IsSound (sym (choose_other e)) (h j)
  ]
    where
      choose : (j == i) ≡ true → update cs i c j ≡ c
      choose e = ground (arith, e)

      choose_other : (j == i) ≡ false → update cs i c j ≡ cs j
      choose_other e = ground (arith, e)

  pub on_first-returns :
      {A : Type 0} (i : ℕ) (f : Level V → Option (Level V × A)) (s : Store V) (c : Level V) (a : A)
      → i < s.count
      → f (s.first i) ≡ some (c, a)
      → on_first i f s ≡ some (record s { first = update s.first i c }, a)
  on_first-returns i f s c a p e =
      let b : ltb i s.count ≡ true = ground (arith, p) in rw (b, e) refl

  pub on_second-returns :
      {A : Type 0} (i : ℕ) (f : Level V → Option (Level V × A)) (s : Store V) (c : Level V) (a : A)
      → i < s.count
      → f (s.second i) ≡ some (c, a)
      → on_second i f s ≡ some (record s { second = update s.second i c }, a)
  on_second-returns i f s c a p e =
      let b : ltb i s.count ≡ true = ground (arith, p) in rw (b, e) refl

  pub on_first-Leaves :
      {A : Type 0} (i n : ℕ) (f : Level V → Option (Level V × A)) (s : Store V)
      → i < n
      → Keeps n s
      → ((c : Level V) → IsSound c → KeepsSound (f c))
      → Leaves n (on_first i f s)
  on_first-Leaves i n f s p h k =
      let v = h.valid in
      let g = k (s.first i) (v.first i) in
      record {
        value = (record s { first = update s.first i g.value.0 }, g.value.1);
        returns =
            on_first-returns i f s g.value.0 g.value.1 (subst (λ m. i < m) (sym h.count) p)
              g.returns;
        holds = record {
          valid = record {
            wide = v.wide;
            first = update-IsSound s.first i g.value.0 v.first g.holds;
            second = v.second;
          };
          count = h.count;
        };
      }

  pub on_second-Leaves :
      {A : Type 0} (i n : ℕ) (f : Level V → Option (Level V × A)) (s : Store V)
      → i < n
      → Keeps n s
      → ((c : Level V) → IsSound c → KeepsSound (f c))
      → Leaves n (on_second i f s)
  on_second-Leaves i n f s p h k =
      let v = h.valid in
      let g = k (s.second i) (v.second i) in
      record {
        value = (record s { second = update s.second i g.value.0 }, g.value.1);
        returns =
            on_second-returns i f s g.value.0 g.value.1 (subst (λ m. i < m) (sym h.count) p)
              g.returns;
        holds = record {
          valid = record {
            wide = v.wide;
            first = v.first;
            second = update-IsSound s.second i g.value.0 v.second g.holds;
          };
          count = h.count;
        };
      }

  -- The bucket of a key is there.
  pub bucket_lt : (key : Text) (n : ℕ) (s : Store V) → Keeps n s → bucket key s < n
  unfolding bucket
  bucket_lt key n s h =
      let w = h.valid.wide in let c = h.count in omega (arith, w, c, bit_and_le _ s.mask)
