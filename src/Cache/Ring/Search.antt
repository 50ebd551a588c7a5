-- ===== src/Cache/Ring/Search.antt =====
-- sort.Search, as consistent_hash.go uses it: the binary search finds the first index that passes.
use sonnet_pro.Prelude.{
  ℕ, zero, suc, ◌+◌, ◌-◌, ◌/◌, ◌≤◌, ◌<◌, ◌≡◌, arith, Bool, true, false, ltb, Bool-cases, inl, inr,
}
use sonnet_pro.Cache.Ring.{sort_search}

-- `r` is the first index below `n` that passes, or `n`.
pub record IsFirst (n : ℕ) (f : ℕ → Bool) (r : ℕ) : Type 0 where
  pub within : r ≤ n
  pub before : (k : ℕ) → k < r → f k ≡ false
  pub from : (k : ℕ) → r ≤ k → k < n → f k ≡ true

module _ (n : ℕ) (f : ℕ → Bool) (mono : (a b : ℕ) → a ≤ b → b < n → f a ≡ true → f b ≡ true) where
  below : (k h : ℕ) → k ≤ h → h < n → f h ≡ false → f k ≡ false
  below k h le lt miss = elim (Bool-cases (f k)) [
    | inl pass ↦ let hit = mono k h le lt pass in cc
    | inr e ↦ e
  ]

  -- The search ends with enough fuel at the first index that passes, if the test is monotone.
  pub sort_search-IsFirst :
      (fuel i j : ℕ)
      → i ≤ j
      → j ≤ n
      → j - i ≤ fuel
      → ((k : ℕ) → k < i → f k ≡ false)
      → ((k : ℕ) → j ≤ k → k < n → f k ≡ true)
      → IsFirst n f (sort_search fuel f i j)
  unfolding sort_search
  sort_search-IsFirst zero i j le top fits low high = record {
    within = omega arith;
    before = low;
    from = λ k h l. high k (omega arith) l;
  }
  sort_search-IsFirst (suc fuel) i j le top fits low high = elim (Bool-cases (ltb i j)) [
    | inr done ↦
        rw done
          (record { within = omega arith; before = low; from = λ k h l. high k (ground arith) l })
    | inl more ↦
        let h = (i + j) / 2 in
        let lt : i < j = ground arith in
        elim (Bool-cases (f h)) [
          | inl pass ↦
              rw (more, pass)
                (sort_search-IsFirst fuel i h (omega arith) (omega arith) (omega arith) low
                  (λ k a b. mono h k a b pass))
          | inr miss ↦
              rw (more, miss)
                (sort_search-IsFirst fuel (suc h) j (omega arith) top (omega arith)
                  (λ k a. below k h (omega arith) (omega arith) miss) high)
        ]
  ]
