-- ===== src/Rpc/Balance/RoundRobin.antt =====
-- sonnet-rpc-v2/internal/load_balance/round_robin.go: the turns of the instances.
use native.Mathlib.Nat.{mod-lt, mod-eq_of_lt, mod-eq-sub-mod, mod-add-mod}
use sonnet_pro.Prelude.{
  ℕ, zero, suc, ◌+◌, ◌-◌, sym, ap, ◌∙◌, ◌⊎◌, inl, inr, dec_lt, ◌%◌, ◌^◌, ◌≤◌, ◌<◌, List, [], ◌∷◌,
  ◌≡◌, arith, length, get_elem?, some, get_elem?-some,
}
use sonnet_pro.Rpc.Balance.{Instance, chosen, at, select_rr}

-- The counter after `n` calls of `Select`.
pub turns : ℕ → ℕ → List Instance → ℕ
turns zero idx list = idx
turns (suc n) idx list = turns n (select_rr idx list).0 list

turns_eq : (n idx : ℕ) (list : List Instance) → idx + n < 2 ^ 64 → turns n idx list ≡ idx + n
unfolding turns select_rr
turns_eq zero idx list h = omega arith
turns_eq (suc n) idx [] h = omega (arith, turns_eq n ((idx + 1) % 2 ^ 64) [] (omega arith))
turns_eq (suc n) idx (x ∷ list) h =
    omega (arith, turns_eq n ((idx + 1) % 2 ^ 64) (x ∷ list) (omega arith))

mod_wrapped : (s n : ℕ) → n ≤ s → s < n + n → s % n ≡ s - n
mod_wrapped s n le lt = mod-eq-sub-mod le ∙ mod-eq_of_lt (omega arith)

-- Below twice the modulus, in one equation for each case.
mod_cases : (s n : ℕ) → s < n + n → ((s < n) × (s % n ≡ s)) ⊎ ((n ≤ s) × (s % n ≡ s - n))
mod_cases s n lt = elim (dec_lt s n) [
  | yes p ↦ inl (p, mod-eq_of_lt p)
  | no p ↦ inr (omega arith, mod_wrapped s n (omega arith) lt)
]

mod_injective : (a i j n : ℕ) → i < n → j < n → (a + i) % n ≡ (a + j) % n → i ≡ j
mod_injective a i j n hi hj e =
    let r = a % n in
    let small : r < n = mod-lt a (omega arith) in
    let e' : (r + i) % n ≡ (r + j) % n = mod-add-mod a n i ∙ e ∙ sym (mod-add-mod a n j) in
    omega (arith, mod_cases (r + i) n (omega arith), mod_cases (r + j) n (omega arith))

-- The index of the instance that the call after `n` others selects.
pub turn : ℕ → ℕ → List Instance → ℕ
turn n idx list = (idx + suc n) % length list

-- While the counter does not wrap around, call `n` of a row returns the instance at `turn n`, and
-- among as many calls in a row as there are instances no two return the same one.
pub select_rr-turn :
    (idx n : ℕ) (list : List Instance)
    → n < length list
    → idx + length list < 2 ^ 64
    → (x : Instance) × (get_elem? list (turn n idx list) ≡ some x)
      × ((select_rr (turns n idx list) list).1 ≡ chosen x)
      × ((m : ℕ) → m < length list → turn m idx list ≡ turn n idx list → m ≡ n)
unfolding turn select_rr
select_rr-turn idx n [] h fits = absurd (omega arith)
select_rr-turn idx n (x ∷ list) h fits =
    let size = length (x ∷ list) in
    let (y, at_turn) =
      get_elem?-some (x ∷ list) ((idx + suc n) % size) (mod-lt (idx + suc n) (omega arith)) in
    let count : (turns n idx (x ∷ list) + 1) % 2 ^ 64 ≡ idx + suc n =
      omega (arith, turns_eq n idx (x ∷ list) (omega arith)) in
    (
      y,
      at_turn,
      rw (count, at, at_turn),
      λ m lt e.
          mod_injective (suc idx) m n size lt h
            (ap (λ k. k % size) (omega arith) ∙ e ∙ ap (λ k. k % size) (omega arith)),
    )
