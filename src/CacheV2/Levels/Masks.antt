-- ===== src/CacheV2/Levels/Masks.antt =====
-- The mask of a bucket index, in sonnet-cache-v2/store/lru2.go: a bitwise and is at most its mask, and
-- the mask of at most 32768 buckets is below 2^15.
use Prim.Native.Nat.{bit_and, bit_and-bitwise, bit_or, bit_or-bitwise, digits, min, max}
use sonnet_pro.Prelude.{
  ℕ, zero, suc, ◌≤◌, ◌<◌, ◌-◌, ◌/◌, ◌^◌, subst, sym, ◌≡◌, refl, arith, Bool, true, false, ltb, ◌&&◌,
  ◌==◌, if◌then◌else◌, ℕ_discrete,
}
use sonnet_pro.CacheV2.Levels.{mask_of_next_pow_of_2}

digits_le : (fuel a b : ℕ) → digits (λ y. zero) min fuel a b ≤ b
digits_le zero a b = omega arith
digits_le (suc fuel) zero b = omega arith
digits_le (suc fuel) (suc a) b = omega (arith, digits_le fuel (suc a / 2) (b / 2))

pub bit_and_le : (a b : ℕ) → bit_and a b ≤ b
bit_and_le a b =
    let e : bit_and a b ≡ digits (λ y. zero) min a a b = bit_and-bitwise a b in
    subst (λ x. x ≤ b) (sym e) (digits_le a a b)

digits_lt : (k fuel a b : ℕ) → a < 2 ^ k → b < 2 ^ k → digits (λ y. y) max fuel a b < 2 ^ k
digits_lt k zero a b p q = q
digits_lt k (suc fuel) zero b p q = q
digits_lt zero (suc fuel) (suc a) b p q = absurd (omega (arith, p))
digits_lt (suc k) (suc fuel) (suc a) b p q =
    let rest = digits_lt k fuel (suc a / 2) (b / 2) (omega (arith, p)) (omega (arith, q)) in
    omega (arith, rest)

bit_or_lt : (k a b : ℕ) → a < 2 ^ k → b < 2 ^ k → bit_or a b < 2 ^ k
bit_or_lt k a b p q =
    let e : bit_or a b ≡ digits (λ y. y) max a a b = bit_or-bitwise a b in
    subst (λ x. x < 2 ^ k) (sym e) (digits_lt k a a b p q)

either_lt : (b : Bool) (x y n : ℕ) → x < n → y < n → (if b then x else y) < n
either_lt true x y n p q = p
either_lt false x y n p q = q

mask_lt : (count : ℕ) → count < 2 ^ 15 → mask_of_next_pow_of_2 count < 2 ^ 15
unfolding mask_of_next_pow_of_2
mask_lt count p =
    let cap_1 = bit_or count (count / 2) in
    let cap_2 = bit_or cap_1 (cap_1 / 4) in
    let cap_4 = bit_or cap_2 (cap_2 / 16) in
    let p_1 = bit_or_lt 15 count (count / 2) p (omega (arith, p)) in
    let p_2 = bit_or_lt 15 cap_1 (cap_1 / 4) p_1 (omega (arith, p_1)) in
    let p_4 = bit_or_lt 15 cap_2 (cap_2 / 16) p_2 (omega (arith, p_2)) in
    let p_8 = bit_or_lt 15 cap_4 (cap_4 / 256) p_4 (omega (arith, p_4)) in
    either_lt (ltb 0 count && (bit_and count (count - 1) == 0)) (count - 1)
      (bit_or cap_4 (cap_4 / 256)) (2 ^ 15) (omega (arith, p)) p_8

mask_top : mask_of_next_pow_of_2 (2 ^ 15) ≡ 2 ^ 15 - 1
unfolding mask_of_next_pow_of_2
mask_top = refl

pub mask_fits : (count : ℕ) → count ≤ 2 ^ 15 → suc (mask_of_next_pow_of_2 count) < 2 ^ 16
mask_fits count p = elim (ℕ_discrete count (2 ^ 15)) [
  | yes e ↦
      let same : mask_of_next_pow_of_2 count ≡ 2 ^ 15 - 1 =
        subst (λ n. mask_of_next_pow_of_2 n ≡ 2 ^ 15 - 1) (sym e) mask_top in
      omega (arith, same)
  | no n ↦ let below = mask_lt count (omega (arith, p, n)) in omega (arith, below)
]
