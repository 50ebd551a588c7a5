-- ===== src/Rpc/Balance.antt =====
-- sonnet-rpc-v2/internal/load_balance: round robin, weighted round robin and random choice. An
-- `int` weight is an integer that stays far from the 64-bit bounds. A zero `registry.Instance` is
-- the result `zero_instance`, and a run-time panic is `panic`.
pub mod RoundRobin
pub mod Weighted
use sonnet_pro.Prelude.Int.{ℤ, pos, negsuc, ◌+ℤ◌, ◌-ℤ◌, ltb_ℤ}
use sonnet_pro.Prelude.{
  ℕ, suc, ◌+◌, ◌%◌, ◌^◌, List, [], ◌∷◌, Bool, Option, none, some, map, length, get_elem?, ◌==◌,
  if◌then◌else◌, Text,
}

-- `registry.Instance`.
pub record Instance : Type 0 where
  pub addr : Text

pub data Selected : Type 0 where
  zero_instance panic : Selected
  chosen : Instance → Selected

unfoldable pub at : List Instance → ℕ → Selected
at list i = elim (get_elem? list i) [ none ↦ panic | some x ↦ chosen x ]

-- `RoundRobin.Select`: the counter after the call, and the result. With no instance the remainder
-- is a division by zero.
unfoldable pub select_rr : ℕ → List Instance → ℕ × Selected
unfolding at
select_rr idx [] = ((idx + 1) % 2 ^ 64, panic)
select_rr idx (x ∷ list) = let i = (idx + 1) % 2 ^ 64 in (i, at (x ∷ list) (i % length (x ∷ list)))

-- `Random.Select`; `intn` is the generator's `Intn`.
unfoldable pub select_random : (ℕ → ℕ) → List Instance → Selected
unfolding at
select_random intn [] = zero_instance
select_random intn (x ∷ list) = at (x ∷ list) (intn (length (x ∷ list)))

pub record WeightedRr : Type 0 where
  pub weights : List ℤ
  pub current : List ℤ
  pub total : ℤ

-- The sum of `NewWeightedRR`, which counts a negative weight as 0.
unfoldable pub clamp : ℤ → ℤ
clamp (pos n) = pos n
clamp (negsuc n) = pos 0

unfoldable pub clamped_sum : ℤ → List ℤ → ℤ
unfolding clamp ◌+ℤ◌
clamped_sum total [] = total
clamped_sum total (w ∷ ws) = clamped_sum (total +ℤ clamp w) ws

-- `NewWeightedRR`.
unfoldable pub new_weighted : List ℤ → WeightedRr
unfolding clamped_sum
new_weighted weights = record {
  weights = weights;
  current = map (λ _. pos 0) weights;
  total = clamped_sum (pos 0) weights;
}

-- `maxIdx`, with the current weight at it: `none` is -1.
abbrev pub Best : Type 0
Best = Option (ℕ × ℤ)

unfoldable pub better : ℕ → ℤ → Best → Best
better i c none = some (i, c)
better i c (some (j, m)) = if ltb_ℤ m c then some (i, c) else some (j, m)

-- The loop of `Select` from `i` on: the new current weights, and `maxIdx`.
unfoldable pub scan : ℕ → Best → List ℤ → List ℤ → List ℤ × Best
unfolding better ◌+ℤ◌
scan i best (c ∷ cs) (w ∷ ws) =
    let (cs', best') = scan (suc i) (better i (c +ℤ w) best) cs ws in ((c +ℤ w) ∷ cs', best')
scan i best cs ws = (cs, best)

-- `w.currentWeight[i] -= total`.
unfoldable pub sub_at : ℕ → ℤ → List ℤ → List ℤ
unfolding ◌-ℤ◌
sub_at i total [] = []
sub_at ℕ.zero total (c ∷ cs) = (c -ℤ total) ∷ cs
sub_at (suc i) total (c ∷ cs) = c ∷ sub_at i total cs

unfoldable pub finish : WeightedRr → List Instance → List ℤ × Best → WeightedRr × Selected
unfolding sub_at at
finish w list (cs, none) = (record w { current = cs }, panic)
finish w list (cs, some (i, m)) = (record w { current = sub_at i w.total cs }, at list i)

-- `WeightedRR.Select`.
unfoldable pub select_weighted : WeightedRr → List Instance → WeightedRr × Selected
unfolding scan finish
select_weighted w [] = (w, zero_instance)
select_weighted w (x ∷ list) =
    if length (x ∷ list) == length w.weights
    then finish w (x ∷ list) (scan 0 none w.current w.weights)
    else (w, zero_instance)
