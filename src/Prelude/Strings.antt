-- ===== src/Prelude/Strings.antt =====
-- Go strings as their bytes, and what the sources take from `strings` and `strconv`.
use Prim.Native.Nat.{ℕ, zero, suc, ◌+◌, ◌/◌, ◌%◌}
use Prim.Native.Char.{code}
use Prim.Native.String.{String}
use mathlib.Core.Path.{◌≡◌, refl, ap₂}
use mathlib.Core.Logic.{◌≢◌, ite}
use mathlib.Core.Bool.{Bool, true, false}
use mathlib.Core.List.{List, [], ◌∷◌, ◌++◌}
use native.Mathlib.Decide.{ℕ_discrete}

abbrev pub Text : Type 0
Text = List ℕ

-- The bytes of an ASCII literal.
abbrev pub codes : String → Text
codes String.[] = []
codes (String.◌∷◌ c s) = code c ∷ codes s

-- `a == b` on strings.
unfoldable pub text_dec : Discrete Text
unfolding ℕ_discrete
text_dec [] [] = yes refl
text_dec [] (y ∷ ys) = no (λ e. cc)
text_dec (x ∷ xs) [] = no (λ e. cc)
text_dec (x ∷ xs) (y ∷ ys) = elim (ℕ_discrete x y) [
  | yes p ↦ elim (text_dec xs ys) [ yes q ↦ yes (ap₂ ◌∷◌ p q) | no q ↦ no (λ e. q (cc)) ]
  | no p ↦ no (λ e. p (cc))
]

-- `strings.HasPrefix(s, p)`.
unfoldable pub has_prefix : Text → Text → Bool
unfolding ℕ_discrete
has_prefix s [] = true
has_prefix [] (y ∷ p) = false
has_prefix (x ∷ s) (y ∷ p) = ite (ℕ_discrete x y) (has_prefix s p) false

-- `strings.Join(parts, sep)`.
unfoldable pub join : Text → List Text → Text
join sep [] = []
join sep (x ∷ []) = x
join sep (x ∷ y ∷ xs) = x ++ (sep ++ join sep (y ∷ xs))

-- `strings.Split(s, c)` for a separator of one byte: the parts before the current one are done,
-- and `cur` is the part read so far.
unfoldable pub split_from : ℕ → Text → Text → List Text
unfolding ℕ_discrete
split_from sep cur [] = cur ∷ []
split_from sep cur (x ∷ s) =
    let closed = split_from sep [] s in
    let longer = split_from sep (cur ++ x ∷ []) s in ite (ℕ_discrete x sep) (cur ∷ closed) longer

unfoldable pub split : Text → ℕ → List Text
unfolding split_from
split s sep = split_from sep [] s

-- `strconv.Itoa(n)` of a number that is not negative: the digits of `n` before `rest`. The fuel is
-- the number itself plus one, since each round makes it smaller.
unfoldable pub digits_from : ℕ → ℕ → Text → Text
digits_from zero n rest = rest
digits_from (suc f) n rest =
    let shown = (b'0' + n % 10) ∷ rest in
    let more = digits_from f (n / 10) shown in elim (n / 10) [ zero ↦ shown | suc _ ↦ more ]

unfoldable pub itoa : ℕ → Text
unfolding digits_from
itoa n = digits_from (suc n) n []

itoa_sample : itoa 120 ≡ codes "120"
unfolding itoa
itoa_sample = refl

split_sample : split (codes "/a//b") b'/' ≡ [] ∷ codes "a" ∷ [] ∷ codes "b" ∷ []
unfolding split
split_sample = refl

-- The parts that `split` makes hold no separator.
abbrev pub Lacks : ℕ → Text → Type 0
Lacks c [] = Unit
Lacks c (x ∷ s) = (x ≢ c) × Lacks c s

pub Lacks-append : (c : ℕ) (s t : Text) → Lacks c s → Lacks c t → Lacks c (s ++ t)
Lacks-append c [] t hs ht = ht
Lacks-append c (x ∷ s) t hs ht = (hs.0, Lacks-append c s t hs.1 ht)
