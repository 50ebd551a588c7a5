-- ===== src/Rpc/Balance/Weighted.antt =====
-- sonnet-rpc-v2/internal/load_balance/weighted_rr.go: the current weights and the choice.
use mathlib.Core.List.{append-nil, append_assoc}
use sonnet_pro.Prelude.Int.{ℤ, pos, negsuc, pos_part, neg_part, ltb_ℤ, ◌+ℤ◌, ◌-ℤ◌, ◌≤ℤ◌, int_laws}
use sonnet_pro.Prelude.{
  length-append, ==_iff, ◌∙◌, Bool-cases, ℕ, zero, suc, ◌<◌, List, [], ◌∷◌, ◌++◌, ◌≡◌, ◌≢◌, refl,
  sym, ap, subst, arith, map, length, get_elem?, none, some, All, All-append, get_elem?-some,
  Option-cases, inl, inr,
}
use sonnet_pro.Rpc.Balance.{
  Instance, chosen, WeightedRr, Best, new_weighted, clamp, clamped_sum, better, scan, sub_at,
  finish, select_weighted,
}

unfoldable pub sum : List ℤ → ℤ
sum [] = pos 0
sum (c ∷ cs) = c +ℤ sum cs

scan-sum :
    (i : ℕ) (best : Best) (cs ws : List ℤ)
    → length cs ≡ length ws
    → sum (scan i best cs ws).0 ≡ sum cs +ℤ sum ws
unfolding scan sum
scan-sum i best [] [] h = omega int_laws
scan-sum i best [] (w ∷ ws) h = absurd (omega arith)
scan-sum i best (c ∷ cs) [] h = absurd (omega arith)
scan-sum i best (c ∷ cs) (w ∷ ws) h = omega (
  int_laws,
  ap pos_part (scan-sum (suc i) (better i (c +ℤ w) best) cs ws (omega arith)),
  ap neg_part (scan-sum (suc i) (better i (c +ℤ w) best) cs ws (omega arith)),
)

scan-length :
    (i : ℕ) (best : Best) (cs ws : List ℤ)
    → length cs ≡ length ws
    → length (scan i best cs ws).0 ≡ length cs
unfolding scan
scan-length i best [] [] h = refl
scan-length i best [] (w ∷ ws) h = absurd (omega arith)
scan-length i best (c ∷ cs) [] h = absurd (omega arith)
scan-length i best (c ∷ cs) (w ∷ ws) h =
    omega (arith, scan-length (suc i) (better i (c +ℤ w) best) cs ws (omega arith))

sub_at-sum : (i : ℕ) (t : ℤ) (cs : List ℤ) → i < length cs → sum (sub_at i t cs) ≡ sum cs -ℤ t
unfolding sub_at sum
sub_at-sum i t [] h = absurd (omega arith)
sub_at-sum zero t (c ∷ cs) h = omega int_laws
sub_at-sum (suc i) t (c ∷ cs) h = omega (
  int_laws,
  ap pos_part (sub_at-sum i t cs (omega arith)),
  ap neg_part (sub_at-sum i t cs (omega arith)),
)

sub_at-length : (i : ℕ) (t : ℤ) (cs : List ℤ) → length (sub_at i t cs) ≡ length cs
unfolding sub_at
sub_at-length i t [] = refl
sub_at-length zero t (c ∷ cs) = refl
sub_at-length (suc i) t (c ∷ cs) = ap suc (sub_at-length i t cs)

-- `best` is the index and the value of a largest weight.
abbrev pub IsBest : List ℤ → Best → Type 0
IsBest cs none = cs ≡ []
IsBest cs (some (i, m)) = (i < length cs) × (get_elem? cs i ≡ some m) × All (λ c. c ≤ℤ m) cs

get_elem?-snoc {ℓ} :
    {A : Type ℓ} (xs : List A) (x : A) → get_elem? (xs ++ x ∷ []) (length xs) ≡ some x
get_elem?-snoc [] x = refl
get_elem?-snoc (y ∷ xs) x = get_elem?-snoc xs x

get_elem?-snoc_keeps {ℓ} :
    {A : Type ℓ} (xs : List A) (x : A) (i : ℕ)
    → i < length xs
    → get_elem? (xs ++ x ∷ []) i ≡ get_elem? xs i
get_elem?-snoc_keeps [] x i h = absurd (omega arith)
get_elem?-snoc_keeps (y ∷ xs) x zero h = refl
get_elem?-snoc_keeps (y ∷ xs) x (suc i) h = get_elem?-snoc_keeps xs x i (omega arith)

All-le_mono : (cs : List ℤ) (m n : ℤ) → m ≤ℤ n → All (λ c. c ≤ℤ m) cs → All (λ c. c ≤ℤ n) cs
All-le_mono [] m n h a = tt
All-le_mono (c ∷ cs) m n h a = (omega (arith, a.0), All-le_mono cs m n h a.1)

IsBest-last :
    (cs : List ℤ) (c : ℤ) → All (λ d. d ≤ℤ c) cs → IsBest (cs ++ c ∷ []) (some (length cs, c))
IsBest-last cs c h = (
  omega (arith, length-append cs (c ∷ [])),
  get_elem?-snoc cs c,
  All-append (λ d. d ≤ℤ c) cs (c ∷ []) h (omega arith, tt),
)

IsBest-kept :
    (cs : List ℤ) (c m : ℤ) (j : ℕ)
    → c ≤ℤ m
    → IsBest cs (some (j, m))
    → IsBest (cs ++ c ∷ []) (some (j, m))
IsBest-kept cs c m j le h = (
  omega (arith, h.0, length-append cs (c ∷ [])),
  get_elem?-snoc_keeps cs c j h.0 ∙ h.1,
  All-append (λ d. d ≤ℤ m) cs (c ∷ []) h.2 (le, tt),
)

better-IsBest :
    (cs : List ℤ) (c : ℤ) (best : Best)
    → IsBest cs best
    → IsBest (cs ++ c ∷ []) (better (length cs) c best)
unfolding better
better-IsBest cs c none h = IsBest-last cs c (subst (λ l. All (λ d. d ≤ℤ c) l) (sym h) tt)
better-IsBest cs c (some (j, m)) h = elim (Bool-cases (ltb_ℤ m c)) [
  | inl e ↦ rw e (IsBest-last cs c (All-le_mono cs m c (ground arith) h.2))
  | inr e ↦ rw e (IsBest-kept cs c m j (ground arith) h)
]

-- The loop finds a largest of the weights that it leaves.
scan-IsBest :
    (front : List ℤ) (best : Best) (cs ws : List ℤ)
    → length cs ≡ length ws
    → IsBest front best
    → IsBest (front ++ (scan (length front) best cs ws).0) (scan (length front) best cs ws).1
unfolding scan
scan-IsBest front best [] [] h b = subst (λ l. IsBest l best) (sym (append-nil front)) b
scan-IsBest front best [] (w ∷ ws) h b = absurd (omega arith)
scan-IsBest front best (c ∷ cs) [] h b = absurd (omega arith)
scan-IsBest front best (c ∷ cs) (w ∷ ws) h b =
    let front' = front ++ (c +ℤ w) ∷ [] in
    let best' = better (length front) (c +ℤ w) best in
    let longer : length front' ≡ suc (length front) =
      omega (arith, length-append front ((c +ℤ w) ∷ [])) in
    let rest = scan-IsBest front' best' cs ws (omega arith) (better-IsBest front (c +ℤ w) best b) in
    let moved =
      subst (λ n. IsBest (front' ++ (scan n best' cs ws).0) (scan n best' cs ws).1) longer rest in
    subst (λ l. IsBest l (scan (suc (length front)) best' cs ws).1)
      (append_assoc front ((c +ℤ w) ∷ []) (scan (suc (length front)) best' cs ws).0) moved

-- The lists agree in length, the total is the sum of the weights and the current weights cancel out.
pub record IsValid (w : WeightedRr) : Type 0 where
  pub sizes : length w.current ≡ length w.weights
  pub totals : w.total ≡ sum w.weights
  pub balance : sum w.current ≡ pos 0

-- Each current weight, raised by the weight at its index.
abbrev pub raise : List ℤ → List ℤ → List ℤ
raise (c ∷ cs) (w ∷ ws) = (c +ℤ w) ∷ raise cs ws
raise cs ws = cs

scan-raise : (i : ℕ) (best : Best) (cs ws : List ℤ) → (scan i best cs ws).0 ≡ raise cs ws
unfolding scan
scan-raise i best [] ws = refl
scan-raise i best (c ∷ cs) [] = refl
scan-raise i best (c ∷ cs) (w ∷ ws) =
    ap (λ l. (c +ℤ w) ∷ l) (scan-raise (suc i) (better i (c +ℤ w) best) cs ws)

-- What a call does: it selects the instance at an index where the current weight, raised by the weight
-- of that index, is a largest one, and lowers that weight by the total.
pub record Picks (w : WeightedRr) (list : List Instance) : Type 0 where
  pub index : ℕ
  pub raised : List ℤ
  pub weight : ℤ
  pub picked : Instance
  pub in_list : get_elem? list index ≡ some picked
  pub largest : IsBest raised (some (index, weight))
  pub shares : raised ≡ raise w.current w.weights
  pub same_size : length raised ≡ length w.current
  pub gains : sum raised ≡ sum w.current +ℤ sum w.weights
  pub result :
      select_weighted w list ≡ (record w { current = sub_at index w.total raised }, chosen picked)

finish-some :
    (w : WeightedRr) (list : List Instance) (r : List ℤ × Best) (i : ℕ) (m : ℤ) (x : Instance)
    → r.1 ≡ some (i, m)
    → get_elem? list i ≡ some x
    → finish w list r ≡ (record w { current = sub_at i w.total r.0 }, chosen x)
unfolding finish
finish-some w list (cs, none) i m x e at_i = absurd (cc)
finish-some w list (cs, some (j, n)) i m x e at_i = ground arith

select_weighted-Picks :
    (w : WeightedRr) (list : List Instance)
    → length w.current ≡ length w.weights
    → length list ≡ length w.weights
    → list ≢ []
    → Picks w list
unfolding select_weighted
select_weighted-Picks w [] sizes same ne = absurd (ne refl)
select_weighted-Picks w (x ∷ list) sizes same ne =
    let r : List ℤ × Best = scan 0 none w.current w.weights in
    let best : IsBest r.0 r.1 = scan-IsBest [] none w.current w.weights sizes refl in
    let size : length r.0 ≡ length w.current = scan-length 0 none w.current w.weights sizes in
    elim (Option-cases r.1) [
      | inl e ↦ absurd (
          let empty : r.0 ≡ [] = subst (IsBest r.0) e best in
          let none_left : length r.0 ≡ 0 = ap length empty in omega arith)
      | inr ((i, m), e) ↦
          let found : IsBest r.0 (some (i, m)) = subst (IsBest r.0) e best in
          let (y, in_list) = get_elem?-some (x ∷ list) i (omega (arith, found.0)) in
          record {
            index = i;
            raised = r.0;
            weight = m;
            picked = y;
            in_list = in_list;
            largest = found;
            shares = scan-raise 0 none w.current w.weights;
            same_size = size;
            gains = scan-sum 0 none w.current w.weights sizes;
            result =
                rw ((==_iff (length (x ∷ list)) (length w.weights)).1 same, select_weighted)
                  (finish-some w (x ∷ list) r i m y e in_list);
          }
    ]

balanced :
    (raised total weights current : ℤ)
    → raised ≡ current +ℤ weights
    → total ≡ weights
    → current ≡ pos 0
    → raised -ℤ total ≡ pos 0
balanced raised total weights current g t b = rw (g, t, b) (omega int_laws)

-- On a valid balancer over as many instances as weights, of which there are some, a call raises the
-- current weight at each index by the weight of that index, selects the instance at an index where the
-- raised weight is a largest one and lowers it by the total. The balancer stays valid: its current weights still cancel out.
pub select_weighted-IsValid :
    (w : WeightedRr) (list : List Instance)
    → IsValid w
    → length list ≡ length w.weights
    → list ≢ []
    → Picks w list × IsValid (select_weighted w list).0
select_weighted-IsValid w list v same ne =
    let p = select_weighted-Picks w list v.sizes same ne in
    let lowered = sub_at-sum p.index w.total p.raised p.largest.0 in
    (
      p,
      rw p.result (record {
        sizes = sub_at-length p.index w.total p.raised ∙ p.same_size ∙ v.sizes;
        totals = v.totals;
        balance =
            lowered
            ∙ balanced (sum p.raised) w.total (sum w.weights) (sum w.current) p.gains v.totals
                v.balance;
      }),
    )

clamp_of_pos : (w : ℤ) → pos 0 ≤ℤ w → clamp w ≡ w
unfolding clamp
clamp_of_pos (pos n) h = refl
clamp_of_pos (negsuc n) h = absurd (omega arith)

clamped_sum-sum :
    (total : ℤ) (ws : List ℤ) → All (λ w. pos 0 ≤ℤ w) ws → clamped_sum total ws ≡ total +ℤ sum ws
unfolding clamped_sum sum
clamped_sum-sum total [] h = omega int_laws
clamped_sum-sum total (w ∷ ws) h =
    rw (clamp_of_pos w h.0) (clamped_sum-sum (total +ℤ w) ws h.1 ∙ omega int_laws)

length-zeros : (ws : List ℤ) → length (map (λ _. pos 0) ws) ≡ length ws
length-zeros [] = refl
length-zeros (w ∷ ws) = ap suc (length-zeros ws)

sum-zeros : (ws : List ℤ) → sum (map (λ _. pos 0) ws) ≡ pos 0
unfolding sum ◌+ℤ◌
sum-zeros [] = refl
sum-zeros (w ∷ ws) = rw (sum-zeros ws)

-- The constructor makes a valid balancer of weights that are not negative.
pub new_weighted-IsValid : (ws : List ℤ) → All (λ w. pos 0 ≤ℤ w) ws → IsValid (new_weighted ws)
unfolding new_weighted
new_weighted-IsValid ws h = record {
  sizes = length-zeros ws;
  totals = clamped_sum-sum (pos 0) ws h ∙ omega int_laws;
  balance = sum-zeros ws;
}
