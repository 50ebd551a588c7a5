-- ===== src/Orm/Transaction/Laws.antt =====
-- sonnet-orm/sonnet_orm.go: what a transaction leaves behind, and what `difference` keeps.
use sonnet_pro.Prelude.Maps.{lookup, insert, lookup-insert}
use sonnet_pro.Prelude.{
  ◌≡◌, ◌⊎◌, ◌↔◌, refl, sym, subst, arith, inl, inr, List, [], ◌∷◌, Bool, true, false, ◌++◌, none,
  some, Option-cases, Text, text_dec,
}
use sonnet_pro.Orm.Transaction.{
  Request, begin_request, commit_request, Outcome, returned, failed, panicked, transaction, mark,
  unmarked, difference,
}

abbrev pub Has : List Text → Text → Type 0
Has [] v = ⊥
Has (w ∷ ws) v = (w ≡ v) ⊎ Has ws v

mark-Has :
    (b : List Text) (m : List (Text × Bool)) (v : Text)
    → lookup text_dec v (mark b m) ≡ none
    → (lookup text_dec v m ≡ none) × ¬ Has b v
unfolding mark
mark-Has [] m v e = (e, λ h. h)
mark-Has (w ∷ ws) m v e =
    let (out, no_more) = mark-Has ws (insert text_dec w true m) v e in
    let law = lookup-insert text_dec w v true m in
    elim (text_dec w v) [
      | yes p ↦ absurd (ground arith)
      | no p ↦ (ground arith, λ h. elim h [ inl q ↦ p q | inr r ↦ no_more r ])
    ]

Has-mark :
    (b : List Text) (m : List (Text × Bool)) (v : Text)
    → lookup text_dec v m ≡ none
    → ¬ Has b v
    → lookup text_dec v (mark b m) ≡ none
unfolding mark
Has-mark [] m v e h = e
Has-mark (w ∷ ws) m v e h =
    let law = lookup-insert text_dec w v true m in
    elim (text_dec w v) [
      | yes p ↦ absurd (h (inl p))
      | no p ↦ Has-mark ws (insert text_dec w true m) v (ground arith) (λ r. h (inr r))
    ]

unmarked_new :
    (m : List (Text × Bool)) (w : Text) (ws : List Text)
    → lookup text_dec w m ≡ none
    → unmarked m (w ∷ ws) ≡ w ∷ unmarked m ws
unfolding unmarked
unmarked_new m w ws e = ground (arith, e)

unmarked_known :
    (m : List (Text × Bool)) (w : Text) (ws : List Text) (b : Bool)
    → lookup text_dec w m ≡ some b
    → unmarked m (w ∷ ws) ≡ unmarked m ws
unfolding unmarked
unmarked_known m w ws b e = ground (arith, e)

unmarked-Has :
    (m : List (Text × Bool)) (a : List Text) (v : Text)
    → Has (unmarked m a) v ↔ (Has a v × (lookup text_dec v m ≡ none))
unfolding unmarked
unmarked-Has m [] v = ((λ h. absurd h), (λ h. absurd h.0))
unmarked-Has m (w ∷ ws) v =
    let (there, back) = unmarked-Has m ws v in
    let kind : List Text → Type 0 =
      λ xs. Has xs v ↔ (Has (w ∷ ws) v × (lookup text_dec v m ≡ none)) in
    elim (Option-cases (lookup text_dec w m)) [
      | inl e ↦ subst kind (sym (unmarked_new m w ws e)) (
        λ h. elim h [
          | inl p ↦ (inl p, subst (λ x. lookup text_dec x m ≡ none) p e)
          | inr r ↦ (inr (there r).0, (there r).1)
        ],
        λ h. elim h.0 [ inl p ↦ inl p | inr r ↦ inr (back (r, h.1)) ],
      )
      | inr (b, e) ↦ subst kind (sym (unmarked_known m w ws b e)) (
        λ r. (inr (there r).0, (there r).1),
        λ h. elim h.0 [
          | inl p ↦
              let other : lookup text_dec w m ≡ none =
                subst (λ x. lookup text_dec x m ≡ none) (sym p) h.1 in
              absurd (cc)
          | inr r ↦ back (r, h.1)
        ],
      )
    ]

-- `difference` of two lists has just the items of the first that the second has not.
pub difference-Has : (a b : List Text) (v : Text) → Has (difference a b) v ↔ (Has a v × ¬ Has b v)
unfolding difference lookup
difference-Has a b v =
    let (there, back) = unmarked-Has (mark b []) a v in
    (λ h. ((there h).0, (mark-Has b [] v (there h).1).1), λ h. back (h.0, Has-mark b [] v refl h.1))

-- `Transaction` returns a result without an error only if it has begun a transaction, the function
-- has returned that result, and the transaction was committed and nothing else asked after it.
pub transaction-returned :
    {R : Type 0} (begun committed : Bool) (inner : List Request) (out : Outcome R) (r : R)
    → (transaction begun committed (inner, out)).1 ≡ returned r
    → (begun ≡ true)
      × (committed ≡ true)
      × (out ≡ returned r)
      × ((transaction begun committed (inner, out)).0
          ≡ begin_request ∷ (inner ++ commit_request ∷ []))
unfolding transaction
transaction-returned false committed inner out r e = absurd (cc)
transaction-returned true true inner (returned x) r e = (refl, refl, e, refl)
transaction-returned true false inner (returned x) r e = absurd (cc)
transaction-returned true committed inner (failed x) r e = absurd (cc)
transaction-returned true committed inner panicked r e = absurd (cc)
