-- ===== src/Orm/Transaction.antt =====
-- sonnet-orm/sonnet_orm.go and session/transaction.go: a function run in a transaction, and the
-- columns that a migration adds and drops. What the database answers to Begin, Commit and Rollback,
-- and what the function does, are parameters.
pub mod Laws
use sonnet_pro.Prelude.Maps.{lookup, insert}
use sonnet_pro.Prelude.{
  List, [], ◌∷◌, ◌++◌, Bool, true, false, Option, none, some, Text, text_dec, if◌then◌else◌,
}

-- What a database is asked to do.
pub data Request : Type 0 where
  begin_request commit_request rollback_request : Request

-- What a `TxFunc` or `Transaction` does: a result, an error with its result, or a panic.
pub data Outcome (R : Type 0) : Type 0 where
  returned : R → Outcome R
  failed : Option R → Outcome R
  panicked : Outcome R

-- `Transaction`: the requests in order, and its outcome. `f` is run only once `Begin` has
-- succeeded, and `f` names its outcome and the requests that it makes itself.
unfoldable pub transaction :
    {R : Type 0} → Bool → Bool → List Request × Outcome R → List Request × Outcome R
transaction false committed f = (begin_request ∷ [], failed none)
transaction true committed (inner, panicked) =
    (begin_request ∷ (inner ++ rollback_request ∷ []), panicked)
transaction true committed (inner, failed r) =
    (begin_request ∷ (inner ++ rollback_request ∷ []), failed r)
transaction true committed (inner, returned r) = (
  begin_request ∷ (inner ++ commit_request ∷ []),
  (if committed then returned r else failed (some r)),
)

-- The first loop of `difference`, which fills `mapB`.
unfoldable pub mark : List Text → List (Text × Bool) → List (Text × Bool)
mark [] m = m
mark (v ∷ vs) m = mark vs (insert text_dec v true m)

-- Its second loop.
unfoldable pub unmarked : List (Text × Bool) → List Text → List Text
unmarked m [] = []
unmarked m (v ∷ vs) =
    let rest = unmarked m vs in elim (lookup text_dec v m) [ some _ ↦ rest | none ↦ v ∷ rest ]

-- `difference`.
unfoldable pub difference : List Text → List Text → List Text
unfolding mark unmarked
difference a b = unmarked (mark b []) a
