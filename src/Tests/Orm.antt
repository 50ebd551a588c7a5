-- ===== src/Tests/Orm.antt =====
-- sonnet-orm on small inputs.
use sonnet_pro.Orm.Transaction.{mark, unmarked, difference}
use sonnet_pro.Prelude.Maps.{lookup, insert}
use sonnet_pro.Prelude.{text_dec}
use sonnet_pro.Prelude.{ℕ, ◌≡◌, refl, List, [], ◌∷◌, Text, codes, Option, some, length, join}
use sonnet_pro.Orm.Clause.{
  where_, select, Args, where_args, values_args, limit_args, empty_clause, build, generate,
  gen_rows, bind_str, gen_bind_vars, separator,
}
use sonnet_pro.Orm.Clause.Bound.{
  marks, IsBound, empty_clause-HasBoundParts, set_all, build-set_all, generate-IsBound,
}
use sonnet_pro.Orm.Session.{Table, Session, update_op, execute}
use sonnet_pro.Orm.Session.Statements.{execute-IsReady}

abbrev seven : ℕ
seven = 7

abbrev two_rows : Args ℕ
two_rows = values_args ((1 ∷ 2 ∷ []) ∷ (3 ∷ 4 ∷ []) ∷ [])

generate_test : generate two_rows ≡ (codes "VALUES (?, ?), (?, ?)", 1 ∷ 2 ∷ 3 ∷ 4 ∷ [])
unfolding generate gen_rows bind_str gen_bind_vars separator join
generate_test = refl

generate-IsBound_example : IsBound (generate two_rows)
generate-IsBound_example = generate-IsBound two_rows (2, (refl, (refl, tt)))

abbrev older_than : Args ℕ
older_than = where_args (codes "Age > ?") (18 ∷ [])

build-set_all_example :
    IsBound
      (build (select ∷ where_ ∷ []) (set_all (older_than ∷ limit_args (1 ∷ []) ∷ []) empty_clause))
build-set_all_example =
    build-set_all (select ∷ where_ ∷ []) (older_than ∷ limit_args (1 ∷ []) ∷ [])
      (unfold marks in refl, (refl, tt))

abbrev users : Table
users = record { name = codes "User"; field_names = codes "Name" ∷ codes "Age" ∷ [] }

abbrev fresh : Session ℕ
fresh = record { clause = empty_clause; sql = []; sql_vars = [] }

abbrev accept : Text → List ℕ → Option ℕ
accept sql vars = some (length vars)

execute-IsReady_example :
    (sql : Text) × (vars : List ℕ) × (marks sql ≡ length vars)
    × (execute accept (update_op users ((codes "Age", 30) ∷ [])) fresh
        ≡ (record { clause = empty_clause; sql = []; sql_vars = [] }, accept sql vars))
execute-IsReady_example =
    execute-IsReady accept (update_op users ((codes "Age", 30) ∷ [])) fresh
      (unfold marks in refl, (unfold marks in refl, tt))
      (record { parts = empty_clause-HasBoundParts; text = unfold marks in refl })

two_columns : difference (codes "a" ∷ codes "b" ∷ []) (codes "b" ∷ []) ≡ codes "a" ∷ []
unfolding difference mark unmarked lookup insert text_dec
two_columns = refl
