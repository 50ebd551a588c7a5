-- ===== src/Orm/Clause.antt =====
-- sonnet-orm/clause: the generators and the clauses of a statement. `V` is the type of the values
-- that are bound to a statement. The untyped arguments of `Set` are one constructor of `Args` for
-- each generator, so its type assertions cannot fail.
pub mod Bound
use sonnet_pro.Prelude.Maps.{lookup, insert}
use sonnet_pro.Prelude.{
  ℕ, zero, suc, List, [], ◌∷◌, ◌++◌, Option, none, some, map, ite, Text, codes, text_dec, join,
  length, replicate,
}

-- `Type`.
pub data Kind : Type 0 where
  insert_into values select limit where_ order_by update delete count : Kind

unfoldable pub kind_dec : Discrete Kind
kind_dec = hlevel

pub data Args (V : Type 0) : Type 0 where
  insert_args : (table : Text) (fields : List Text) → Args V
  values_args : (rows : List (List V)) → Args V
  select_args : (table : Text) (fields : List Text) → Args V
  limit_args : (nums : List V) → Args V
  where_args : (desc : Text) (vars : List V) → Args V
  order_args : (desc : Text) → Args V
  update_args : (table : Text) (pairs : List (Text × V)) → Args V
  delete_args : (table : Text) → Args V
  count_args : (table : Text) → Args V

abbrev pub kind_of : {V : Type 0} → Args V → Kind
kind_of (insert_args table fields) = insert_into
kind_of (values_args rows) = values
kind_of (select_args table fields) = select
kind_of (limit_args nums) = limit
kind_of (where_args desc vars) = where_
kind_of (order_args desc) = order_by
kind_of (update_args table pairs) = update
kind_of (delete_args table) = delete
kind_of (count_args table) = count

-- `genBindVars`.
unfoldable pub gen_bind_vars : ℕ → Text
gen_bind_vars num = join (codes ", ") (replicate num (codes "?"))

-- `_select`.
unfoldable pub gen_select : Text → List Text → Text
gen_select table fields = codes "SELECT " ++ (join (codes ",") fields ++ (codes " FROM " ++ table))

-- `bindStr`, which is set by the first row that leaves it non-empty.
unfoldable pub bind_str : {V : Type 0} → Text → List V → Text
bind_str [] row = gen_bind_vars (length row)
bind_str (c ∷ bind) row = c ∷ bind

-- The comma behind a row that is not the last.
unfoldable pub separator : {A : Type 0} → List A → Text
separator [] = []
separator (_ ∷ _) = codes ", "

-- The loop of `_values`.
unfoldable pub gen_rows : {V : Type 0} → Text → List (List V) → Text × List V
gen_rows bind [] = ([], [])
gen_rows bind (row ∷ rows) =
    let bind' = bind_str bind row in
    let (sql, vars) = gen_rows bind' rows in
    (codes "(" ++ (bind' ++ (codes ")" ++ (separator rows ++ sql))), row ++ vars)

unfoldable pub assignments : {V : Type 0} → List (Text × V) → List Text
assignments [] = []
assignments ((k, v) ∷ pairs) = (k ++ codes " = ?") ∷ assignments pairs

-- The generators. `pairs` is the map of `_update` in the order in which its loop meets the keys.
unfoldable pub generate : {V : Type 0} → Args V → Text × List V
generate (insert_args table fields) =
    (codes "INSERT INTO " ++ (table ++ (codes " (" ++ (join (codes ",") fields ++ codes ")"))), [])
generate (values_args rows) = let (sql, vars) = gen_rows [] rows in (codes "VALUES " ++ sql, vars)
generate (select_args table fields) = (gen_select table fields, [])
generate (limit_args nums) = (codes "LIMIT ?", nums)
generate (where_args desc vars) = (codes "WHERE " ++ desc, vars)
generate (order_args desc) = (codes "ORDER BY " ++ desc, [])
generate (update_args table pairs) = (
  codes "UPDATE " ++ (table ++ (codes " SET " ++ join (codes ", ") (assignments pairs))),
  map (λ p. p.1) pairs,
)
generate (delete_args table) = (codes "DELETE FROM " ++ table, [])
generate (count_args table) = (gen_select table (codes "count(*)" ∷ []), [])

-- `Clause`: the two maps of the source have the same keys, and are one map here.
pub record Clause (V : Type 0) : Type 0 where
  pub parts : List (Kind × (Text × List V))

unfoldable pub empty_clause : {V : Type 0} → Clause V
empty_clause = record { parts = [] }

-- `Set`.
unfoldable pub set : {V : Type 0} → Args V → Clause V → Clause V
set args c = record { parts = insert kind_dec (kind_of args) (generate args) c.parts }

-- The loop of `Build`: the parts that are set, in the given order, and their values.
unfoldable pub collect : {V : Type 0} → List Kind → Clause V → List Text × List V
collect [] c = ([], [])
collect (kind ∷ kinds) c =
    let (sqls, vars) = collect kinds c in
    elim (lookup kind_dec kind c.parts) [
      | none ↦ (sqls, vars)
      | some (sql, mine) ↦ (sql ∷ sqls, mine ++ vars)
    ]

-- `Build`.
unfoldable pub build : {V : Type 0} → List Kind → Clause V → Text × List V
build kinds c = let (sqls, vars) = collect kinds c in (join (codes " ") sqls, vars)
