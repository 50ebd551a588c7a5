-- ===== src/Orm/Session.antt =====
-- sonnet-orm/session: raw.go and record.go. A session collects clauses, makes a statement of them,
-- runs it and clears itself. The hooks of a model and the reading of rows are the application's and
-- database/sql's; `db` is the database: what it returns for a statement, `none` for an error.
pub mod Statements
use sonnet_pro.Prelude.{ℕ, List, [], ◌∷◌, ◌++◌, Option, Text, codes, map}
use sonnet_pro.Orm.Clause.{
  Kind, insert_into, values, select, limit, where_, order_by, update, delete, count, Args,
  insert_args, values_args, select_args, limit_args, where_args, order_args, update_args,
  delete_args, count_args, Clause, empty_clause, set, build,
}

-- What a session uses of a `schema.Schema`: `Name` and `FieldNames`.
pub record Table : Type 0 where
  pub name : Text
  pub field_names : List Text

pub record Session (V : Type 0) : Type 0 where
  pub clause : Clause V
  pub sql : Text
  pub sql_vars : List V

-- The calls that make a statement. A record to insert comes with the table of its own type and
-- its field values.
pub data Op (V : Type 0) : Type 0 where
  insert_op : List (Table × List V) → Op V
  find_op : Table → Op V
  update_op : Table → List (Text × V) → Op V
  delete_op : Table → Op V
  count_op : Table → Op V

module _ {V : Type 0} where
  -- `Clear`.
  unfoldable pub clear : Session V → Session V
  clear s = record { clause = empty_clause; sql = []; sql_vars = [] }

  -- `Raw`.
  unfoldable pub raw : Text × List V → Session V → Session V
  raw (sql, vals) s = record s { sql = s.sql ++ (sql ++ codes " "); sql_vars = s.sql_vars ++ vals }

  abbrev pub statement : Session V → Text × List V
  statement s = (s.sql, s.sql_vars)

  -- `Exec`, `QueryRow` and `QueryRows`: the session is cleared whatever the database returns.
  unfoldable pub exec : {R : Type 0} → (Text → List V → Option R) → Session V → Session V × Option R
  exec db s = (clear s, db s.sql s.sql_vars)

  unfoldable pub set_clause : Args V → Session V → Session V
  set_clause args s = record s { clause = set args s.clause }

  -- `Where`, `OrderBy` and `Limit`.
  unfoldable pub where_clause : Text → List V → Session V → Session V
  where_clause desc vars s = set_clause (where_args desc vars) s

  unfoldable pub order_clause : Text → Session V → Session V
  order_clause desc s = set_clause (order_args desc) s

  unfoldable pub limit_clause : V → Session V → Session V
  limit_clause num s = set_clause (limit_args (num ∷ [])) s

  -- The loop of `Insert`: each record sets the INSERT clause again.
  unfoldable pub set_inserts : List (Table × List V) → Session V → Session V
  set_inserts [] s = s
  set_inserts ((t, row) ∷ records) s =
      set_inserts records (set_clause (insert_args t.name t.field_names) s)

  unfoldable pub build_raw : List Kind → Session V → Session V
  build_raw kinds s = raw (build kinds s.clause) s

  -- `Insert`, `Find`, `Update`, `Delete` and `Count`, up to their `Exec` or query.
  unfoldable pub prepare : Op V → Session V → Session V
  prepare (insert_op records) s =
      build_raw (insert_into ∷ values ∷ [])
        (set_clause (values_args (map (λ r. r.1) records)) (set_inserts records s))
  prepare (find_op t) s =
      build_raw (select ∷ where_ ∷ order_by ∷ limit ∷ [])
        (set_clause (select_args t.name t.field_names) s)
  prepare (update_op t pairs) s =
      build_raw (update ∷ where_ ∷ []) (set_clause (update_args t.name pairs) s)
  prepare (delete_op t) s = build_raw (delete ∷ where_ ∷ []) (set_clause (delete_args t.name) s)
  prepare (count_op t) s = build_raw (count ∷ where_ ∷ []) (set_clause (count_args t.name) s)

  unfoldable pub execute :
      {R : Type 0} → (Text → List V → Option R) → Op V → Session V → Session V × Option R
  execute db op s = exec db (prepare op s)
