-- ===== src/Orm/Session/Statements.antt =====
-- sonnet-orm/session/record.go: the statements that the calls of a session run.
use sonnet_pro.Prelude.{
  ℕ, List, [], ◌∷◌, ◌++◌, ◌≡◌, refl, arith, Option, Text, codes, length, length-append, All, map,
}
use sonnet_pro.Orm.Clause.{Kind, Args, insert_args, values_args, empty_clause, build}
use sonnet_pro.Orm.Clause.Bound.{
  marks, total_marks, marks-append, IsBound, HaveLength, IsProper, HasBoundParts, set-HasBoundParts,
  build-IsBound,
}
use sonnet_pro.Orm.Session.{
  Table, Session, clear, raw, statement, exec, set_clause, Op, insert_op, find_op, update_op,
  delete_op, count_op, set_inserts, build_raw, prepare, execute,
}

-- Table and field names without "?" marks.
abbrev pub IsPlain : Table → Type 0
IsPlain t = (marks t.name ≡ 0) × (total_marks t.field_names ≡ 0)

module _ {V : Type 0} where
  -- What the caller of an operation owes.
  abbrev pub IsProperOp : Op V → Type 0
  IsProperOp (insert_op records) =
      All (λ r. IsPlain r.0) records × ((n : ℕ) × HaveLength n (map (λ r. r.1) records))
  IsProperOp (find_op t) = IsPlain t
  IsProperOp (update_op t pairs) = (marks t.name ≡ 0) × All (λ p. marks p.0 ≡ 0) pairs
  IsProperOp (delete_op t) = marks t.name ≡ 0
  IsProperOp (count_op t) = marks t.name ≡ 0

  -- The text and the values so far agree, and so do the clauses that are set.
  pub record IsReady (s : Session V) : Type 0 where
    pub parts : HasBoundParts s.clause
    pub text : IsBound (statement s)

  pub set_clause-IsReady :
      (args : Args V) (s : Session V) → IsProper args → IsReady s → IsReady (set_clause args s)
  unfolding set_clause
  set_clause-IsReady args s p r = record {
    parts = set-HasBoundParts args s.clause p r.parts;
    text = r.text;
  }

  set_inserts-IsReady :
      (records : List (Table × List V)) (s : Session V)
      → All (λ r. IsPlain r.0) records
      → IsReady s
      → IsReady (set_inserts records s)
  unfolding set_inserts
  set_inserts-IsReady [] s p r = r
  set_inserts-IsReady ((t, row) ∷ records) s p r =
      let args = insert_args t.name t.field_names in
      set_inserts-IsReady records (set_clause args s) p.1 (set_clause-IsReady args s p.0 r)

  build_raw-IsReady : (kinds : List Kind) (s : Session V) → IsReady s → IsReady (build_raw kinds s)
  unfolding build_raw raw
  build_raw-IsReady kinds s r =
      let (sql, vars) = build kinds s.clause in
      let space : marks (codes " ") ≡ 0 = unfold marks in refl in
      record {
        parts = r.parts;
        text = omega (
          arith,
          r.text,
          build-IsBound kinds s.clause r.parts,
          space,
          marks-append s.sql (sql ++ codes " "),
          marks-append sql (codes " "),
          length-append s.sql_vars vars,
        );
      }

  prepare-IsReady : (op : Op V) (s : Session V) → IsProperOp op → IsReady s → IsReady (prepare op s)
  unfolding prepare
  prepare-IsReady (insert_op records) s p r = build_raw-IsReady _ _ (
      set_clause-IsReady (values_args (map (λ q. q.1) records)) _ p.1
        (set_inserts-IsReady records s p.0 r))
  prepare-IsReady (find_op t) s p r = build_raw-IsReady _ _ (set_clause-IsReady _ s p r)
  prepare-IsReady (update_op t pairs) s p r = build_raw-IsReady _ _ (set_clause-IsReady _ s p r)
  prepare-IsReady (delete_op t) s p r = build_raw-IsReady _ _ (set_clause-IsReady _ s p r)
  prepare-IsReady (count_op t) s p r = build_raw-IsReady _ _ (set_clause-IsReady _ s p r)

  -- An operation on a ready session, if the names that it is given have no "?" mark and the records of
  -- an insertion have as many values each, sends the database a statement with as many "?" marks as
  -- values, returns what the database returns for it, and leaves a session with no clause, text or
  -- value, on success and on error.
  pub execute-IsReady :
      {R : Type 0} (db : Text → List V → Option R) (op : Op V) (s : Session V)
      → IsProperOp op
      → IsReady s
      → (sql : Text) × (vars : List V) × (marks sql ≡ length vars)
        × (execute db op s
            ≡ (record { clause = empty_clause; sql = []; sql_vars = [] }, db sql vars))
  unfolding execute exec clear
  execute-IsReady db op s p r =
      let ready = prepare-IsReady op s p r in
      ((prepare op s).sql, (prepare op s).sql_vars, ready.text, refl)
