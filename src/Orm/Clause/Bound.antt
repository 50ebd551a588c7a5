-- ===== src/Orm/Clause/Bound.antt =====
-- sonnet-orm/clause: a statement has as many "?" marks as values are bound to it.
use sonnet_pro.Prelude.Maps.{lookup, lookup-insert}
use sonnet_pro.Prelude.{
  ℕ, zero, suc, ◌+◌, List, [], ◌∷◌, ◌++◌, ◌≡◌, ◌⊎◌, refl, sym, ◌∙◌, subst, arith, some, map, Text,
  codes, join, length, replicate, length-append, All, Option-cases, inl, inr, ◌==◌, if◌then◌else◌,
}
use sonnet_pro.Orm.Clause.{
  Kind, kind_dec, Args, insert_args, values_args, select_args, limit_args, where_args, order_args,
  update_args, delete_args, count_args, kind_of, gen_bind_vars, gen_select, bind_str, separator,
  gen_rows, assignments, generate, Clause, empty_clause, set, collect, build,
}

-- The number of "?" marks.
unfoldable pub marks : Text → ℕ
marks [] = 0
marks (c ∷ s) = let rest = marks s in if c == b'?' then suc rest else rest

pub marks-append : (s t : Text) → marks (s ++ t) ≡ marks s + marks t
unfolding marks
marks-append [] t = omega arith
marks-append (c ∷ s) t = ground (arith, marks-append s t)

abbrev pub total_marks : List Text → ℕ
total_marks [] = 0
total_marks (s ∷ ss) = marks s + total_marks ss

marks-join : (sep : Text) (ss : List Text) → marks sep ≡ 0 → marks (join sep ss) ≡ total_marks ss
unfolding join
marks-join sep [] h = unfold marks in refl
marks-join sep (s ∷ []) h = omega arith
marks-join sep (s ∷ t ∷ ss) h = omega (
  arith,
  marks-append s (sep ++ join sep (t ∷ ss)),
  marks-append sep (join sep (t ∷ ss)),
  marks-join sep (t ∷ ss) h,
)

total_marks-questions : (n : ℕ) → total_marks (replicate n (codes "?")) ≡ n
unfolding marks
total_marks-questions zero = refl
total_marks-questions (suc n) = omega (arith, total_marks-questions n)

marks-gen_bind_vars : (n : ℕ) → marks (gen_bind_vars n) ≡ n
unfolding gen_bind_vars
marks-gen_bind_vars n =
    let comma : marks (codes ", ") ≡ 0 = unfold marks in refl in
    marks-join (codes ", ") (replicate n (codes "?")) comma ∙ total_marks-questions n

marks-separator : {A : Type 0} (xs : List A) → marks (separator xs) ≡ 0
unfolding separator marks
marks-separator [] = refl
marks-separator (x ∷ xs) = refl

-- A text of literals without marks, and a part.
marks_behind : (s t : Text) → marks s ≡ 0 → marks (s ++ t) ≡ marks t
marks_behind s t h = omega (arith, marks-append s t)

gen_select-marks :
    (table : Text) (fields : List Text)
    → marks table ≡ 0
    → total_marks fields ≡ 0
    → marks (gen_select table fields) ≡ 0
unfolding gen_select
gen_select-marks table fields t f =
    let s_1 : marks (codes "SELECT ") ≡ 0 = unfold marks in refl in
    let s_2 : marks (codes " FROM ") ≡ 0 = unfold marks in refl in
    let s_3 : marks (codes ",") ≡ 0 = unfold marks in refl in
    let list = join (codes ",") fields in
    omega (
      arith,
      t,
      f,
      s_1,
      s_2,
      marks-join (codes ",") fields s_3,
      marks-append (codes "SELECT ") (list ++ (codes " FROM " ++ table)),
      marks-append list (codes " FROM " ++ table),
      marks-append (codes " FROM ") table,
    )

module _ {V : Type 0} where
  -- As many "?" marks as values.
  abbrev pub IsBound : Text × List V → Type 0
  IsBound r = marks r.0 ≡ length r.1

  -- All rows are as long.
  abbrev pub HaveLength : ℕ → List (List V) → Type 0
  HaveLength n rows = All (λ row. length row ≡ n) rows

  -- What the caller owes each generator: names hold no "?" mark, the rows are as long, and a
  -- condition has a mark for each of its values.
  abbrev pub IsProper : Args V → Type 0
  IsProper (insert_args table fields) = (marks table ≡ 0) × (total_marks fields ≡ 0)
  IsProper (values_args rows) = (n : ℕ) × HaveLength n rows
  IsProper (select_args table fields) = (marks table ≡ 0) × (total_marks fields ≡ 0)
  IsProper (limit_args nums) = length nums ≡ 1
  IsProper (where_args desc vars) = marks desc ≡ length vars
  IsProper (order_args desc) = marks desc ≡ 0
  IsProper (update_args table pairs) = (marks table ≡ 0) × All (λ p. marks p.0 ≡ 0) pairs
  IsProper (delete_args table) = marks table ≡ 0
  IsProper (count_args table) = marks table ≡ 0

  bind_str-marks :
      (n : ℕ) (bind : Text) (row : List V)
      → (bind ≡ []) ⊎ (marks bind ≡ n)
      → length row ≡ n
      → marks (bind_str bind row) ≡ n
  unfolding bind_str
  bind_str-marks n [] row b h = marks-gen_bind_vars (length row) ∙ h
  bind_str-marks n (c ∷ bind) row (inl e) h = absurd (cc)
  bind_str-marks n (c ∷ bind) row (inr e) h = e

  gen_rows-IsBound :
      (n : ℕ) (bind : Text) (rows : List (List V))
      → (bind ≡ []) ⊎ (marks bind ≡ n)
      → HaveLength n rows
      → IsBound (gen_rows bind rows)
  unfolding gen_rows
  gen_rows-IsBound n bind [] b h = unfold marks in refl
  gen_rows-IsBound n bind (row ∷ rows) b h =
      let bind' = bind_str bind row in
      let m = bind_str-marks n bind row b h.0 in
      let ih = gen_rows-IsBound n bind' rows (inr m) h.1 in
      let rest = (gen_rows bind' rows).0 in
      let open_ : marks (codes "(") ≡ 0 = unfold marks in refl in
      let close : marks (codes ")") ≡ 0 = unfold marks in refl in
      omega (
        arith,
        m,
        ih,
        open_,
        close,
        h.0,
        marks-separator rows,
        marks-append (codes "(") (bind' ++ (codes ")" ++ (separator rows ++ rest))),
        marks-append bind' (codes ")" ++ (separator rows ++ rest)),
        marks-append (codes ")") (separator rows ++ rest),
        marks-append (separator rows) rest,
        length-append row (gen_rows bind' rows).1,
      )

  total_marks-assignments :
      (pairs : List (Text × V))
      → All (λ p. marks p.0 ≡ 0) pairs
      → total_marks (assignments pairs) ≡ length (map (λ p. p.1) pairs)
  unfolding assignments
  total_marks-assignments [] h = refl
  total_marks-assignments ((k, v) ∷ pairs) h =
      let one : marks (codes " = ?") ≡ 1 = unfold marks in refl in
      omega (arith, h.0, one, marks-append k (codes " = ?"), total_marks-assignments pairs h.1)

  -- Each generator, given what it is owed, makes as many marks as it returns values.
  pub generate-IsBound : (args : Args V) → IsProper args → IsBound (generate args)
  unfolding generate
  generate-IsBound (insert_args table fields) h =
      let s_1 : marks (codes "INSERT INTO ") ≡ 0 = unfold marks in refl in
      let s_2 : marks (codes " (") ≡ 0 = unfold marks in refl in
      let s_3 : marks (codes ",") ≡ 0 = unfold marks in refl in
      let s_4 : marks (codes ")") ≡ 0 = unfold marks in refl in
      let list = join (codes ",") fields in
      omega (
        arith,
        h.0,
        h.1,
        s_1,
        s_2,
        s_4,
        marks-join (codes ",") fields s_3,
        marks-append (codes "INSERT INTO ") (table ++ (codes " (" ++ (list ++ codes ")"))),
        marks-append table (codes " (" ++ (list ++ codes ")")),
        marks-append (codes " (") (list ++ codes ")"),
        marks-append list (codes ")"),
      )
  generate-IsBound (values_args rows) h =
      marks_behind (codes "VALUES ") (gen_rows [] rows).0 (unfold marks in refl)
      ∙ gen_rows-IsBound h.0 [] rows (inl refl) h.1
  generate-IsBound (select_args table fields) h = gen_select-marks table fields h.0 h.1
  generate-IsBound (limit_args nums) h = unfold marks in sym h
  generate-IsBound (where_args desc vars) h =
      marks_behind (codes "WHERE ") desc (unfold marks in refl) ∙ h
  generate-IsBound (order_args desc) h =
      marks_behind (codes "ORDER BY ") desc (unfold marks in refl) ∙ h
  generate-IsBound (update_args table pairs) h =
      let s_1 : marks (codes "UPDATE ") ≡ 0 = unfold marks in refl in
      let s_2 : marks (codes " SET ") ≡ 0 = unfold marks in refl in
      let s_3 : marks (codes ", ") ≡ 0 = unfold marks in refl in
      let list = join (codes ", ") (assignments pairs) in
      omega (
        arith,
        h.0,
        s_1,
        s_2,
        marks-join (codes ", ") (assignments pairs) s_3,
        total_marks-assignments pairs h.1,
        marks-append (codes "UPDATE ") (table ++ (codes " SET " ++ list)),
        marks-append table (codes " SET " ++ list),
        marks-append (codes " SET ") list,
      )
  generate-IsBound (delete_args table) h =
      marks_behind (codes "DELETE FROM ") table (unfold marks in refl) ∙ h
  generate-IsBound (count_args table) h =
      gen_select-marks table (codes "count(*)" ∷ []) h (unfold marks in refl)

  -- Every part that is set is bound.
  abbrev pub HasBoundParts : Clause V → Type 0
  HasBoundParts c =
      (kind : Kind) (part : Text × List V) → lookup kind_dec kind c.parts ≡ some part → IsBound part

  pub empty_clause-HasBoundParts : HasBoundParts empty_clause
  unfolding empty_clause lookup
  empty_clause-HasBoundParts kind part e = absurd (cc)

  pub set-HasBoundParts :
      (args : Args V) (c : Clause V) → IsProper args → HasBoundParts c → HasBoundParts (set args c)
  unfolding set
  set-HasBoundParts args c proper h kind part e =
      let law = lookup-insert kind_dec (kind_of args) kind (generate args) c.parts in
      elim (kind_dec (kind_of args) kind) [
        | yes p ↦
            let new : generate args ≡ part = ground (arith, law) in
            subst IsBound new (generate-IsBound args proper)
        | no p ↦ h kind part (ground (arith, law))
      ]

  collect-marks :
      (kinds : List Kind) (c : Clause V)
      → HasBoundParts c
      → total_marks (collect kinds c).0 ≡ length (collect kinds c).1
  unfolding collect
  collect-marks [] c h = refl
  collect-marks (kind ∷ kinds) c h = elim (Option-cases (lookup kind_dec kind c.parts)) [
    | inl e ↦ rw (e, collect) (collect-marks kinds c h)
    | inr ((sql, mine), e) ↦
        rw (e, collect)
          (omega (
            arith,
            h kind (sql, mine) e,
            collect-marks kinds c h,
            length-append mine (collect kinds c).1,
          ))
  ]

  -- The statement that `Build` makes of such parts, in any order and with any of them left out, has
  -- as many "?" marks as values.
  pub build-IsBound : (kinds : List Kind) (c : Clause V) → HasBoundParts c → IsBound (build kinds c)
  unfolding build
  build-IsBound kinds c h =
      marks-join (codes " ") (collect kinds c).0 (unfold marks in refl) ∙ collect-marks kinds c h

  -- The calls of `Set`, in order.
  abbrev pub set_all : List (Args V) → Clause V → Clause V
  set_all [] c = c
  set_all (args ∷ calls) c = set_all calls (set args c)

  set_all-HasBoundParts :
      (calls : List (Args V)) (c : Clause V)
      → All IsProper calls
      → HasBoundParts c
      → HasBoundParts (set_all calls c)
  set_all-HasBoundParts [] c p h = h
  set_all-HasBoundParts (args ∷ calls) c p h =
      set_all-HasBoundParts calls (set args c) p.1 (set-HasBoundParts args c p.0 h)

  -- Whatever the calls of `Set` are, if each has what its generator is owed, the statement that
  -- `Build` makes, of any kinds in any order, has as many "?" marks as values.
  pub build-set_all :
      (kinds : List Kind) (calls : List (Args V))
      → All IsProper calls
      → IsBound (build kinds (set_all calls empty_clause))
  build-set_all kinds calls p =
      build-IsBound kinds (set_all calls empty_clause)
        (set_all-HasBoundParts calls empty_clause p empty_clause-HasBoundParts)
