-- ===== src/Rpc/Pool/Bound.antt =====
-- sonnet-rpc-v2/internal/transport/tcp_connection_pool.go: how many connections a pool has, and which
-- of them `Acquire` returns.
use sonnet_pro.Prelude.{
  ℕ, zero, suc, ◌+◌, ◌%◌, ◌≤◌, ◌<◌, ◌≡◌, refl, sym, ap, subst, ◌∙◌, arith, List, [], ◌∷◌, Bool,
  false, Option, none, some, ◌⊎◌, inl, inr, length, length-append, take, drop, length-take,
  length-drop, ltb, Bool-cases,
}
use native.Mathlib.Nat.{mod-lt}
use sonnet_pro.Rpc.Pool.{Pool, got, remove_at, scan, dial, finish, acquire}

length-remove_at :
    (idx : ℕ) (conns : List ℕ)
    → idx < length conns
    → suc (length (remove_at idx conns)) ≡ length conns
unfolding remove_at
length-remove_at idx conns lt = omega (
  arith,
  length-append (take idx conns) (drop (suc idx) conns),
  length-take idx conns,
  length-drop (suc idx) conns,
)

-- The index of a round stands for a connection.
length-removed :
    (next i : ℕ) (conns : List ℕ)
    → i < length conns
    → suc (length (remove_at ((next + i) % length conns) conns)) ≡ length conns
length-removed next i conns lt =
    length-remove_at ((next + i) % length conns) conns (mod-lt (next + i) (omega arith))

-- The loop adds no connection.
scan-length :
    (dead : ℕ → Bool) (next fuel i : ℕ) (conns : List ℕ)
    → length (scan dead next fuel i conns).0 ≤ length conns
unfolding scan
scan-length dead next zero i conns = omega arith
scan-length dead next (suc fuel) i conns = elim (Bool-cases (ltb i (length conns))) [
  | inr out ↦ rw out (omega arith)
  | inl inside ↦
      let removed = length-removed next i conns (ground arith) in
      ground (
        arith,
        removed,
        scan-length dead next fuel (suc i) (remove_at ((next + i) % length conns) conns),
      )
]

-- A loop that returns no connection has dropped one.
scan-length-none :
    (dead : ℕ → Bool) (next fuel i : ℕ) (conns : List ℕ)
    → 0 < fuel
    → i < length conns
    → (scan dead next fuel i conns).1 ≡ none
    → length (scan dead next fuel i conns).0 < length conns
unfolding scan
scan-length-none dead next zero i conns pos lt e = absurd (omega arith)
scan-length-none dead next (suc fuel) i conns pos lt e =
    let removed = length-removed next i conns lt in
    ground (
      arith,
      removed,
      scan-length dead next fuel (suc i) (remove_at ((next + i) % length conns) conns),
    )

-- The connection that the loop returns is alive.
scan-alive :
    (dead : ℕ → Bool) (next fuel i : ℕ) (conns : List ℕ) (conn n : ℕ)
    → (scan dead next fuel i conns).1 ≡ some (conn, n)
    → dead conn ≡ false
unfolding scan
scan-alive dead next zero i conns conn n e = absurd (cc)
scan-alive dead next (suc fuel) i conns conn n e =
    ground (
      arith,
      scan-alive dead next fuel (suc i) (remove_at ((next + i) % length conns) conns) conn n,
    )

scan_out :
    (dead : ℕ → Bool) (next fuel i : ℕ) (conns : List ℕ)
    → length conns ≤ i
    → scan dead next fuel i conns ≡ (conns, none)
unfolding scan
scan_out dead next zero i conns le = refl
scan_out dead next (suc fuel) i conns le = ground arith

-- The loop ends by itself: fuels that reach as many rounds as there are connections give the same
-- outcome.
pub scan-enough :
    (dead : ℕ → Bool) (next f g i : ℕ) (conns : List ℕ)
    → length conns ≤ i + f
    → length conns ≤ i + g
    → scan dead next f i conns ≡ scan dead next g i conns
unfolding scan
scan-enough dead next zero g i conns le le' =
    scan_out dead next 0 i conns (omega arith) ∙ sym (scan_out dead next g i conns (omega arith))
scan-enough dead next (suc f) zero i conns le le' =
    scan_out dead next (suc f) i conns (omega arith)
    ∙ sym (scan_out dead next 0 i conns (omega arith))
scan-enough dead next (suc f) (suc g) i conns le le' = elim (Bool-cases (ltb i (length conns))) [
  | inr out ↦
      scan_out dead next (suc f) i conns (ground arith)
      ∙ sym (scan_out dead next (suc g) i conns (ground arith))
  | inl inside ↦
      let kept = remove_at ((next + i) % length conns) conns in
      let removed = length-removed next i conns (ground arith) in
      let rest : scan dead next f (suc i) kept ≡ scan dead next g (suc i) kept =
        scan-enough dead next f g (suc i) kept (omega arith) (omega arith) in
      rw rest refl
]

dial-le :
    (dialled : Option ℕ) (conns : List ℕ) (p : Pool)
    → length (dial dialled conns p).0.conns ≤ suc (length conns)
unfolding dial
dial-le none conns p = omega arith
dial-le (some conn) conns p = omega (arith, length-append conns (conn ∷ []))

dial-got :
    (dialled : Option ℕ) (conns : List ℕ) (p : Pool) (conn : ℕ)
    → (dial dialled conns p).1 ≡ got conn
    → dialled ≡ some conn
unfolding dial
dial-got none conns p conn e = absurd (cc)
dial-got (some c) conns p conn e = ap some (cc)

finish-le :
    (dialled : Option ℕ) (p : Pool) (out : List ℕ × Option (ℕ × ℕ)) (max : ℕ)
    → length out.0 ≤ max
    → (out.1 ≡ none → length out.0 < max)
    → length (finish dialled p out).0.conns ≤ max
unfolding finish
finish-le dialled p (conns, none) max le lt = omega (arith, dial-le dialled conns p, lt refl)
finish-le dialled p (conns, some (conn, next)) max le lt = le

finish-alive :
    (dead : ℕ → Bool) (dialled : Option ℕ) (p : Pool) (out : List ℕ × Option (ℕ × ℕ)) (conn : ℕ)
    → ((c n : ℕ) → out.1 ≡ some (c, n) → dead c ≡ false)
    → (finish dialled p out).1 ≡ got conn
    → (dialled ≡ some conn) ⊎ (dead conn ≡ false)
unfolding finish
finish-alive dead dialled p (conns, none) conn alive e = inl (dial-got dialled conns p conn e)
finish-alive dead dialled p (conns, some (c, n)) conn alive e =
    let same : c ≡ conn = cc in inr (subst (λ x. dead x ≡ false) same (alive c n refl))

-- `Acquire` keeps a pool of a positive bound within it, whatever dials and dies.
pub acquire-le :
    (dead : ℕ → Bool) (dialled : Option ℕ) (p : Pool)
    → 0 < p.max_active
    → length p.conns ≤ p.max_active
    → length (acquire dead dialled p).0.conns ≤ p.max_active
unfolding acquire
acquire-le dead dialled p pos le =
    let size = length p.conns in
    let out = scan dead p.next size 0 p.conns in
    let short = scan-length dead p.next size 0 p.conns in
    elim (Bool-cases p.closed) [
      | inl shut ↦ simp shut le
      | inr live ↦ elim (Bool-cases (ltb size p.max_active)) [
        | inl room ↦ simp (live, room) (ground (arith, dial-le dialled p.conns p))
        | inr full ↦
            simp (live, full)
              (finish-le dialled p out p.max_active (omega arith)
                (λ e. ground (arith, scan-length-none dead p.next size 0 p.conns)))
      ]
    ]

-- A connection that `Acquire` returns is one that it has just dialled or one that is not dead.
pub acquire-alive :
    (dead : ℕ → Bool) (dialled : Option ℕ) (p : Pool) (conn : ℕ)
    → (acquire dead dialled p).1 ≡ got conn
    → (dialled ≡ some conn) ⊎ (dead conn ≡ false)
unfolding acquire
acquire-alive dead dialled p conn e =
    let size = length p.conns in
    let out = scan dead p.next size 0 p.conns in
    elim (Bool-cases p.closed) [
      | inl shut ↦ absurd (ground arith)
      | inr live ↦ elim (Bool-cases (ltb size p.max_active)) [
        | inl room ↦ inl (dial-got dialled p.conns p conn (ground arith))
        | inr full ↦
            finish-alive dead dialled p out conn (scan-alive dead p.next size 0 p.conns)
              (ground arith)
      ]
    ]
