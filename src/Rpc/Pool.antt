-- ===== src/Rpc/Pool.antt =====
-- sonnet-rpc-v2/internal/transport/tcp_connection_pool.go: the pool of connections. A connection is
-- its identity; `dead` reads the flags of the connections as they are during a call, and `dialled`
-- is what dialling returns, `none` for an error. The pool's lock makes each method one step.
pub mod Bound
use sonnet_pro.Prelude.{
  ℕ, zero, suc, ◌+◌, ◌%◌, List, [], ◌∷◌, ◌++◌, Bool, true, false, Option, none, some, length,
  get_or, take, drop, ltb, ◌==◌, if◌then◌else◌,
}

-- `ConnectionPool`.
pub record Pool : Type 0 where
  pub max_active : ℕ
  pub conns : List ℕ
  pub closed : Bool
  pub next : ℕ

-- What `Acquire` returns: a connection, `ErrPoolClosed`, or the error of dialling.
pub data Acquired : Type 0 where
  got : (conn : ℕ) → Acquired
  pool_closed dial_failed : Acquired

-- `NewConnectionPool`.
unfoldable pub new_pool : ℕ → Pool
new_pool max_active = record { max_active = max_active; conns = []; closed = false; next = 0 }

-- `append(p.conns[:idx], p.conns[idx+1:]...)`.
unfoldable pub remove_at : ℕ → List ℕ → List ℕ
remove_at idx conns = take idx conns ++ drop (suc idx) conns

-- The round-robin loop of `Acquire` from round `i` on: the connections that are left, and the
-- connection it returns with the new `next`, if it finds one.
unfoldable pub scan : (ℕ → Bool) → ℕ → ℕ → ℕ → List ℕ → List ℕ × Option (ℕ × ℕ)
unfolding remove_at
scan dead next zero i conns = (conns, none)
scan dead next (suc fuel) i conns =
    let size = length conns in
    let idx = (next + i) % size in
    let conn = get_or conns idx 0 in
    let kept = remove_at idx conns in
    let more = scan dead next fuel (suc i) kept in
    if ltb i size
    then (if dead conn
        then (if length kept == 0 then (kept, none) else more)
        else (conns, some (conn, (idx + 1) % size)))
    else (conns, none)

-- Dial, and keep the new connection with those of `conns`.
unfoldable pub dial : Option ℕ → List ℕ → Pool → Pool × Acquired
dial none conns p = (record p { conns = conns }, dial_failed)
dial (some conn) conns p = (record p { conns = conns ++ conn ∷ [] }, got conn)

-- What `Acquire` does with the outcome of its loop.
unfoldable pub finish : Option ℕ → Pool → List ℕ × Option (ℕ × ℕ) → Pool × Acquired
finish dialled p (conns, some (conn, next)) = (record p { conns = conns; next = next }, got conn)
finish dialled p (conns, none) = dial dialled conns p

-- `Acquire`.
unfoldable pub acquire : (ℕ → Bool) → Option ℕ → Pool → Pool × Acquired
acquire dead dialled p =
    let size = length p.conns in
    if p.closed
    then (p, pool_closed)
    else if ltb size p.max_active
    then dial dialled p.conns p
    else finish dialled p (scan dead p.next size 0 p.conns)

-- `Close`: the pool, and the connections that it closes.
unfoldable pub close : Pool → Pool × List ℕ
close p = if p.closed then (p, []) else (record p { closed = true }, p.conns)
