-- ===== src/Tests/Pool.antt =====
-- The connection pool of sonnet-rpc-v2 on small inputs.
use sonnet_pro.Prelude.{ℕ, ◌≤◌, ◌≡◌, refl, arith, [], ◌∷◌, Bool, false, none, some, length, ◌==◌}
use sonnet_pro.Rpc.Pool.{Pool, dial_failed, remove_at, scan, dial, finish, acquire}
use sonnet_pro.Rpc.Pool.Bound.{acquire-le}

-- Connection 7 is dead.
abbrev seven_dead : ℕ → Bool
seven_dead conn = conn == 7

abbrev nine : ℕ
nine = 9

abbrev full : Pool
full = record { max_active = 2; conns = 7 ∷ 8 ∷ []; closed = false; next = 0 }

-- Dropping connection 7 moves connection 8 to its place, and the loop steps over it: the pool dials,
-- and fails where dialling does, although connection 8 is alive.
skip_test : acquire seven_dead none full ≡ (record full { conns = 8 ∷ [] }, dial_failed)
unfolding acquire finish dial scan remove_at
skip_test = refl

acquire-le_example : length (acquire seven_dead (some 9) full).0.conns ≤ 2
acquire-le_example = acquire-le seven_dead (some 9) full (omega arith) (omega arith)
