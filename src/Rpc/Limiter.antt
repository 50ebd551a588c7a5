-- ===== src/Rpc/Limiter.antt =====
-- sonnet-rpc-v2/internal/limiter/token_bucket.go: the token bucket. `rate` is not negative; the
-- goroutine's round is a call of `refill`, at any moment between two calls of `Allow`.
pub mod Laws
use sonnet_pro.Prelude.{ℕ, ◌-◌, Bool, true, false, ltb, if◌then◌else◌}

pub record TokenBucket : Type 0 where
  pub tokens : ℕ
  pub rate : ℕ

-- `NewTokenBucket`.
unfoldable pub new_bucket : ℕ → TokenBucket
new_bucket rate = record { tokens = rate; rate = rate }

-- A round of the goroutine, behind its sleep.
unfoldable pub refill : TokenBucket → TokenBucket
refill tb = record tb { tokens = tb.rate }

-- `Allow`.
unfoldable pub allow : TokenBucket → TokenBucket × Bool
allow tb = if ltb 0 tb.tokens then (record tb { tokens = tb.tokens - 1 }, true) else (tb, false)
