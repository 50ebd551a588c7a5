-- ===== src/Rpc/Limiter/Laws.antt =====
-- sonnet-rpc-v2/internal/limiter/token_bucket.go: how many requests the bucket lets through.
use Prim.Native.Nat.{min}
use sonnet_pro.Prelude.{ℕ, zero, suc, ◌+◌, ◌*◌, ◌≤◌, List, [], ◌∷◌, ◌≡◌, arith, if◌then◌else◌}
use sonnet_pro.Rpc.Limiter.{TokenBucket, refill, allow}

-- What happens to a bucket: a round of its goroutine, or a request.
pub data Event : Type 0 where
  tick request : Event

-- How many of the requests are let through.
pub allowed : List Event → TokenBucket → ℕ
allowed [] tb = 0
allowed (tick ∷ events) tb = allowed events (refill tb)
allowed (request ∷ events) tb =
    let rest = allowed events (allow tb).0 in if (allow tb).1 then rest + 1 else rest

pub ticks : List Event → ℕ
ticks [] = 0
ticks (tick ∷ events) = ticks events + 1
ticks (request ∷ events) = ticks events

abbrev requests : ℕ → List Event
requests zero = []
requests (suc n) = request ∷ requests n

-- Whatever the order of requests and rounds, the requests let through are at most the tokens at
-- the start and the rate once for each round.
pub allowed-le :
    (events : List Event) (tb : TokenBucket)
    → allowed events tb ≤ tb.tokens + ticks events * tb.rate
unfolding allowed ticks allow refill
allowed-le [] tb = omega arith
allowed-le (tick ∷ events) tb = grind (arith, allowed-le events (refill tb))
allowed-le (request ∷ events) tb = ground (arith, allowed-le events (allow tb).0)

-- Between two rounds exactly the first requests are let through, as many as there are tokens.
pub allowed-requests : (n : ℕ) (tb : TokenBucket) → allowed (requests n) tb ≡ min n tb.tokens
unfolding allowed allow
allowed-requests zero tb = omega arith
allowed-requests (suc n) tb = ground (arith, allowed-requests n (allow tb).0)
