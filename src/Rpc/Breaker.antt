-- ===== src/Rpc/Breaker.antt =====
-- sonnet-rpc-v2/internal/breaker/breaker.go: the circuit breaker. Times and durations are
-- nanoseconds; `now` is what `time.Now()` returns in a call, and each call is one critical section.
-- `rate >= cb.failureThreshold`, a comparison of floats, is the test `trips failures total`.
pub mod Laws
pub mod Traces
use sonnet_pro.Prelude.{ℕ, suc, ◌+◌, Bool, true, false, ltb, if◌then◌else◌}

pub data State : Type 0 where
  closed open_state half_open : State

pub record Breaker : Type 0 where
  pub state : State
  pub failure_count : ℕ
  pub success_count : ℕ
  pub window_size : ℕ
  pub open_timeout : ℕ
  pub last_change : ℕ
  pub half_open_probe : Bool

-- `NewCircuitBreaker`.
unfoldable pub new_breaker : ℕ → ℕ → ℕ → Breaker
new_breaker now window_size open_timeout = record {
  state = closed;
  failure_count = 0;
  success_count = 0;
  window_size = window_size;
  open_timeout = open_timeout;
  last_change = now;
  half_open_probe = false;
}

-- `resetCounts`.
unfoldable pub reset_counts : Breaker → Breaker
reset_counts b = record b { failure_count = 0; success_count = 0 }

-- `toOpen`.
unfoldable pub to_open : ℕ → Breaker → Breaker
unfolding reset_counts
to_open now b =
    let moved = record b { state = open_state; last_change = now } in
    let cleared = reset_counts moved in record cleared { half_open_probe = false }

-- `toClosed`.
unfoldable pub to_closed : ℕ → Breaker → Breaker
unfolding reset_counts
to_closed now b =
    let moved = record b { state = closed; last_change = now } in
    let cleared = reset_counts moved in record cleared { half_open_probe = false }

-- The cases of `Allow`.
unfoldable pub allow_in : State → ℕ → Breaker → Breaker × Bool
allow_in closed now b = (b, true)
allow_in open_state now b =
    if ltb (b.last_change + b.open_timeout) now
    then (record b { state = half_open; half_open_probe = false }, true)
    else (b, false)
allow_in half_open now b =
    if b.half_open_probe then (b, false) else (record b { half_open_probe = true }, true)

-- `Allow`.
unfoldable pub allow : ℕ → Breaker → Breaker × Bool
unfolding allow_in
allow now b = allow_in b.state now b

-- `RecordSuccess`.
unfoldable pub success_in : State → ℕ → Breaker → Breaker
unfolding to_closed
success_in closed now b = record b { success_count = b.success_count + 1 }
success_in half_open now b = to_closed now b
success_in open_state now b = b

unfoldable pub record_success : ℕ → Breaker → Breaker
unfolding success_in
record_success now b = success_in b.state now b

module _ (trips : ℕ → ℕ → Bool) where
  -- The case of `RecordFailure` in the closed state, behind `cb.failureCount++`.
  unfoldable pub count_failure : ℕ → Breaker → Breaker
  unfolding to_open reset_counts
  count_failure now b =
      let total = b.failure_count + b.success_count in
      if ltb total b.window_size
      then b
      else (if trips b.failure_count total then to_open now b else reset_counts b)

  unfoldable pub failure_in : State → ℕ → Breaker → Breaker
  unfolding count_failure
  failure_in closed now b = count_failure now (record b { failure_count = b.failure_count + 1 })
  failure_in half_open now b = to_open now b
  failure_in open_state now b = b

  -- `RecordFailure`.
  unfoldable pub record_failure : ℕ → Breaker → Breaker
  unfolding failure_in
  record_failure now b = failure_in b.state now b
