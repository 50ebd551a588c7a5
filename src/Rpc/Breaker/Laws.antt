-- ===== src/Rpc/Breaker/Laws.antt =====
-- sonnet-rpc-v2/internal/breaker/breaker.go: the invariant of the breaker.
use sonnet_pro.Prelude.{ℕ, ◌≡◌, ◌≢◌, arith, Bool, true}
use sonnet_pro.Rpc.Breaker.{
  closed, half_open, Breaker, new_breaker, allow, record_success, record_failure,
}

-- Counts are kept only while the breaker is closed, and a probe only while it is half-open.
pub record IsValid (b : Breaker) : Type 0 where
  pub no_failures : b.state ≢ closed → b.failure_count ≡ 0
  pub no_successes : b.state ≢ closed → b.success_count ≡ 0
  pub no_probe : b.half_open_probe ≡ true → b.state ≡ half_open

pub new_breaker-IsValid : (now window timeout : ℕ) → IsValid (new_breaker now window timeout)
unfolding new_breaker
new_breaker-IsValid now window timeout = ground arith

pub allow-IsValid : (now : ℕ) (b : Breaker) → IsValid b → IsValid (allow now b).0
unfolding allow
allow-IsValid now b v = ground arith

pub record_success-IsValid : (now : ℕ) (b : Breaker) → IsValid b → IsValid (record_success now b)
unfolding record_success
record_success-IsValid now b v = ground arith

pub record_failure-IsValid :
    (trips : ℕ → ℕ → Bool) (now : ℕ) (b : Breaker)
    → IsValid b
    → IsValid (record_failure trips now b)
unfolding record_failure
record_failure-IsValid trips now b v = ground arith
