-- ===== src/Rpc/Breaker/Traces.antt =====
-- sonnet-rpc-v2/internal/breaker/breaker.go: sequences of calls, each with its time.
use sonnet_pro.Prelude.{
  ℕ, zero, suc, ◌+◌, ◌≤◌, ◌<◌, List, [], ◌∷◌, ◌≡◌, refl, arith, Bool, true, false, All, map,
  if◌then◌else◌,
}
use sonnet_pro.Rpc.Breaker.{
  closed, open_state, half_open, Breaker, allow, record_success, record_failure, to_open,
}

-- A call of the breaker.
pub data Call : Type 0 where
  ask succeed fail : ℕ → Call

abbrev pub time_of : Call → ℕ
time_of (ask now) = now
time_of (succeed now) = now
time_of (fail now) = now

module _ (trips : ℕ → ℕ → Bool) where
  -- The state after the calls, and the answers of `Allow` among them, in order.
  pub run : List Call → Breaker → Breaker × List Bool
  run [] b = (b, [])
  run (ask now ∷ calls) b =
      let (b', answer) = allow now b in let (b'', rest) = run calls b' in (b'', answer ∷ rest)
  run (succeed now ∷ calls) b = run calls (record_success now b)
  run (fail now ∷ calls) b = run calls (record_failure trips now b)

  -- An open breaker stays as it is, and refuses every request, whatever is recorded, until the
  -- timeout has passed.
  pub run-open_state :
      (calls : List Call) (b : Breaker)
      → b.state ≡ open_state
      → All (λ c. time_of c ≤ b.last_change + b.open_timeout) calls
      → ((run calls b).0 ≡ b) × All (λ a. a ≡ false) (run calls b).1
  unfolding run allow record_success record_failure
  run-open_state [] b o h = (refl, tt)
  run-open_state (ask now ∷ calls) b o h = ground (arith, run-open_state calls b o h.1)
  run-open_state (succeed now ∷ calls) b o h = ground (arith, run-open_state calls b o h.1)
  run-open_state (fail now ∷ calls) b o h = ground (arith, run-open_state calls b o h.1)

  abbrev asks : List ℕ → List Call
  asks [] = []
  asks (now ∷ times) = ask now ∷ asks times

  refused :
      (times : List ℕ) (b : Breaker)
      → b.state ≡ half_open
      → b.half_open_probe ≡ true
      → run (asks times) b ≡ (b, map (λ t. false) times)
  unfolding run allow
  refused [] b o p = refl
  refused (now ∷ times) b o p = ground (arith, refused times b o p)

  -- Of the requests of an open breaker from the end of its timeout on, with no result recorded, the
  -- first two are let through, and all later ones are refused, however late they are: the breaker
  -- stays half-open.
  pub run-asks :
      (b : Breaker) (now next : ℕ) (times : List ℕ)
      → b.state ≡ open_state
      → b.last_change + b.open_timeout < now
      → ((run (asks (now ∷ next ∷ times)) b).1 ≡ true ∷ true ∷ map (λ t. false) times)
        × ((run (asks (now ∷ next ∷ times)) b).0.state ≡ half_open)
  unfolding run allow
  run-asks b now next times o h =
      let first = allow now b in
      let probed = (allow next first.0).0 in
      let is_half : probed.state ≡ half_open = ground arith in
      let probe : probed.half_open_probe ≡ true = ground arith in
      let rest = refused times probed is_half probe in ground (arith, rest)

  abbrev fails : ℕ → ℕ → List Call
  fails now zero = []
  fails now (suc n) = fail now ∷ fails now n

  failures_below :
      (n : ℕ) (now : ℕ) (b : Breaker)
      → b.state ≡ closed
      → b.failure_count + b.success_count + n < b.window_size
      → (run (fails now n) b).0 ≡ record b { failure_count = b.failure_count + n }
  unfolding run record_failure
  failures_below zero now b c h = ground arith
  failures_below (suc n) now b c h = ground (
    arith,
    failures_below n now (record b { failure_count = b.failure_count + 1 }) c (omega arith),
  )

  fails_snoc :
      (n now : ℕ) (b : Breaker)
      → (run (fails now (suc n)) b).0 ≡ record_failure trips now (run (fails now n) b).0
  unfolding run
  fails_snoc zero now b = refl
  fails_snoc (suc n) now b = fails_snoc n now (record_failure trips now b)

  last_failure :
      (n now : ℕ) (b : Breaker)
      → b.state ≡ closed
      → b.failure_count ≡ n
      → b.success_count ≡ 0
      → b.window_size ≡ suc n
      → record_failure trips now b
        ≡ (if trips (suc n) (suc n) then to_open now b else record b { failure_count = 0 })
  unfolding record_failure
  last_failure n now b c f s w =
      let one : b.failure_count + 1 ≡ suc n = omega arith in
      let all : b.failure_count + 1 + b.success_count ≡ suc n = omega arith in
      ground (arith, one, all)

  -- A closed breaker with no counts stays closed for as many failures as are fewer than its window,
  -- and the failure that fills the window opens it if that rate trips, and clears its counts if not.
  pub run-fails :
      (n now : ℕ) (b : Breaker)
      → b.state ≡ closed
      → b.failure_count ≡ 0
      → b.success_count ≡ 0
      → b.window_size ≡ suc n
      → ((run (fails now n) b).0 ≡ record b { failure_count = n })
        × ((run (fails now (suc n)) b).0 ≡ (if trips (suc n) (suc n) then to_open now b else b))
  unfolding to_open
  run-fails n now b c f s w =
      let below = failures_below n now b c (omega arith) in
      let b' : Breaker = record b { failure_count = b.failure_count + n } in
      let last = last_failure n now b' c (omega arith) s w in
      (ground (arith, below), ground (arith, fails_snoc n now b, below, last))
