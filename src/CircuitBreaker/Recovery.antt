-- ===== src/CircuitBreaker/Recovery.antt =====
-- How the breaker of pkg/positionmanager/circuitbreaker.go trips on consecutive failures, and how
-- it recovers.
use dex_limit_order_manager.Prelude.{
  ℕ, zero, suc, ◌+◌, ◌≡◌, List, [], ◌∷◌, ◌++◌, arith, length, map,
}
use dex_limit_order_manager.Prelude.Int.{ℤ, pos, ◌-ℤ◌, ◌≤ℤ◌, ◌<ℤ◌}
use dex_limit_order_manager.CircuitBreaker.{
  CircuitBreaker, closed, tripped, half_open, allowed, allow, record_success, record_failure,
}
use dex_limit_order_manager.CircuitBreaker.Machine.{Event, asks, succeeds, fails, step, run, Inv}

abbrev pub failing : List ℤ → List Event
failing = map fails

-- Failures in a row, from a closed breaker, up to the bound.
failing-count :
    (cb : CircuitBreaker) (times : List ℤ)
    → cb.state ≡ closed
    → pos (cb.failures + length times) <ℤ cb.cfg.max_failures
    → (run cb (failing times)).state ≡ closed
unfolding run step
failing-count cb [] c h = c
failing-count cb (t ∷ ts) c h = failing-count (step cb (fails t)) ts (ground arith) (ground arith)

-- A closed breaker stays closed under fewer failures in a row than its bound leaves room for, and
-- the failure that reaches the bound opens it, at the time of that failure.
pub failing-trips :
    (cb : CircuitBreaker) (times : List ℤ) (last : ℤ)
    → cb.state ≡ closed
    → pos (cb.failures + length times + 1) ≡ cb.cfg.max_failures
    → ((run cb (failing times)).state ≡ closed)
      × ((run cb (failing (times ++ (last ∷ [])))).state ≡ tripped)
      × ((run cb (failing (times ++ (last ∷ [])))).last_failure_time ≡ last)
unfolding run step
failing-trips cb [] last c h = ground arith
failing-trips cb (t ∷ ts) last c h =
    let (before, opens, at) =
      failing-trips (step cb (fails t)) ts last (ground arith) (ground arith) in
    (before, opens, at)

-- A success of a closed breaker forgets the failures before it.
pub success-forgets :
    (cb : CircuitBreaker) (times : List ℤ)
    → Inv cb
    → cb.state ≡ closed
    → pos (length times) <ℤ cb.cfg.max_failures
    → (run (step cb succeeds) (failing times)).state ≡ closed
unfolding step
success-forgets cb times v c h =
    failing-count (record_success cb) times (ground arith) (ground arith)

abbrev pub repeat_success : ℕ → List Event
repeat_success zero = []
repeat_success (suc n) = succeeds ∷ repeat_success n

trial :
    (n : ℕ) (cb : CircuitBreaker)
    → cb.state ≡ half_open
    → pos (cb.successes + n + 1) ≡ cb.cfg.half_open_max_attempts
    → ((run cb (repeat_success n)).state ≡ half_open)
      × ((run cb (repeat_success (suc n))).state ≡ closed)
      × ((run cb (repeat_success (suc n))).failures ≡ 0)
unfolding run step
trial zero cb s h = ground arith
trial (suc n) cb s h =
    let (before, closes, none_left) = trial n (step cb succeeds) (ground arith) (ground arith) in
    (before, closes, none_left)

relapse :
    (cb : CircuitBreaker) (now : ℤ) → cb.state ≡ half_open → (record_failure cb now).state ≡ tripped
unfolding record_failure
relapse cb now h = ground arith

-- An open breaker whose reset timeout has passed lets the next call through and is half-open; with
-- `n + 1` the configured number of trial calls, `n` successes leave it half-open and the next one
-- closes it with no failure counted, whereas a failure in its place opens it again.
pub recovery :
    (cb : CircuitBreaker) (now later : ℤ) (n : ℕ)
    → cb.state ≡ tripped
    → cb.cfg.reset_timeout ≤ℤ now -ℤ cb.last_failure_time
    → pos (n + 1) ≡ cb.cfg.half_open_max_attempts
    → ((allow cb now).1 ≡ allowed)
      × ((run cb (asks now ∷ repeat_success n)).state ≡ half_open)
      × ((run cb (asks now ∷ repeat_success (suc n))).state ≡ closed)
      × ((run cb (asks now ∷ repeat_success (suc n))).failures ≡ 0)
      × ((record_failure (run cb (asks now ∷ repeat_success n)) later).state ≡ tripped)
unfolding run step allow
recovery cb now later n s passed bound =
    let (before, closes, none_left) = trial n (step cb (asks now)) (ground arith) (ground arith) in
    (
      ground arith,
      before,
      closes,
      none_left,
      relapse (run cb (asks now ∷ repeat_success n)) later before,
    )
