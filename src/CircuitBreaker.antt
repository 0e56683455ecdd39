-- ===== src/CircuitBreaker.antt =====
-- pkg/positionmanager/circuitbreaker.go. `time.Now()` is an argument of the calls that read it,
-- in nanoseconds; the mutex makes each call one step. The counters count calls, and are left
-- unbounded.
pub mod Tests
pub mod Machine
pub mod Recovery
use dex_limit_order_manager.Prelude.{
  ℕ, zero, suc, ◌+◌, ◌*◌, ◌≡◌, refl, Bool, true, false, Option, none, some, arith, ltb, leb,
  if◌then◌else◌,
}
use dex_limit_order_manager.Prelude.Int.{ℤ, pos, leb_ℤ, ◌-ℤ◌, is_pos}

pub data CircuitState : Type 0 where
  closed tripped half_open : CircuitState

pub record CircuitBreakerConfig : Type 0 where
  pub max_failures : ℤ
  pub reset_timeout : ℤ
  pub half_open_max_attempts : ℤ

abbrev pub seconds : ℕ → ℤ
seconds n = pos (n * 1_000_000_000)

-- `DefaultCircuitBreakerConfig`.
abbrev pub default_config : CircuitBreakerConfig
default_config = record {
  max_failures = pos 5;
  reset_timeout = seconds 30;
  half_open_max_attempts = pos 2;
}

pub record CircuitBreaker : Type 0 where
  pub cfg : CircuitBreakerConfig
  pub state : CircuitState
  pub failures : ℕ
  pub successes : ℕ
  pub last_failure_time : ℤ

abbrev positive_or : ℤ → ℤ → ℤ
positive_or default given = if is_pos given then given else default

-- `NewCircuitBreaker`. The zero `time.Time` is the time 0.
unfoldable pub new_circuit_breaker : CircuitBreakerConfig → CircuitBreaker
new_circuit_breaker cfg = record {
  cfg = record {
    max_failures = positive_or default_config.max_failures cfg.max_failures;
    reset_timeout = positive_or default_config.reset_timeout cfg.reset_timeout;
    half_open_max_attempts =
        positive_or default_config.half_open_max_attempts cfg.half_open_max_attempts;
  };
  state = closed;
  failures = 0;
  successes = 0;
  last_failure_time = pos 0;
}

pub data Verdict : Type 0 where
  allowed err_circuit_open : Verdict

allow_in : CircuitState → CircuitBreaker → ℤ → CircuitBreaker × Verdict
allow_in closed cb now = (cb, allowed)
allow_in tripped cb now =
    if leb_ℤ cb.cfg.reset_timeout (now -ℤ cb.last_failure_time)
    then (record cb { state = half_open; successes = 0 }, allowed)
    else (cb, err_circuit_open)
allow_in half_open cb now = (cb, allowed)

-- `Allow`.
unfoldable pub allow : CircuitBreaker → ℤ → CircuitBreaker × Verdict
unfolding allow_in
allow cb now = allow_in cb.state cb now

-- An integer bound that a counter has come up to.
abbrev pub reaches : ℕ → ℤ → Bool
reaches n bound = leb_ℤ bound (pos n)

success_in : CircuitState → CircuitBreaker → CircuitBreaker
success_in half_open cb =
    if reaches (cb.successes + 1) cb.cfg.half_open_max_attempts
    then record cb { successes = cb.successes + 1; state = closed; failures = 0 }
    else record cb { successes = cb.successes + 1 }
success_in closed cb = record cb { failures = 0 }
success_in tripped cb = cb

-- `RecordSuccess`.
unfoldable pub record_success : CircuitBreaker → CircuitBreaker
unfolding success_in
record_success cb = success_in cb.state cb

failure_in : CircuitState → CircuitBreaker → CircuitBreaker
failure_in closed cb =
    if reaches cb.failures cb.cfg.max_failures then record cb { state = tripped } else cb
failure_in half_open cb = record cb { state = tripped; successes = 0 }
failure_in tripped cb = cb

-- `RecordFailure`: the count and the time first, then the switch.
unfoldable pub record_failure : CircuitBreaker → ℤ → CircuitBreaker
unfolding failure_in
record_failure cb now =
    failure_in cb.state (record cb { failures = cb.failures + 1; last_failure_time = now })
