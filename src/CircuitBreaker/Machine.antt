-- ===== src/CircuitBreaker/Machine.antt =====
-- The circuit breaker of pkg/positionmanager/circuitbreaker.go as a state machine: its invariant,
-- its diagram, and when it lets a call through.
use dex_limit_order_manager.Prelude.{◌⊎◌, ◌≡◌, ◌≢◌, ◌⊎◌, List, [], ◌∷◌, arith}
use dex_limit_order_manager.Prelude.Int.{ℤ, pos, ◌-ℤ◌, ◌≤ℤ◌, ◌<ℤ◌}
use dex_limit_order_manager.CircuitBreaker.{
  CircuitBreaker, CircuitBreakerConfig, CircuitState, closed, tripped, half_open, allowed,
  err_circuit_open, new_circuit_breaker, allow, record_success, record_failure,
}

pub data Event : Type 0 where
  asks : ℤ → Event
  succeeds : Event
  fails : ℤ → Event

unfoldable pub step : CircuitBreaker → Event → CircuitBreaker
unfolding allow record_success record_failure
step cb (asks now) = (allow cb now).0
step cb succeeds = record_success cb
step cb (fails now) = record_failure cb now

unfoldable pub run : CircuitBreaker → List Event → CircuitBreaker
unfolding step
run cb [] = cb
run cb (e ∷ es) = run (step cb e) es

-- The bounds are positive; a closed breaker has had fewer failures than open it, any other at
-- least as many; a half-open one has had fewer successes than close it.
pub record Inv (cb : CircuitBreaker) : Type 0 where
  pub max_pos : pos 0 <ℤ cb.cfg.max_failures
  pub timeout_pos : pos 0 <ℤ cb.cfg.reset_timeout
  pub attempts_pos : pos 0 <ℤ cb.cfg.half_open_max_attempts
  pub closed_below : cb.state ≡ closed → pos cb.failures <ℤ cb.cfg.max_failures
  pub tripped_above : cb.state ≢ closed → cb.cfg.max_failures ≤ℤ pos cb.failures
  pub trial_below : cb.state ≡ half_open → pos cb.successes <ℤ cb.cfg.half_open_max_attempts

pub new-Inv : (cfg : CircuitBreakerConfig) → Inv (new_circuit_breaker cfg)
unfolding new_circuit_breaker
new-Inv cfg = ground arith

pub step-Inv : (cb : CircuitBreaker) (e : Event) → Inv cb → Inv (step cb e)
unfolding step
step-Inv cb e v = ground arith

pub run_from-Inv : (cb : CircuitBreaker) (es : List Event) → Inv cb → Inv (run cb es)
unfolding run
run_from-Inv cb [] v = v
run_from-Inv cb (e ∷ es) v = run_from-Inv (step cb e) es (step-Inv cb e v)

-- For every configuration, also one with bounds of zero or less, and after any calls at any times,
-- the breaker satisfies its invariant.
pub run-Inv :
    (cfg : CircuitBreakerConfig) (es : List Event) → Inv (run (new_circuit_breaker cfg) es)
run-Inv cfg es = run_from-Inv (new_circuit_breaker cfg) es (new-Inv cfg)

-- The diagram.
infix 40 ◌⟶◌
pub data ◌⟶◌ : CircuitState → CircuitState → Type 0 where
  stay : {s : CircuitState} → s ⟶ s
  trip : closed ⟶ tripped
  probe : tripped ⟶ half_open
  relapse : half_open ⟶ tripped
  recover : half_open ⟶ closed

-- Every call follows an edge: an open breaker closes only by way of the half-open state, and a
-- closed one becomes half-open only by way of the open state.
pub step-⟶ : (cb : CircuitBreaker) (e : Event) → cb.state ⟶ (step cb e).state
unfolding step
step-⟶ cb e = grind (arith, stay, trip, probe, relapse, recover)

-- `Allow` refuses a call when the breaker is open and the last failure is less than the reset
-- timeout ago, and then leaves the breaker as it was; otherwise it lets the call through.
pub allow-refuses :
    (cb : CircuitBreaker) (now : ℤ)
    → ((cb.state ≡ tripped)
        × (now -ℤ cb.last_failure_time <ℤ cb.cfg.reset_timeout)
        × (allow cb now ≡ (cb, err_circuit_open)))
      ⊎ (((cb.state ≢ tripped) ⊎ (cb.cfg.reset_timeout ≤ℤ now -ℤ cb.last_failure_time))
          × ((allow cb now).1 ≡ allowed))
unfolding allow
allow-refuses cb now = ground arith
