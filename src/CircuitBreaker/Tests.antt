-- ===== src/CircuitBreaker/Tests.antt =====
-- The breaker of pkg/positionmanager/circuitbreaker.go on concrete calls.
use dex_limit_order_manager.Prelude.{◌≡◌, refl, List, [], ◌∷◌, ◌++◌, arith}
use dex_limit_order_manager.Prelude.Int.{ℤ, ◌-ℤ◌}
use dex_limit_order_manager.CircuitBreaker.{
  CircuitBreaker, closed, tripped, half_open, allowed, seconds, default_config, new_circuit_breaker,
  allow, record_failure,
}
use dex_limit_order_manager.CircuitBreaker.Machine.{Event, asks, succeeds, fails, run, Inv, run-Inv}
use dex_limit_order_manager.CircuitBreaker.Recovery.{
  failing, failing-trips, repeat_success, recovery,
}

abbrev fresh : CircuitBreaker
fresh = new_circuit_breaker default_config

abbrev opened : CircuitBreaker
opened = record fresh { state = tripped; failures = 5; last_failure_time = seconds 100 }

abbrev events : List Event
events = fails (seconds 1) ∷ fails (seconds 2) ∷ succeeds ∷ asks (seconds 3) ∷ []

run-Inv_example : Inv (run fresh events)
run-Inv_example = run-Inv default_config events

abbrev four : List ℤ
four = seconds 1 ∷ seconds 2 ∷ seconds 3 ∷ seconds 4 ∷ []

failing-trips_example :
    ((run fresh (failing four)).state ≡ closed)
    × ((run fresh (failing (four ++ (seconds 5 ∷ [])))).state ≡ tripped)
    × ((run fresh (failing (four ++ (seconds 5 ∷ [])))).last_failure_time ≡ seconds 5)
unfolding new_circuit_breaker
failing-trips_example = failing-trips fresh four (seconds 5) refl refl

recovery_example :
    ((allow opened (seconds 130)).1 ≡ allowed)
    × ((run opened (asks (seconds 130) ∷ repeat_success 1)).state ≡ half_open)
    × ((run opened (asks (seconds 130) ∷ repeat_success 2)).state ≡ closed)
    × ((run opened (asks (seconds 130) ∷ repeat_success 2)).failures ≡ 0)
    × ((record_failure (run opened (asks (seconds 130) ∷ repeat_success 1)) (seconds 140)).state
        ≡ tripped)
unfolding new_circuit_breaker ◌-ℤ◌
recovery_example = recovery opened (seconds 130) (seconds 140) 1 refl (omega arith) refl
