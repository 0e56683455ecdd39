-- ===== src/RateLimiter/Tests.antt =====
-- A limiter of 10 tokens a second with a burst of two, pkg/positionmanager/ratelimiter.go.
use dex_limit_order_manager.Prelude.{ℕ, ◌+◌, ◌-◌, ◌*◌, ◌/◌, ◌≤◌, ◌≡◌, refl, List, [], ◌∷◌, arith}
use dex_limit_order_manager.Prelude.Int.{pos}
use dex_limit_order_manager.Errors.{ok, err, context_done}
use dex_limit_order_manager.Chain.{ChainClient}
use dex_limit_order_manager.RateLimiter.{
  RateLimiter, token, new_rate_limiter, allow_call, wait, wait_duration, rate_limited_client,
}
use dex_limit_order_manager.RateLimiter.Bound.{attempts, granted-le}
use dex_limit_order_manager.RateLimiter.Waiting.{wait-returns}

abbrev limiter : RateLimiter
limiter = new_rate_limiter 10 2 0

-- Three calls at once, of which two are let through, and three more after 150 milliseconds.
abbrev at_once : List ℕ
at_once = 0 ∷ 0 ∷ 0 ∷ []

abbrev thereafter : List ℕ
thereafter = 150_000_000 ∷ 150_000_000 ∷ 150_000_000 ∷ []

lets_two : (attempts at_once limiter).1 ≡ 2
unfolding attempts new_rate_limiter
lets_two = refl

granted-le_example :
    (attempts thereafter (attempts at_once limiter).0).1 * token
    ≤ 2 * token
      + ((attempts thereafter (attempts at_once limiter).0).0.last_time
          - (attempts at_once limiter).0.last_time)
        * 10
granted-le_example =
    granted-le 10 2 0 at_once thereafter (omega arith)
      (unfold attempts new_rate_limiter in omega arith)

-- Nothing is left, so a call waits for a tenth of a second.
abbrev drained : RateLimiter
drained = record { tokens = 0; max_burst = 2_000_000_000; rate = 10; last_time = 0 }

-- The quotient is a nanosecond short.
abbrev short : ℕ → ℕ → ℕ
short a r = a / r - 1

wait-returns_example : (wait 0 (99_999_999 ∷ 100_000_002 ∷ []) drained).1 ≡ ok tt
wait-returns_example =
    wait-returns short (λ a r h k. omega arith) 0 99_999_999 100_000_002 99_999_999 [] drained
      (omega arith) (unfold wait_duration allow_call in refl) (omega arith) (omega arith)

-- A context that is done before the first timer.
wait_cancelled : (wait 0 [] drained).1 ≡ err context_done
unfolding wait allow_call
wait_cancelled = refl

-- With a burst of zero no call ever gets through.
burst_of_zero : (attempts (0 ∷ 1_000_000_000 ∷ []) (new_rate_limiter 10 0 0)).1 ≡ 0
unfolding attempts new_rate_limiter
burst_of_zero = refl

-- A client that counts its calls.
abbrev counting : ChainClient ℕ
counting = record {
  send_transaction = λ c tx. (ok tt, c + 1);
  suggest_gas_price = λ c. (ok (pos 100), c + 1);
  suggest_gas_tip_cap = λ c. (ok (pos 2), c + 1);
  pending_nonce_at = λ c account. (ok 5, c + 1);
  estimate_gas = λ c msg. (ok 21000, c + 1);
  call_contract = λ c to calldata. (ok [], c + 1);
  network_id = λ c. (ok (pos 1), c + 1);
  transaction_receipt = λ c hash. (ok (record { status = 1; logs = [] }), c + 1);
}

-- The call is not made when the wait fails.
not_called :
    ((rate_limited_client counting).network_id
      (record { inner = 0; limiter = drained; calls = (0, []) ∷ [] })).1.inner
    ≡ 0
unfolding rate_limited_client wait allow_call
not_called = refl
