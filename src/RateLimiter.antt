-- ===== src/RateLimiter.antt =====
-- pkg/positionmanager/ratelimiter.go: the token bucket in front of an RPC client, and the client that
-- waits for a token before each call. The code counts tokens in float64; here tokens are counted in
-- billionths and times in nanoseconds, so a rate is a whole number of tokens per second, and no sum of
-- tokens is rounded. The clock is monotonic, as that of time.Time is; the burst is not negative.
pub mod Bound
pub mod Waiting
pub mod Tests
use dex_limit_order_manager.Prelude.{
  ℕ, ◌+◌, ◌-◌, ◌*◌, ◌/◌, ◌≡◌, Bool, true, false, Option, none, some, List, [], ◌∷◌, ◌==◌, ltb, leb,
  if◌then◌else◌,
}
use dex_limit_order_manager.Prelude.Int.{ℤ}
use dex_limit_order_manager.Errors.{Result, ok, err, context_done}
use dex_limit_order_manager.Chain.{ChainClient, SignedTx, CallMsg, Receipt}

abbrev pub token : ℕ
token = 1_000_000_000

-- `RPCRateLimiter`.
pub record RateLimiter : Type 0 where
  pub tokens : ℕ
  pub max_burst : ℕ
  pub rate : ℕ
  pub last_time : ℕ

-- `NewRPCRateLimiter`.
unfoldable pub new_rate_limiter : ℕ → ℕ → ℕ → RateLimiter
new_rate_limiter rate_per_sec burst now = record {
  tokens = burst * token;
  max_burst = burst * token;
  rate = rate_per_sec;
  last_time = now;
}

-- The tokens that have come in since the last time, up to the burst.
unfoldable pub refilled : ℕ → RateLimiter → RateLimiter
refilled now rl =
    let tokens = rl.tokens + (now - rl.last_time) * rl.rate in
    record rl { tokens = if ltb rl.max_burst tokens then rl.max_burst else tokens; last_time = now }

-- `Allow`.
unfoldable pub allow_call : ℕ → RateLimiter → RateLimiter × Bool
unfolding refilled
allow_call now rl =
    let r = refilled now rl in
    if leb token r.tokens then (record r { tokens = r.tokens - token }, true) else (r, false)

-- How long `Wait` sleeps for a deficit, without end if there is no rate. The quotient is computed in
-- float64 and cut to whole nanoseconds, and is a parameter.
unfoldable pub wait_duration : (quotient : ℕ → ℕ → ℕ) → RateLimiter → Option ℕ
wait_duration quotient rl =
    if rl.rate == 0 then none else some (quotient (token - rl.tokens) rl.rate)

waited : RateLimiter × Bool → RateLimiter × Result (Unit {0}) → RateLimiter × Result (Unit {0})
waited (rl, true) rest = (rl, ok tt)
waited (rl, false) rest = rest

-- `Wait`, called at `now`: its loop takes a token as `Allow` does, and sleeps otherwise. The list has the
-- times at which its timers wake it, and the context is done at the end of the list.
unfoldable pub wait : ℕ → List ℕ → RateLimiter → RateLimiter × Result (Unit {0})
unfolding waited
wait now [] rl = waited (allow_call now rl) ((allow_call now rl).0, err context_done)
wait now (t ∷ ts) rl = let rest = wait t ts (allow_call now rl).0 in waited (allow_call now rl) rest

-- The state of a `RateLimitedClient`, with the calls to come: when they are made, and when they are
-- woken before their context is done.
pub record Limited (C : Type 0) : Type 0 where
  pub inner : C
  pub limiter : RateLimiter
  pub calls : List (ℕ × List ℕ)

passed_on :
    {C A : Type 0}
    → (C → Result A × C)
    → Limited C
    → List (ℕ × List ℕ)
    → RateLimiter × Result (Unit {0})
    → Result A × Limited C
passed_on call s calls (rl, err x) = (err x, record s { limiter = rl; calls = calls })
passed_on call s calls (rl, ok _) =
    let (r, c) = call s.inner in (r, record { inner = c; limiter = rl; calls = calls })

waiting_for :
    {C A : Type 0} → (C → Result A × C) → Limited C → List (ℕ × List ℕ) → Result A × Limited C
unfolding wait passed_on
waiting_for call s [] = (err context_done, s)
waiting_for call s ((now, ts) ∷ calls) = passed_on call s calls (wait now ts s.limiter)

-- Each method waits, and returns the error of the wait or what the inner client returns.
unfoldable pub limited : {C A : Type 0} → (C → Result A × C) → Limited C → Result A × Limited C
unfolding waiting_for
limited call s = waiting_for call s s.calls

-- `NewRateLimitedClient`.
unfoldable pub rate_limited_client : {C : Type 0} → ChainClient C → ChainClient (Limited C)
unfolding limited
rate_limited_client client = record {
  send_transaction = λ s tx. limited (λ c. client.send_transaction c tx) s;
  suggest_gas_price = limited client.suggest_gas_price;
  suggest_gas_tip_cap = limited client.suggest_gas_tip_cap;
  pending_nonce_at = λ s account. limited (λ c. client.pending_nonce_at c account) s;
  estimate_gas = λ s msg. limited (λ c. client.estimate_gas c msg) s;
  call_contract = λ s to calldata. limited (λ c. client.call_contract c to calldata) s;
  network_id = limited client.network_id;
  transaction_receipt = λ s hash. limited (λ c. client.transaction_receipt c hash) s;
}
