-- ===== src/RateLimiter/Bound.antt =====
-- The token bucket of pkg/positionmanager/ratelimiter.go holds its rate. Under the mutex of the limiter
-- `Allow` and each round of `Wait` try for a token in the same way, so a history is a list of the times
-- of such attempts, by whomever.
use dex_limit_order_manager.Prelude.{
  ℕ, ◌+◌, ◌-◌, ◌*◌, ◌≤◌, ◌≡◌, sym, ap, ◌∙◌, Bool, List, [], ◌∷◌, arith, if◌then◌else◌,
}
use dex_limit_order_manager.RateLimiter.{RateLimiter, token, new_rate_limiter, allow_call}

-- The limiter after the attempts, and how many of them got a token.
unfoldable pub attempts : List ℕ → RateLimiter → RateLimiter × ℕ
unfolding allow_call
attempts [] rl = (rl, 0)
attempts (t ∷ ts) rl =
    let (r, got) = allow_call t rl in let (s, n) = attempts ts r in (s, if got then n + 1 else n)

-- The clock does not go back.
abbrev pub IsMonotone : ℕ → List ℕ → Type 0
IsMonotone last [] = Unit
IsMonotone last (t ∷ ts) = (last ≤ t) × IsMonotone t ts

-- What stays the same, and what an attempt does to the tokens.
record Attempted (rl s : RateLimiter) (n : ℕ) : Type 0 where
  burst : s.max_burst ≡ rl.max_burst
  rate : s.rate ≡ rl.rate
  within : s.tokens ≤ s.max_burst
  later : rl.last_time ≤ s.last_time
  paid : n * token + s.tokens ≤ rl.tokens + (s.last_time - rl.last_time) * rl.rate

one_attempt :
    (t : ℕ) (rl : RateLimiter)
    → rl.tokens ≤ rl.max_burst
    → rl.last_time ≤ t
    → Attempted rl (allow_call t rl).0 (if (allow_call t rl).1 then 1 else 0)
unfolding allow_call
one_attempt t rl within later = ground arith

allow_call-last_time : (t : ℕ) (rl : RateLimiter) → (allow_call t rl).0.last_time ≡ t
unfolding allow_call
allow_call-last_time t rl = ground arith

distrib : (x y r : ℕ) → (x + y) * r ≡ x * r + y * r
distrib x y r = omega arith

span : (a b c r : ℕ) → a ≤ b → b ≤ c → (b - a) * r + (c - b) * r ≡ (c - a) * r
span a b c r h k =
    let e : c - a ≡ (b - a) + (c - b) = omega arith in rw e (sym (distrib (b - a) (c - b) r))

join :
    (rl r s : RateLimiter) (got : Bool) (n : ℕ)
    → Attempted rl r (if got then 1 else 0)
    → Attempted r s n
    → Attempted rl s (if got then n + 1 else n)
join rl r s got n one rest = record {
  burst = rest.burst ∙ one.burst;
  rate = rest.rate ∙ one.rate;
  within = rest.within;
  later = omega (arith, one.later, rest.later);
  paid = ground (
    arith,
    span rl.last_time r.last_time s.last_time rl.rate one.later rest.later,
    ap (λ k. (s.last_time - r.last_time) * k) one.rate,
  );
}

attempts-Attempted :
    (ts : List ℕ) (rl : RateLimiter)
    → rl.tokens ≤ rl.max_burst
    → IsMonotone rl.last_time ts
    → Attempted rl (attempts ts rl).0 (attempts ts rl).1
unfolding attempts
attempts-Attempted [] rl within mono = omega arith
attempts-Attempted (t ∷ ts) rl within mono =
    let r = (allow_call t rl).0 in
    let one = one_attempt t rl within mono.0 in
    let at_ : r.last_time ≡ t = allow_call-last_time t rl in
    let rest = attempts-Attempted ts r one.within (rw at_ mono.1) in
    join rl r (attempts ts r).0 (allow_call t rl).1 (attempts ts r).1 one rest

bounded :
    {first r s : RateLimiter} {k n : ℕ}
    → Attempted first r k
    → Attempted r s n
    → n * token ≤ first.max_burst + (s.last_time - r.last_time) * first.rate
bounded {first} {r} {s} old new =
    omega
      (arith, old.within, old.burst, new.paid, ap (λ x. (s.last_time - r.last_time) * x) old.rate)

-- Between any two moments, and whatever happened before, the limiter lets at most the burst through,
-- and what comes in at its rate: its guarantee to the RPC node.
pub granted-le :
    (rate burst now : ℕ) (before window : List ℕ)
    → IsMonotone now before
    → IsMonotone (attempts before (new_rate_limiter rate burst now)).0.last_time window
    → (attempts window (attempts before (new_rate_limiter rate burst now)).0).1 * token
      ≤ burst * token
        + ((attempts window (attempts before (new_rate_limiter rate burst now)).0).0.last_time
            - (attempts before (new_rate_limiter rate burst now)).0.last_time)
          * rate
unfolding new_rate_limiter
granted-le rate burst now before window m n =
    let old = attempts-Attempted before (new_rate_limiter rate burst now) (omega arith) m in
    let new =
      attempts-Attempted window (attempts before (new_rate_limiter rate burst now)).0 old.within
        n in
    bounded old new
