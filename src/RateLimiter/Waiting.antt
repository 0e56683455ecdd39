-- ===== src/RateLimiter/Waiting.antt =====
-- How long `Wait` of pkg/positionmanager/ratelimiter.go goes on.
use dex_limit_order_manager.Prelude.{
  ℕ, ◌+◌, ◌-◌, ◌*◌, ◌/◌, ◌≤◌, ◌<◌, ◌≡◌, refl, ap, Bool, true, false, some, List, [], ◌∷◌, arith,
  Bool-cases, inl, inr,
}
use dex_limit_order_manager.Errors.{Result, ok}
use dex_limit_order_manager.RateLimiter.{
  RateLimiter, token, allow_call, waited, wait, wait_duration,
}

-- What the wait in the code comes to, rounded down, brings the tokens within a nanosecond's of one.
slept : (rate deficit : ℕ) → 0 < rate → deficit < deficit / rate * rate + rate
slept rate deficit h = grind arith

-- A refused attempt leaves less than one token, and all that has come in since.
refused :
    (t : ℕ) (rl : RateLimiter)
    → token ≤ rl.max_burst
    → (allow_call t rl).1 ≡ false
    → ((allow_call t rl).0.tokens ≡ rl.tokens + (t - rl.last_time) * rl.rate)
      × ((allow_call t rl).0.tokens < token)
      × ((allow_call t rl).0.rate ≡ rl.rate)
      × ((allow_call t rl).0.max_burst ≡ rl.max_burst)
      × ((allow_call t rl).0.last_time ≡ t)
unfolding allow_call
refused t rl big h = ground arith

waited-true :
    (a : RateLimiter × Bool) (rest : RateLimiter × Result (Unit {0}))
    → a.1 ≡ true
    → (waited a rest).1 ≡ ok tt
unfolding waited
waited-true (rl, true) rest h = refl
waited-true (rl, false) rest h = cc

waited-false :
    (a : RateLimiter × Bool) (rest : RateLimiter × Result (Unit {0}))
    → a.1 ≡ false
    → waited a rest ≡ rest
unfolding waited
waited-false (rl, true) rest h = cc
waited-false (rl, false) rest h = refl

-- An attempt that is refused although the tokens suffice: there is none.
full :
    (t : ℕ) (rl : RateLimiter)
    → token ≤ rl.max_burst
    → token ≤ rl.tokens + (t - rl.last_time) * rl.rate
    → (allow_call t rl).1 ≡ true
unfolding allow_call
full t rl big h = ground arith

times_mono : (a b r : ℕ) → a ≤ b → a * r ≤ b * r
times_mono a b r h = grind arith

-- A sleep that is a nanosecond short, and three nanoseconds more.
enough :
    (x y z q rate : ℕ)
    → 0 < rate
    → (token - x) / rate ≤ q + 1
    → q ≤ y
    → 3 ≤ z
    → token ≤ x + y * rate + z * rate
enough x y z q rate r near h k = omega (
  arith,
  slept rate (token - x) r,
  times_mono ((token - x) / rate) (y + 1) rate (omega (arith, near, h)),
  times_mono 3 z rate k,
)

-- After a refusal, a sleep of the length that the code computes, and three nanoseconds more.
third :
    (now t₁ t₂ q : ℕ) (rl : RateLimiter)
    → token ≤ rl.max_burst
    → 0 < rl.rate
    → (token - (allow_call now rl).0.tokens) / rl.rate ≤ q + 1
    → q ≤ t₁ - now
    → t₁ + 3 ≤ t₂
    → (allow_call now rl).1 ≡ false
    → (allow_call t₁ (allow_call now rl).0).1 ≡ false
    → (allow_call t₂ (allow_call t₁ (allow_call now rl).0).0).1 ≡ true
third now t₁ t₂ q rl big r near sleep later no₁ no₂ =
    let r₁ = (allow_call now rl).0 in
    let r₂ = (allow_call t₁ r₁).0 in
    let a = refused now rl big no₁ in
    let big₁ : token ≤ r₁.max_burst = omega (arith, a.3) in
    let b = refused t₁ r₁ big₁ no₂ in
    full t₂ r₂ (omega (arith, b.3)) (
      rw (b.4, b.2, b.0, a.4, a.2)
        (enough r₁.tokens (t₁ - now) (t₂ - t₁) q rl.rate r near sleep (omega (arith, later))))

last :
    (ts : List ℕ) (t : ℕ) (rl : RateLimiter) → (allow_call t rl).1 ≡ true → (wait t ts rl).1 ≡ ok tt
unfolding wait
last [] t rl y = waited-true (allow_call t rl) _ y
last (u ∷ us) t rl y = waited-true (allow_call t rl) _ y

allow_call-rate : (t : ℕ) (rl : RateLimiter) → (allow_call t rl).0.rate ≡ rl.rate
unfolding allow_call
allow_call-rate t rl = ground arith

-- A sleep that ends has been computed with some rate.
sleeps :
    (quotient : ℕ → ℕ → ℕ) (rl : RateLimiter) (d : ℕ)
    → wait_duration quotient rl ≡ some d
    → (0 < rl.rate) × (quotient (token - rl.tokens) rl.rate ≡ d)
unfolding wait_duration
sleeps quotient rl d h = ground arith

-- With a burst of a token or more, and a float64 quotient that is, for a deficit of a token or less, at
-- most a nanosecond short of the exact one, `Wait` returns without an error at its third attempt at the
-- latest, if the duration that it computes after the first is finite and its timer does not fire
-- earlier, its second timer fires three nanoseconds or more after the first, and nobody else takes a
-- token in between.
pub wait-returns :
    (quotient : ℕ → ℕ → ℕ)
    → ((a r : ℕ) → a ≤ token → 0 < r → a / r ≤ quotient a r + 1)
    → (now t₁ t₂ d : ℕ) (ts : List ℕ) (rl : RateLimiter) → token ≤ rl.max_burst
    → wait_duration quotient (allow_call now rl).0 ≡ some d
    → now + d ≤ t₁
    → t₁ + 3 ≤ t₂
    → (wait now (t₁ ∷ t₂ ∷ ts) rl).1 ≡ ok tt
unfolding wait
wait-returns quotient near now t₁ t₂ d ts rl big sleep fires later =
    let r₁ = (allow_call now rl).0 in
    let (some_, is_d) = sleeps quotient r₁ d sleep in
    let same : r₁.rate ≡ rl.rate = allow_call-rate now rl in
    let close : (token - r₁.tokens) / rl.rate ≤ d + 1 = omega (
      arith,
      is_d,
      near (token - r₁.tokens) r₁.rate (omega arith) some_,
      ap (λ r. (token - r₁.tokens) / r) same,
    ) in
    elim (Bool-cases (allow_call now rl).1) [
      | inl y₁ ↦ waited-true (allow_call now rl) _ y₁
      | inr no₁ ↦
          rw (waited-false (allow_call now rl) _ no₁)
            (elim (Bool-cases (allow_call t₁ (allow_call now rl).0).1) [
              | inl y₂ ↦ waited-true (allow_call t₁ (allow_call now rl).0) _ y₂
              | inr no₂ ↦ rw (waited-false (allow_call t₁ (allow_call now rl).0) _ no₂) (
                  last ts t₂ (allow_call t₁ (allow_call now rl).0).0 (
                    third now t₁ t₂ d rl big (omega (arith, some_, same)) close
                      (omega (arith, fires)) later no₁ no₂))
            ])
    ]
