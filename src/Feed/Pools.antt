-- ===== src/Feed/Pools.antt =====
-- `sqrtPriceX96ToPrice` of pkg/positionmanager/pricefeed_uniswapv3.go.
use dex_limit_order_manager.Prelude.{
  ℕ, ◌+◌, ◌*◌, ◌/◌, ◌^◌, ◌≤◌, ◌<◌, ◌≡◌, refl, subst, true, false, Option, none, some, arith,
  if◌then◌else◌, ne→==,
}
use native.Mathlib.Nat.{
  mul-le-mul, mul-le-mul_left, mul-lt-mul_of_pos_right, le_of_mul-le-mul_right,
  lt_of_mul-lt-mul_right, one-le-mul, one-le-pow, div-mul-le_self, lt-div-mul-add,
}
use dex_limit_order_manager.Prelude.Int.{pos}
use dex_limit_order_manager.Types.{TokenPair, pair_eq}
use dex_limit_order_manager.Errors.{ok}
use dex_limit_order_manager.Feed.{PoolConfig, sqrt_price_x96_to_price, quotient}

-- The configuration of one pool, for one pair.
abbrev pub single : TokenPair → PoolConfig → TokenPair → Option PoolConfig
single p c q = if pair_eq q p then some c else none

module _ (a b u v k : ℕ) (ha : 0 < a) (hb : 0 < b) where
  product-le : u * b ≤ a * k → v * a ≤ b * k → u * v ≤ k * k
  product-le hu hv =
      let e : u * b * (v * a) ≡ u * v * (a * b) = grind arith in
      let e' : a * k * (b * k) ≡ k * k * (a * b) = grind arith in
      le_of_mul-le-mul_right
        (subst (λ x. x ≤ k * k * (a * b)) e
          (subst (λ x. u * b * (v * a) ≤ x) e' (mul-le-mul hu hv)))
        (one-le-mul ha hb)

  product-lt : 0 < k → a * k < (u + 1) * b → b * k < (v + 1) * a → k * k < (u + 1) * (v + 1)
  product-lt hk hu hv =
      let e : (u + 1) * b * ((v + 1) * a) ≡ (u + 1) * (v + 1) * (a * b) = grind arith in
      let e' : a * k * (b * k) ≡ k * k * (a * b) = grind arith in
      let less : a * k * (b * k) < (u + 1) * b * (b * k) =
        mul-lt-mul_of_pos_right hu (one-le-mul hb hk) in
      let more : (u + 1) * b * (b * k) ≤ (u + 1) * b * ((v + 1) * a) =
        mul-le-mul_left ((u + 1) * b) (omega (arith, hv)) in
      lt_of_mul-lt-mul_right (a * b) (omega (arith, e, e', less, more))

reciprocal :
    (s t q u k : ℕ)
    → 0 < s * t
    → 0 < q * u
    → 0 < k
    → let p = s * k * t / (q * u) in
      let r = q * k * u / (s * t) in (p * r ≤ k * k) × (k * k < (p + 1) * (r + 1))
reciprocal s t q u k ha hb hk =
    let p = s * k * t / (q * u) in
    let r = q * k * u / (s * t) in
    let n : s * k * t ≡ s * t * k = grind arith in
    let m : q * k * u ≡ q * u * k = grind arith in
    let p_le : p * (q * u) ≤ s * t * k = omega (arith, n, div-mul-le_self (s * k * t) (q * u)) in
    let r_le : r * (s * t) ≤ q * u * k = omega (arith, m, div-mul-le_self (q * k * u) (s * t)) in
    let next_p : (p + 1) * (q * u) ≡ p * (q * u) + q * u = grind arith in
    let next_r : (r + 1) * (s * t) ≡ r * (s * t) + s * t = grind arith in
    let p_lt : s * t * k < (p + 1) * (q * u) =
      omega (arith, n, next_p, lt-div-mul-add {a = s * k * t} hb) in
    let r_lt : q * u * k < (r + 1) * (s * t) =
      omega (arith, m, next_r, lt-div-mul-add {a = q * k * u} ha) in
    (
      product-le (s * t) (q * u) p r k ha hb p_le r_le,
      product-lt (s * t) (q * u) p r k ha hb hk p_lt r_lt,
    )

quotient_pos : (n d : ℕ) → 0 < d → quotient n d ≡ ok (pos (n / d))
quotient_pos n d h = rw (ne→== d 0 (λ e. omega (arith, h, e))) refl

-- For a pool with a price: read in one direction and in the other, its price with 8 decimals is `p` and
-- `r`; their product is at most 10^16, and over that once both are raised by one unit.
pub prices-reciprocal :
    (x d0 d1 : ℕ)
    → 0 < x
    → (p : ℕ) × (r : ℕ) × (sqrt_price_x96_to_price x d0 d1 true ≡ ok (pos p))
      × (sqrt_price_x96_to_price x d0 d1 false ≡ ok (pos r))
      × (p * r ≤ 10 ^ 8 * 10 ^ 8)
      × (10 ^ 8 * 10 ^ 8 < (p + 1) * (r + 1))
unfolding sqrt_price_x96_to_price
prices-reciprocal x d0 d1 h =
    let a : 0 < x * x * 10 ^ d0 = one-le-mul (one-le-mul h h) (one-le-pow d0 10 (omega arith)) in
    let b : 0 < 2 ^ 192 * 10 ^ d1 = one-le-mul (omega arith) (one-le-pow d1 10 (omega arith)) in
    let bounds = reciprocal (x * x) (10 ^ d0) (2 ^ 192) (10 ^ d1) (10 ^ 8) a b (omega arith) in
    (
      x * x * 10 ^ 8 * 10 ^ d0 / (2 ^ 192 * 10 ^ d1),
      2 ^ 192 * 10 ^ 8 * 10 ^ d1 / (x * x * 10 ^ d0),
      quotient_pos (x * x * 10 ^ 8 * 10 ^ d0) (2 ^ 192 * 10 ^ d1) b,
      quotient_pos (2 ^ 192 * 10 ^ 8 * 10 ^ d1) (x * x * 10 ^ d0) a,
      bounds.0,
      bounds.1,
    )
