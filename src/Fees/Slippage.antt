-- ===== src/Fees/Slippage.antt =====
-- The slippage bound of `computeMinAmountOut`, pkg/positionmanager/executor.go.
use dex_limit_order_manager.Prelude.{ℕ, ◌-◌, ◌*◌, ◌/◌, ◌^◌, ◌≤◌, ◌<◌, ◌≡◌, ap, arith}
use dex_limit_order_manager.Prelude.Int.{pos, ◌≤ℤ◌}
use dex_limit_order_manager.Fees.{expected_out, kept_bps, compute_min_amount_out}
use dex_limit_order_manager.Fees.Bounds.{pos-*ℤ}

kept_bps-exact : (s : ℕ) → s ≤ 10000 → kept_bps s ≡ 10000 - s
unfolding kept_bps
kept_bps-exact s h = omega arith

kept_bps-wraps : (s : ℕ) → 10000 < s → s < 2 ^ 16 → 10000 < kept_bps s
unfolding kept_bps
kept_bps-wraps s h k = omega arith

module _ (p a i o : ℕ) where
  pub expected_out_pos : expected_out (pos p) (pos a) i o ≡ pos (a * p * 10 ^ o / (10 ^ i * 10 ^ 8))
  unfolding expected_out
  expected_out_pos = rw (pos-*ℤ a p, pos-*ℤ (a * p) (10 ^ o))

  pub min_out_pos :
      (s : ℕ)
      → compute_min_amount_out (pos p) (pos a) s i o
        ≡ pos (a * p * 10 ^ o / (10 ^ i * 10 ^ 8) * kept_bps s / 10000)
  unfolding compute_min_amount_out
  min_out_pos s = rw (expected_out_pos, pos-*ℤ (a * p * 10 ^ o / (10 ^ i * 10 ^ 8)) (kept_bps s))

kept_le : (x k : ℕ) → k ≤ 10000 → x * k / 10000 ≤ x
kept_le x k h = grind arith

kept_ge : (x k : ℕ) → 10000 ≤ k → x ≤ x * k / 10000
kept_ge x k h = grind arith

kept_mono : (x k m : ℕ) → k ≤ m → x * k / 10000 ≤ x * m / 10000
kept_mono x k m h = grind arith

-- For prices and amounts of at least zero: a slippage of at most 10000 bps keeps the minimum
-- between zero and the expected output, none keeps all of it, and more slippage never raises it.
pub min_out-within :
    (p a i o s t : ℕ)
    → s ≤ t
    → t ≤ 10000
    → (compute_min_amount_out (pos p) (pos a) s i o ≤ℤ expected_out (pos p) (pos a) i o)
      × (compute_min_amount_out (pos p) (pos a) t i o
          ≤ℤ compute_min_amount_out (pos p) (pos a) s i o)
      × (pos 0 ≤ℤ compute_min_amount_out (pos p) (pos a) t i o)
      × (compute_min_amount_out (pos p) (pos a) 0 i o ≡ expected_out (pos p) (pos a) i o)
min_out-within p a i o s t h k =
    let x = a * p * 10 ^ o / (10 ^ i * 10 ^ 8) in
    rw
      (
        min_out_pos p a i o s,
        min_out_pos p a i o t,
        min_out_pos p a i o 0,
        expected_out_pos p a i o,
      )
      (rw (kept_bps-exact s (omega arith), kept_bps-exact t k, kept_bps-exact 0 (omega arith))
        (
          omega (arith, kept_le x (10000 - s) (omega arith)),
          omega (arith, kept_mono x (10000 - t) (10000 - s) (omega arith)),
          omega arith,
          ap pos (omega arith),
        ))

-- A slippage over 10000 bps is not refused: the uint16 subtraction wraps, and the minimum is the
-- expected output or more, so that only a swap at that price or a better one can pass.
pub min_out-wraps :
    (p a i o s : ℕ)
    → 10000 < s
    → s < 2 ^ 16
    → expected_out (pos p) (pos a) i o ≤ℤ compute_min_amount_out (pos p) (pos a) s i o
min_out-wraps p a i o s h k =
    rw (min_out_pos p a i o s, expected_out_pos p a i o)
      (omega (
        arith,
        kept_ge (a * p * 10 ^ o / (10 ^ i * 10 ^ 8)) (kept_bps s)
            (omega (arith, kept_bps-wraps s h k)),
      ))
