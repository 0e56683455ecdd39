-- ===== src/Fees.antt =====
-- Amounts: pkg/positionmanager/bps.go, fees.go, and `computeMinAmountOut` of executor.go.
-- A uint16 is a number under 2 ^ 16; only the subtraction from 10000 can leave that range, and it
-- wraps as in Go.
pub mod Tests
pub mod Bounds
pub mod Slippage
use dex_limit_order_manager.Prelude.{
  ℕ, ◌+◌, ◌-◌, ◌*◌, ◌/◌, ◌%◌, ◌^◌, ◌≡◌, Bool, true, false, not, ◌&&◌, ◌||◌, Option, none, some,
  arith, ◌==◌, ltb, if◌then◌else◌,
}
use dex_limit_order_manager.Prelude.Int.{ℤ, pos, ◌*ℤ◌, ◌-ℤ◌, ◌/ℤ◌}

-- `mulBps`.
unfoldable pub mul_bps : ℤ → ℕ → ℤ
unfolding ◌*ℤ◌ ◌/ℤ◌
mul_bps amount bps = amount *ℤ pos bps /ℤ 10000

pub record FeeConfig : Type 0 where
  pub fee_bps : ℕ  -- uint16
  pub referrer_share : ℕ  -- uint16
  pub referrer : ℕ

pub record FeeResult : Type 0 where
  pub total_fee : ℤ
  pub platform_share : ℤ
  pub referral_share : ℤ
  pub referrer : ℕ
  pub fee_bps : ℕ

abbrev pub no_fee : FeeResult
no_fee = record {
  total_fee = pos 0;
  platform_share = pos 0;
  referral_share = pos 0;
  referrer = 0;
  fee_bps = 0;
}

split_fee : ℤ → FeeConfig → FeeResult
unfolding mul_bps
split_fee amount_in cfg =
    let total = mul_bps amount_in cfg.fee_bps in
    let referral =
      if ltb 0 cfg.referrer_share && not (cfg.referrer == 0)
      then mul_bps total cfg.referrer_share
      else pos 0 in
    record {
      total_fee = total;
      platform_share = total -ℤ referral;
      referral_share = referral;
      referrer = cfg.referrer;
      fee_bps = cfg.fee_bps;
    }

-- `computeFeeResult`; a nil configuration is `none`.
unfoldable pub compute_fee_result : ℤ → Option FeeConfig → FeeResult
unfolding split_fee
compute_fee_result amount_in none = no_fee
compute_fee_result amount_in (some cfg) =
    if cfg.fee_bps == 0 then no_fee else split_fee amount_in cfg

-- `expectedOut`: the price has 8 decimals.
unfoldable pub expected_out : ℤ → ℤ → ℕ → ℕ → ℤ
unfolding ◌*ℤ◌ ◌/ℤ◌
expected_out trigger_price amount_in decimals_in decimals_out =
    amount_in *ℤ trigger_price *ℤ pos (10 ^ decimals_out) /ℤ (10 ^ decimals_in * 10 ^ 8)

-- `10000 - slippageBps` in uint16.
unfoldable pub kept_bps : ℕ → ℕ
kept_bps slippage_bps = (10000 + 2 ^ 16 - slippage_bps) % 2 ^ 16

-- `computeMinAmountOut`.
unfoldable pub compute_min_amount_out : ℤ → ℤ → ℕ → ℕ → ℕ → ℤ
unfolding expected_out kept_bps ◌*ℤ◌ ◌/ℤ◌
compute_min_amount_out trigger_price amount_in slippage_bps decimals_in decimals_out =
    expected_out trigger_price amount_in decimals_in decimals_out
    *ℤ pos (kept_bps slippage_bps)
    /ℤ 10000
