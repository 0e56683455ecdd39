-- ===== src/Fees/Tests.antt =====
-- Fees and minimum outputs of pkg/positionmanager on concrete amounts.
use dex_limit_order_manager.Prelude.{◌≡◌, some, arith, ◌^◌}
use dex_limit_order_manager.Prelude.Int.{pos, ◌≤ℤ◌}
use dex_limit_order_manager.Fees.{
  FeeConfig, compute_fee_result, expected_out, compute_min_amount_out,
}
use dex_limit_order_manager.Fees.Bounds.{IsSplit, compute_fee_result-IsSplit}
use dex_limit_order_manager.Fees.Slippage.{min_out-within}

abbrev fee : FeeConfig
fee = record { fee_bps = 30; referrer_share = 2500; referrer = 9 }

compute_fee_result-IsSplit_example :
    IsSplit (pos 1000000) (compute_fee_result (pos 1000000) (some fee))
compute_fee_result-IsSplit_example =
    compute_fee_result-IsSplit (pos 1000000) (some fee) (omega arith) (λ c h. ground arith)

min_out-within_example :
    (compute_min_amount_out (pos 300000000000) (pos (10 ^ 18)) 50 18 6
      ≤ℤ expected_out (pos 300000000000) (pos (10 ^ 18)) 18 6)
    × (compute_min_amount_out (pos 300000000000) (pos (10 ^ 18)) 100 18 6
        ≤ℤ compute_min_amount_out (pos 300000000000) (pos (10 ^ 18)) 50 18 6)
    × (pos 0 ≤ℤ compute_min_amount_out (pos 300000000000) (pos (10 ^ 18)) 100 18 6)
    × (compute_min_amount_out (pos 300000000000) (pos (10 ^ 18)) 0 18 6
        ≡ expected_out (pos 300000000000) (pos (10 ^ 18)) 18 6)
min_out-within_example =
    min_out-within 300000000000 (10 ^ 18) 18 6 50 100 (omega arith) (omega arith)
