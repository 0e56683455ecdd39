-- ===== src/Executor/Gas.antt =====
-- The gas strategy of pkg/positionmanager/executor.go.
use dex_limit_order_manager.Prelude.{ℕ, ◌+◌, ◌/◌, ◌^◌, ◌<◌, ◌≡◌, refl, some, arith, if◌then◌else◌}
use dex_limit_order_manager.Prelude.Int.{ℤ, ◌≤ℤ◌, ◌*ℤ◌, ◌/ℤ◌, ltb_ℤ}
use dex_limit_order_manager.Types.{Priority}
use dex_limit_order_manager.Chain.{ExecutorConfig}
use dex_limit_order_manager.Executor.{gas_fees, gas_percent, apply_gas_buffer}

cap_within : (cap fee : ℤ) → (if ltb_ℤ cap fee then cap else fee) ≤ℤ cap
cap_within cap fee = ground arith

-- With a maximum gas price configured the fee cap never exceeds it, whatever the node suggests and
-- whatever the priority; the tip cap is not limited by it.
pub gas_fees-capped :
    (cfg : ExecutorConfig) (priority : Priority) (base_fee tip_cap cap : ℤ)
    → cfg.max_gas_price ≡ some cap
    → ((gas_fees cfg priority base_fee tip_cap).1 ≤ℤ cap)
      × ((gas_fees cfg priority base_fee tip_cap).0 ≡ tip_cap *ℤ gas_percent cfg priority /ℤ 100)
unfolding gas_fees
gas_fees-capped cfg priority base_fee tip_cap cap e = (rw e (cap_within cap _), refl)

-- The buffered gas limit is never under the estimate, and adds half of it for a stop-loss and a
-- fifth for a take-profit, for estimates under 2 ^ 61; beyond, the product wraps in uint64.
pub gas_buffer-bounds :
    (estimate : ℕ)
    → estimate < 2 ^ 61
    → (apply_gas_buffer estimate Priority.critical ≡ estimate + estimate / 2)
      × (apply_gas_buffer estimate Priority.normal ≡ estimate + estimate / 5)
unfolding apply_gas_buffer
gas_buffer-bounds estimate h = (omega arith, omega arith)
