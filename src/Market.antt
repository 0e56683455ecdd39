-- ===== src/Market.antt =====
-- `MarketSwap` of pkg/positionmanager/manager.go: a swap at once, without the trigger engine. It does
-- not ask the circuit breaker, nor tell it the outcome.
use dex_limit_order_manager.Prelude.{ℕ, Bool, Option, none, some, List, [], if◌then◌else◌}
use dex_limit_order_manager.Prelude.Int.{ℤ}
use dex_limit_order_manager.Types.{TokenPair, Priority}
use dex_limit_order_manager.Errors.{Result, ok, from_option, nil_pointer}
use dex_limit_order_manager.Fees.{FeeConfig, FeeResult, compute_fee_result, compute_min_amount_out}
use dex_limit_order_manager.Chain.{
  legacy, permit2_signature, ExecuteSwapParams, Receipt, ChainClient, Geth, ExecutorConfig,
}
use dex_limit_order_manager.Calldata.{parse_amount_out_from_receipt}
use dex_limit_order_manager.Executor.{
  Action, give, ◌>>=◌, ◌>>◌, execute_swap, broadcast_signed_approve_tx,
}
use dex_limit_order_manager.Open.{is_empty, or_default}
use dex_limit_order_manager.Execute.{fee_bps_of}

pub record MarketSwapParams : Type 0 where
  pub owner : ℕ
  pub token_in : ℕ
  pub token_out : ℕ
  pub amount_in : Option ℤ
  pub chain_id : ℕ
  pub pool_fee : ℕ
  pub decimals_in : ℕ  -- uint8
  pub decimals_out : ℕ  -- uint8
  pub slippage_bps : ℕ  -- uint16
  pub permit_signature : List ℕ
  pub permit_nonce : Option ℤ
  pub permit_deadline : ℤ
  pub signed_approve_tx : List ℕ
  pub native_eth : Bool

pub record SwapResult : Type 0 where
  pub tx_hash : ℕ
  pub amount_in : ℤ
  pub amount_out : ℤ
  pub fee : FeeResult

-- The pair whose price bounds the output.
abbrev pub market_pair : MarketSwapParams → TokenPair
market_pair p = record { base = p.token_in; quote = p.token_out; chain_id = p.chain_id }

abbrev pub market_min_out : MarketSwapParams → ℤ → ℤ → ℤ
market_min_out p price amount =
    compute_min_amount_out price amount p.slippage_bps p.decimals_in p.decimals_out

-- With a signature the tokens are taken by it, else by the allowance of the contract.
abbrev pub market_params : MarketSwapParams → Option FeeConfig → ℤ → ℤ → ExecuteSwapParams
market_params p fee price amount =
    let unsigned = is_empty p.permit_signature in
    record {
      user = p.owner;
      token_in = p.token_in;
      token_out = p.token_out;
      pool_fee = p.pool_fee;
      amount_in = amount;
      min_amount_out = market_min_out p price amount;
      fee_bps = fee_bps_of fee;
      priority = Priority.normal;
      mode = if unsigned then legacy else permit2_signature;
      permit_nonce = if unsigned then none else p.permit_nonce;
      permit_deadline = if unsigned then none else some p.permit_deadline;
      permit_signature = if unsigned then [] else p.permit_signature;
    }

module _ {C : Type 0} (net : ChainClient C) (geth : Geth) (cfg : ExecutorConfig)
    (fees : ℕ → Result (Option FeeConfig)) (latest : TokenPair → Result ℤ) where
  market_approve : ℕ → MarketSwapParams → Action C (Unit {0})
  unfolding broadcast_signed_approve_tx
  market_approve ticks p =
      if is_empty p.signed_approve_tx
      then give (ok tt)
      else broadcast_signed_approve_tx net geth cfg ticks p.signed_approve_tx >>= λ r. give (ok tt)

  -- What the host is told, from the receipt or else from the bound on the output.
  swap_result : MarketSwapParams → Option FeeConfig → ℤ → ℤ → ℕ × Receipt → SwapResult
  unfolding parse_amount_out_from_receipt compute_fee_result compute_min_amount_out
  swap_result p fee price amount (tx_hash, receipt) = record {
    tx_hash = tx_hash;
    amount_in = amount;
    amount_out =
        or_default (parse_amount_out_from_receipt geth receipt cfg.executor_addr)
          (market_min_out p price amount);
    fee = compute_fee_result amount fee;
  }

  -- `MarketSwap`, on the executor of a chain that is configured.
  unfoldable pub market_swap : ℕ → ℕ → MarketSwapParams → Action C SwapResult
  unfolding market_approve execute_swap swap_result
  market_swap approve_ticks swap_ticks p = do
    market_approve approve_ticks p
    fee ← give (fees p.owner)
    price ← give (latest (market_pair p))
    amount ← give (from_option p.amount_in nil_pointer)
    done ← execute_swap net geth cfg swap_ticks (market_params p fee price amount)
    give (ok (swap_result p fee price amount done))
