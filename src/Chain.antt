-- ===== src/Chain.antt =====
-- What the executor of pkg/positionmanager/executor.go exchanges with the RPC client (chain.go) and
-- with go-ethereum: parameters of its methods, calls, transactions, receipts. The client acts on a
-- state `C` of its own. Gas multipliers are floats in ChainConfig: here they are
-- `int64(multiplier * 100)`, which is all that the code uses.
use dex_limit_order_manager.Prelude.{ℕ, Option, List}
use dex_limit_order_manager.Prelude.Int.{ℤ}
use dex_limit_order_manager.Types.{Priority}
use dex_limit_order_manager.Errors.{Result}

pub data ExecutionMode : Type 0 where
  legacy permit2_allowance permit2_signature : ExecutionMode

pub record ExecuteSwapParams : Type 0 where
  pub user : ℕ
  pub token_in : ℕ
  pub token_out : ℕ
  pub pool_fee : ℕ
  pub amount_in : ℤ
  pub min_amount_out : ℤ
  pub fee_bps : ℕ
  pub priority : Priority
  pub mode : ExecutionMode
  pub permit_nonce : Option ℤ
  pub permit_deadline : Option ℤ
  pub permit_signature : List ℕ

pub record ActivatePermitParams : Type 0 where
  pub user : ℕ
  pub token : ℕ
  pub amount : Option ℤ
  pub expiration : ℕ  -- uint64
  pub nonce : ℕ  -- uint64
  pub spender : ℕ
  pub sig_deadline : ℤ
  pub signature : List ℕ
  pub priority : Priority

-- A call of the contract, before the ABI packer.
pub data AbiCall : Type 0 where
  execute_swap_call :
      (user token_in token_out pool_fee : ℕ) (amount_in min_amount_out : ℤ) (fee_bps : ℕ) → AbiCall
  execute_swap_via_permit2 :
      (user token_in token_out pool_fee : ℕ) (amount_in min_amount_out : ℤ) (fee_bps : ℕ) → AbiCall
  execute_swap_with_signature :
      (user token_out pool_fee : ℕ) (min_amount_out : ℤ) (fee_bps token_in : ℕ) (amount_in : ℤ)
      (nonce deadline : Option ℤ) (signature : List ℕ)
      → AbiCall
  activate_permit_call :
      (user token : ℕ) (amount : Option ℤ) (expiration nonce spender : ℕ) (sig_deadline : ℤ)
      (signature : List ℕ)
      → AbiCall

pub record Tx : Type 0 where
  pub chain_id : ℕ
  pub nonce : ℕ
  pub gas_tip_cap : ℤ
  pub gas_fee_cap : ℤ
  pub gas : ℕ
  pub to : Option ℕ
  pub value : ℤ
  pub payload : List ℕ

pub record SignedTx : Type 0 where
  pub tx : Tx
  pub hash : ℕ

pub record Log : Type 0 where
  pub address : ℕ
  pub topics : List ℕ
  pub payload : List ℕ

pub record Receipt : Type 0 where
  pub status : ℕ
  pub logs : List Log

pub record CallMsg : Type 0 where
  pub from : ℕ
  pub to : ℕ
  pub gas_fee_cap : ℤ
  pub gas_tip_cap : ℤ
  pub payload : List ℕ

-- `ChainClient` (chain.go). `network_id` is its `ChainID`; `CallContract` is called with an address
-- and data only.
pub record ChainClient (C : Type 0) : Type 0 where
  pub send_transaction : C → SignedTx → Result (Unit {0}) × C
  pub suggest_gas_price : C → Result ℤ × C
  pub suggest_gas_tip_cap : C → Result ℤ × C
  pub pending_nonce_at : C → ℕ → Result ℕ × C
  pub estimate_gas : C → CallMsg → Result ℕ × C
  pub call_contract : C → ℕ → List ℕ → Result (List ℕ) × C
  pub network_id : C → Result ℤ × C
  pub transaction_receipt : C → ℕ → Result Receipt × C

-- What the executor calls of go-ethereum.
pub record Geth : Type 0 where
  pub pack : AbiCall → Result (List ℕ)
  pub sign_tx : Tx → Result SignedTx
  pub unmarshal_binary : List ℕ → Result SignedTx
  -- The ID of the event `SwapExecuted`, and its unpacked fields: an integer, or something else.
  pub swap_executed_id : ℕ
  pub unpack_swap_executed : List ℕ → Option (List (Option ℤ))

pub record ExecutorConfig : Type 0 where
  pub keeper_addr : ℕ
  pub executor_addr : ℕ
  pub chain_id : ℕ
  pub sl_gas_percent : ℤ
  pub tp_gas_percent : ℤ
  pub max_gas_price : Option ℤ
  pub permit2_address : ℕ
