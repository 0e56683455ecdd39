-- ===== src/Executor.antt =====
-- pkg/positionmanager/executor.go: submitting transactions. The RPC client (chain.go), and the ABI
-- packing, signing and transaction decoding of go-ethereum, are parameters.
pub mod Tests
pub mod Nonces
pub mod Gas
pub mod Approve
use dex_limit_order_manager.Prelude.{
  ℕ, zero, suc, ◌+◌, ◌*◌, ◌/◌, ◌%◌, ◌^◌, ◌≡◌, Bool, true, false, not, ◌&&◌, ◌||◌, Option, none,
  some, List, [], ◌∷◌, ◌==◌, is_some, ltb, leb, if◌then◌else◌, length, take, drop, get_elem?,
}
use dex_limit_order_manager.Prelude.Int.{ℤ, pos, ◌+ℤ◌, ◌*ℤ◌, ◌/ℤ◌, ltb_ℤ, is_pos}
use dex_limit_order_manager.Types.{Priority}
use dex_limit_order_manager.Errors.{
  Error, Result, ok, err, from_option, require, context_done, tx_reverted, amount_exceeds_uint160,
  expiration_exceeds_uint48, nonce_exceeds_uint48, external, approve_no_to, approve_too_short,
  approve_selector, approve_spender, approve_value, acquiring_nonce,
}
use dex_limit_order_manager.CircuitBreaker.{
  CircuitBreaker, CircuitBreakerConfig, default_config, new_circuit_breaker,
}
use dex_limit_order_manager.Permit.{set_bytes}
use dex_limit_order_manager.Chain.{
  ExecutionMode, legacy, permit2_allowance, permit2_signature, ExecuteSwapParams,
  ActivatePermitParams, AbiCall, execute_swap_call, execute_swap_via_permit2,
  execute_swap_with_signature, activate_permit_call, Tx, SignedTx, Log, Receipt, CallMsg,
  ChainClient, Geth, ExecutorConfig,
}
use dex_limit_order_manager.Calldata.{swap_call, parse_amount_out_from_receipt}

pub record Executor (C : Type 0) : Type 0 where
  pub client : C
  pub circuit_breaker : CircuitBreaker
  pub next_nonce : ℕ  -- uint64
  pub nonce_init : Bool

abbrev pub u64 : ℕ → ℕ
u64 n = n % 2 ^ 64

-- A method of the executor: it acts on the executor and on the client, also when it fails.
abbrev pub Action : Type 0 → Type 0 → Type 0
Action C A = Executor C → Result A × Executor C

abbrev pub and_then :
    {C A B : Type 0} → Result A × Executor C → (A → Action C B) → Result B × Executor C
and_then (ok a, e) f = f a e
and_then (err x, e) f = (err x, e)

infixl 5 ◌>>=◌ ◌>>◌
abbrev pub ◌>>=◌ : {C A B : Type 0} → Action C A → (A → Action C B) → Action C B
◌>>=◌ m f e = and_then (m e) f

abbrev pub ◌>>◌ : {C B : Type 0} → Action C (Unit {0}) → Action C B → Action C B
m >> k = m >>= λ _. k

abbrev pub give : {C A : Type 0} → Result A → Action C A
give r e = (r, e)

-- A call of the client.
abbrev pub rpc : {C A : Type 0} → (C → Result A × C) → Action C A
rpc call e = let (r, c) = call e.client in (r, record e { client = c })

abbrev undo_if :
    {C A : Type 0} → Result A × Executor C → (Executor C → Executor C) → Result A × Executor C
undo_if (ok a, e) undo = (ok a, e)
undo_if (err x, e) undo = (err x, undo e)

-- On an error do something more, and return the error.
abbrev pub on_error : {C A : Type 0} → Action C A → (Executor C → Executor C) → Action C A
on_error m undo e = undo_if (m e) undo

abbrev relabelled : {C A : Type 0} → (Error → Error) → Result A × Executor C → Result A × Executor C
relabelled label (ok a, e) = (ok a, e)
relabelled label (err x, e) = (err (label x), e)

-- An error that is wrapped with a text.
abbrev pub wrap : {C A : Type 0} → (Error → Error) → Action C A → Action C A
wrap label m e = relabelled label (m e)

-- `newExecutor`: a breaker with the given bounds, or with the default ones if it has none.
unfoldable pub new_executor : {C : Type 0} → C → CircuitBreakerConfig → Executor C
unfolding new_circuit_breaker
new_executor client breaker = record {
  client = client;
  circuit_breaker =
      new_circuit_breaker (if is_pos breaker.max_failures then breaker else default_config);
  next_nonce = 0;
  nonce_init = false;
}

-- `applyGasBuffer`, in uint64.
unfoldable pub apply_gas_buffer : ℕ → Priority → ℕ
apply_gas_buffer estimate Priority.critical = u64 (estimate * 3) / 2
apply_gas_buffer estimate Priority.normal = u64 (estimate * 6) / 5

abbrev pub gas_percent : ExecutorConfig → Priority → ℤ
gas_percent cfg Priority.critical = cfg.sl_gas_percent
gas_percent cfg Priority.normal = cfg.tp_gas_percent

abbrev cap_fee : Option ℤ → ℤ → ℤ
cap_fee none fee = fee
cap_fee (some cap) fee = if ltb_ℤ cap fee then cap else fee

-- The tip and fee caps from the suggestions of the node.
unfoldable pub gas_fees : ExecutorConfig → Priority → ℤ → ℤ → ℤ × ℤ
unfolding ◌*ℤ◌ ◌+ℤ◌ ◌/ℤ◌
gas_fees cfg priority base_fee tip_cap =
    let mult = gas_percent cfg priority in
    let tip = tip_cap *ℤ mult /ℤ 100 in
    (tip, cap_fee cfg.max_gas_price (base_fee *ℤ mult /ℤ 100 +ℤ tip))

-- `rollbackNonce`.
unfoldable pub rollback_nonce : {C : Type 0} → ℕ → Executor C → Executor C
rollback_nonce nonce e = record e { next_nonce = nonce }

take_nonce : {C : Type 0} → Action C ℕ
take_nonce e = (ok e.next_nonce, record e { next_nonce = u64 (e.next_nonce + 1) })

set_nonce : {C : Type 0} → ℕ → Action C (Unit {0})
set_nonce n e = (ok tt, record e { next_nonce = n; nonce_init = true })

abbrev fits_uint160 : Option ℤ → Bool
fits_uint160 none = true
fits_uint160 (some a) = ltb_ℤ a (pos (2 ^ 160))

-- The four bytes of `approve(address,uint256)`, 0x095ea7b3.
abbrev pub has_selector : List ℕ → Bool
has_selector payload = set_bytes (take 4 payload) == 0x095ea7b3

-- A result stands; an error leads on.
retry_on_error :
    {C A : Type 0}
    → Result A × Executor C
    → (Executor C → Result A × Executor C)
    → Result A × Executor C
retry_on_error (ok a, e) again = (ok a, e)
retry_on_error (err x, e) again = again e

module _ {C : Type 0} (net : ChainClient C) (geth : Geth) (cfg : ExecutorConfig) where
  open net use {
    send_transaction, suggest_gas_price, suggest_gas_tip_cap, pending_nonce_at, estimate_gas,
    transaction_receipt,
  }

  -- `resyncNonce`.
  unfoldable pub resync_nonce : Action C (Unit {0})
  unfolding set_nonce
  resync_nonce = do n ← rpc (λ c. pending_nonce_at c cfg.keeper_addr); set_nonce n

  -- `acquireNonce`.
  unfoldable pub acquire_nonce : Action C ℕ
  unfolding resync_nonce take_nonce
  acquire_nonce e = if e.nonce_init then take_nonce e else (resync_nonce >> take_nonce) e

  -- `suggestGasFees`.
  unfoldable pub suggest_gas_fees : Priority → Action C (ℤ × ℤ)
  unfolding gas_fees
  suggest_gas_fees priority = do
    base_fee ← rpc suggest_gas_price
    tip_cap ← rpc suggest_gas_tip_cap
    give (ok (gas_fees cfg priority base_fee tip_cap))

  -- `waitForReceipt`: `ticks` is how often the ticker fires before the context is done.
  unfoldable pub wait_for_receipt : ℕ → ℕ → Action C Receipt
  unfolding retry_on_error
  wait_for_receipt zero hash e =
      retry_on_error (rpc (λ c. transaction_receipt c hash) e) (λ e'. (err context_done, e'))
  wait_for_receipt (suc ticks) hash e =
      retry_on_error (rpc (λ c. transaction_receipt c hash) e)
        (λ e'. wait_for_receipt ticks hash e')

  abbrev require_success : ℕ → Receipt → Action C (ℕ × Receipt)
  require_success hash receipt e =
      if receipt.status == 0 then (err tx_reverted, e) else (ok (hash, receipt), e)

  -- The unsigned transaction.
  abbrev pub transaction : List ℕ → ℤ → ℤ → ℕ → ℕ → Tx
  transaction calldata tip fee gas nonce = record {
    chain_id = cfg.chain_id;
    nonce = nonce;
    gas_tip_cap = tip;
    gas_fee_cap = fee;
    gas = gas;
    to = some cfg.executor_addr;
    value = pos 0;
    payload = calldata;
  }

  -- From `acquireNonce` to `SendTransaction`: sign and send under a fresh nonce, and roll it back
  -- if either fails.
  unfoldable pub sign_and_send : (ℕ → Tx) → Action C ℕ
  unfolding acquire_nonce rollback_nonce
  sign_and_send tx_with = do
    nonce ← wrap acquiring_nonce acquire_nonce
    signed ← on_error (give (geth.sign_tx (tx_with nonce))) (rollback_nonce nonce)
    on_error (rpc (λ c. send_transaction c signed)) (rollback_nonce nonce)
    give (ok signed.hash)

  -- The wait for the receipt, and its status.
  unfoldable pub confirm : ℕ → ℕ → Action C (ℕ × Receipt)
  unfolding wait_for_receipt
  confirm ticks hash = do receipt ← wait_for_receipt ticks hash; require_success hash receipt

  -- `EstimateGas` for a call of the contract, with the buffer.
  unfoldable pub estimate : List ℕ → ℤ → ℤ → Priority → Action C ℕ
  unfolding apply_gas_buffer
  estimate calldata tip fee priority = do
    gas ← rpc (λ c. estimate_gas c (record {
      from = cfg.keeper_addr;
      to = cfg.executor_addr;
      gas_fee_cap = fee;
      gas_tip_cap = tip;
      payload = calldata;
    }))
    give (ok (apply_gas_buffer gas priority))

  -- The rest of a submission, from the fees on.
  unfoldable pub submit_at : ℕ → List ℕ → Priority → ℤ × ℤ → Action C (ℕ × Receipt)
  unfolding estimate sign_and_send confirm
  submit_at ticks calldata priority fees = do
    gas ← estimate calldata fees.0 fees.1 priority
    hash ← sign_and_send (transaction calldata fees.0 fees.1 gas)
    confirm ticks hash

  -- From the packed calldata to the receipt: what `executeSwap` and `activatePermit` share.
  unfoldable pub submit : ℕ → List ℕ → Priority → Action C (ℕ × Receipt)
  unfolding suggest_gas_fees submit_at
  submit ticks calldata priority = do
    fees ← suggest_gas_fees priority
    submit_at ticks calldata priority fees

  -- `executeSwap`.
  unfoldable pub execute_swap : ℕ → ExecuteSwapParams → Action C (ℕ × Receipt)
  unfolding swap_call submit
  execute_swap ticks p = do
    calldata ← give (geth.pack (swap_call p))
    submit ticks calldata p.priority

  -- `activatePermit`, with the bounds of the Permit2 types.
  unfoldable pub activate_permit : ℕ → ActivatePermitParams → Action C (ℕ × Receipt)
  unfolding submit
  activate_permit ticks p = do
    give (require (fits_uint160 p.amount) amount_exceeds_uint160)
    give (require (ltb p.expiration (2 ^ 48)) expiration_exceeds_uint48)
    give (require (ltb p.nonce (2 ^ 48)) nonce_exceeds_uint48)
    calldata ← give (
        geth.pack (
          activate_permit_call p.user p.token p.amount p.expiration p.nonce p.spender p.sig_deadline
            p.signature))
    submit ticks calldata p.priority

  -- The checks of `broadcastSignedApproveTx` before anything is sent.
  unfoldable pub check_approve : SignedTx → Result (Unit {0})
  unfolding set_bytes
  check_approve signed =
      if not (is_some signed.tx.to)
      then err approve_no_to
      else if ltb (length signed.tx.payload) 68
      then err approve_too_short
      else if not (has_selector signed.tx.payload)
      then err approve_selector
      else if not (set_bytes (take 20 (drop 16 signed.tx.payload)) == cfg.permit2_address)
      then err approve_spender
      else if is_pos signed.tx.value
      then err approve_value
      else ok tt

  -- `broadcastSignedApproveTx`.
  unfoldable pub broadcast_signed_approve_tx : ℕ → List ℕ → Action C (ℕ × Receipt)
  unfolding check_approve confirm
  broadcast_signed_approve_tx ticks signed_tx_bytes = do
    signed ← give (geth.unmarshal_binary signed_tx_bytes)
    give (check_approve signed)
    rpc (λ c. send_transaction c signed)
    confirm ticks signed.hash
