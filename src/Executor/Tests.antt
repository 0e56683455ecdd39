-- ===== src/Executor/Tests.antt =====
-- The executor of pkg/positionmanager/executor.go on a node and a library that answer every call.
use dex_limit_order_manager.Prelude.{
  ℕ, zero, suc, ◌+◌, ◌≡◌, ◌⊎◌, ◌↔◌, refl, true, some, List, [], ◌∷◌, ◌++◌,
}
use dex_limit_order_manager.Prelude.Int.{ℤ, pos}
use dex_limit_order_manager.Types.{Priority}
use dex_limit_order_manager.Errors.{Error, ok, err}
use dex_limit_order_manager.CircuitBreaker.{new_circuit_breaker, default_config}
use dex_limit_order_manager.Chain.{ChainClient, Geth, ExecutorConfig, Tx, SignedTx, Log}
use dex_limit_order_manager.Calldata.{parse_amount_out_from_receipt}
use dex_limit_order_manager.Executor.{
  Executor, u64, sign_and_send, submit, check_approve, broadcast_signed_approve_tx,
}
use dex_limit_order_manager.Executor.Nonces.{sign_and_send-nonce, Sends, submit-nonce}
use dex_limit_order_manager.Executor.Approve.{IsApprove, check_approve_iff, broadcast-checked}

abbrev pub client : ChainClient (Unit {0})
client = record {
  send_transaction = λ c t. (ok tt, c);
  suggest_gas_price = λ c. (ok (pos 100), c);
  suggest_gas_tip_cap = λ c. (ok (pos 2), c);
  pending_nonce_at = λ c addr. (ok 5, c);
  estimate_gas = λ c msg. (ok 21000, c);
  call_contract = λ c to calldata. (ok [], c);
  network_id = λ c. (ok (pos 137), c);
  transaction_receipt = λ c hash. (ok (record { status = 1; logs = [] }), c);
}

abbrev zeros : ℕ → List ℕ
zeros zero = []
zeros (suc n) = 0 ∷ zeros n

-- `approve` of the spender 9 with no amount.
abbrev approve : Tx
approve = record {
  chain_id = 137;
  nonce = 0;
  gas_tip_cap = pos 2;
  gas_fee_cap = pos 100;
  gas = 50000;
  to = some 6;
  value = pos 0;
  payload = 0x09 ∷ 0x5e ∷ 0xa7 ∷ 0xb3 ∷ (zeros 31 ++ (9 ∷ zeros 32));
}

abbrev signed_approve : SignedTx
signed_approve = record { tx = approve; hash = 77 }

abbrev pub geth : Geth
geth = record {
  pack = λ call. ok [];
  sign_tx = λ t. ok (record { tx = t; hash = t.nonce });
  unmarshal_binary = λ bytes. ok signed_approve;
  swap_executed_id = 11;
  unpack_swap_executed = λ bytes. some (some (pos 1) ∷ some (pos 42) ∷ []);
}

abbrev pub cfg : ExecutorConfig
cfg = record {
  keeper_addr = 1;
  executor_addr = 2;
  chain_id = 137;
  sl_gas_percent = pos 150;
  tp_gas_percent = pos 120;
  max_gas_price = some (pos 120);
  permit2_address = 9;
}

abbrev pub executor : Executor (Unit {0})
executor = record {
  client = tt;
  circuit_breaker = new_circuit_breaker default_config;
  next_nonce = 5;
  nonce_init = true;
}

approve_passes : check_approve client geth cfg signed_approve ≡ ok tt
unfolding check_approve
approve_passes = refl

submit_nonce : (submit client geth cfg 3 [] Priority.critical executor).1.next_nonce ≡ 6
unfolding submit
submit_nonce = refl

abbrev swap_log : Log
swap_log = record { address = 2; topics = 11 ∷ []; payload = [] }

amount_parsed :
    parse_amount_out_from_receipt geth
      (record { status = 1; logs = record swap_log { address = 3 } ∷ swap_log ∷ [] })
      2
    ≡ some (pos 42)
unfolding parse_amount_out_from_receipt
amount_parsed = refl

abbrev tx_with : ℕ → Tx
tx_with n = record approve { nonce = n }

sign_and_send-nonce_example :
    let r = sign_and_send client geth cfg tx_with executor in
    ((signed : SignedTx) × (geth.sign_tx (tx_with executor.next_nonce) ≡ ok signed)
      × ((client.send_transaction executor.client signed).0 ≡ ok tt)
      × (r.0 ≡ ok signed.hash)
      × (r.1.next_nonce ≡ u64 (executor.next_nonce + 1)))
    ⊎ ((x : Error) × (r.0 ≡ err x) × (r.1.next_nonce ≡ executor.next_nonce))
sign_and_send-nonce_example = sign_and_send-nonce client geth cfg tx_with executor refl

submit-nonce_example :
    let r = submit client geth cfg 3 [] Priority.critical executor in
    ((x : Error) × (r.0 ≡ err x) × (r.1.next_nonce ≡ executor.next_nonce))
    ⊎ ((fees : ℤ × ℤ) × (gas : ℕ) × (signed : SignedTx) × Sends client geth cfg 3 []
          Priority.critical executor fees gas signed)
submit-nonce_example = submit-nonce client geth cfg 3 [] Priority.critical executor refl

check_approve_iff_example :
    (check_approve client geth cfg signed_approve ≡ ok tt) ↔ IsApprove cfg signed_approve
check_approve_iff_example = check_approve_iff client geth cfg signed_approve

broadcast-checked_example :
    ((t : SignedTx) × (geth.unmarshal_binary [] ≡ ok t) × IsApprove cfg t)
    ⊎ ((x : Error) × (broadcast_signed_approve_tx client geth cfg 3 [] executor
          ≡ (err x, executor)))
broadcast-checked_example = broadcast-checked client geth cfg 3 [] executor
