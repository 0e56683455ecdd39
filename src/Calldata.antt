-- ===== src/Calldata.antt =====
-- pkg/positionmanager/executor.go: which contract call a swap is, and what its logs say.
use dex_limit_order_manager.Prelude.{
  ℕ, Bool, false, ◌&&◌, Option, none, some, List, [], ◌∷◌, ◌==◌, if◌then◌else◌,
}
use dex_limit_order_manager.Prelude.Int.{ℤ}
use dex_limit_order_manager.Chain.{
  ExecutionMode, legacy, permit2_allowance, permit2_signature, ExecuteSwapParams, AbiCall,
  execute_swap_call, execute_swap_via_permit2, execute_swap_with_signature, Log, Receipt, Geth,
}

call_in : ExecutionMode → ExecuteSwapParams → AbiCall
call_in legacy p =
    execute_swap_call p.user p.token_in p.token_out p.pool_fee p.amount_in p.min_amount_out
      p.fee_bps
call_in permit2_allowance p =
    execute_swap_via_permit2 p.user p.token_in p.token_out p.pool_fee p.amount_in p.min_amount_out
      p.fee_bps
call_in permit2_signature p =
    execute_swap_with_signature p.user p.token_out p.pool_fee p.min_amount_out p.fee_bps p.token_in
      p.amount_in p.permit_nonce p.permit_deadline p.permit_signature

-- `packSwapCalldata`, up to the packer.
unfoldable pub swap_call : ExecuteSwapParams → AbiCall
unfolding call_in
swap_call p = call_in p.mode p

-- `len(log.Topics) == 0 || log.Topics[0] != id`, negated.
abbrev first_is : List ℕ → ℕ → Bool
first_is [] id = false
first_is (t ∷ ts) id = t == id

-- The second field, if there are two and it is an integer.
abbrev second : Option (List (Option ℤ)) → Option ℤ
second none = none
second (some []) = none
second (some (a ∷ [])) = none
second (some (a ∷ b ∷ rest)) = b

abbrev or_else : Option ℤ → Option ℤ → Option ℤ
or_else none later = later
or_else (some a) later = some a

amount_in_logs : Geth → ℕ → List Log → Option ℤ
amount_in_logs geth addr [] = none
amount_in_logs geth addr (log ∷ logs) =
    let later = amount_in_logs geth addr logs in
    if log.address == addr && first_is log.topics geth.swap_executed_id
    then or_else (second (geth.unpack_swap_executed log.payload)) later
    else later

-- `parseAmountOutFromReceipt`.
unfoldable pub parse_amount_out_from_receipt : Geth → Receipt → ℕ → Option ℤ
unfolding amount_in_logs
parse_amount_out_from_receipt geth receipt executor_addr =
    amount_in_logs geth executor_addr receipt.logs
