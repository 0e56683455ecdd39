-- ===== src/Execute.antt =====
-- `executeTrigger` of pkg/positionmanager/manager.go: from a trigger event to the swap and the
-- record of it. The lock on the position makes it one step among the executions of the position; the
-- host's calls do not take that lock. Each reading of the clock is an argument.
pub mod Tests
pub mod Stages
pub mod Walk
pub mod Agreement
pub mod Once
use dex_limit_order_manager.Prelude.{
  ℕ, ◌+◌, ◌≡◌, Bool, true, false, not, ◌&&◌, Option, none, some, List, [], ◌∷◌, ◌==◌, if◌then◌else◌,
  length, get_elem?,
}
use dex_limit_order_manager.Prelude.Int.{ℤ, pos, is_pos, leb_ℤ}
use dex_limit_order_manager.Types.{
  Position, PositionState, Level, LevelType, Direction, Priority, is_terminal, is_active, is_sl,
  is_long, pair_of,
}
use dex_limit_order_manager.Errors.{
  Error, Result, ok, err, external, acquiring_nonce, nonce_exceeds_uint48, nil_pointer, no_executor,
  circuit_open, permit_expired,
}
use dex_limit_order_manager.Fees.{FeeConfig, FeeResult, compute_fee_result, compute_min_amount_out}
use dex_limit_order_manager.Permit.{int64_of}
use dex_limit_order_manager.CircuitBreaker.{
  CircuitBreaker, Verdict, allowed, err_circuit_open, allow, record_success, record_failure,
}
use dex_limit_order_manager.Chain.{
  ExecutionMode, legacy, permit2_allowance, ExecuteSwapParams, ActivatePermitParams, Receipt,
  ChainClient, Geth, ExecutorConfig,
}
use dex_limit_order_manager.Calldata.{parse_amount_out_from_receipt}
use dex_limit_order_manager.Executor.{Executor, execute_swap, activate_permit, resync_nonce}
use dex_limit_order_manager.Trigger.{TriggerEvent, TriggerEngine, register}
use dex_limit_order_manager.Store.{Store}
use dex_limit_order_manager.Manager.{Core, persist, suspend_position_levels}
use dex_limit_order_manager.Open.{is_empty, uint64_of, nonce_of, or_default}
use dex_limit_order_manager.Settlement.{
  Settlement, compute_amount, swap_tokens, settle, update_triggers,
}
use dex_limit_order_manager.Retry.{store_update_with_retry}

pub record ErrorEvent : Type 0 where
  pub position_id : ℕ
  pub level_index : ℕ
  pub chain_id : ℕ
  pub error : Error
  pub retryable : Bool

pub record ExecutionEvent : Type 0 where
  pub position_id : ℕ
  pub owner : ℕ
  pub chain_id : ℕ
  pub level_index : ℕ
  pub level_type : LevelType
  pub direction : Direction
  pub token_in : ℕ
  pub token_out : ℕ
  pub amount_in : ℤ
  pub amount_out : ℤ
  pub exec_price : ℤ
  pub tx_hash : ℕ
  pub fee : FeeResult
  pub remaining_size : ℤ
  pub position_state : PositionState
  pub sl_moved_to : ℤ

-- What the host is told: nothing, errors, or an execution. `panicked` ends the program.
pub data Outcome : Type 0 where
  ignored : Outcome
  failed : List ErrorEvent → Outcome
  executed : ExecutionEvent → Outcome
  panicked : Error → Outcome

-- A chain's entry of `m.cfg.Chains`, as far as an execution reads it.
pub record ChainSettings : Type 0 where
  pub executor : ExecutorConfig
  pub sl_slippage_bps : ℕ
  pub tp_slippage_bps : ℕ

-- The clock (in nanoseconds for the breaker, in seconds else), and how long the context lasts.
pub record Timing : Type 0 where
  pub asked_at : ℤ
  pub checked_at : ℤ
  pub suspended_at : ℤ
  pub activated_at : ℤ
  pub failed_at : ℤ
  pub settled_at : ℤ
  pub activation_ticks : ℕ
  pub swap_ticks : ℕ
  pub stopped : ℕ → Bool

-- The core of the manager, and the executor of each chain.
pub record World (S C : Type 0) : Type 0 where
  pub core : Core S
  pub execs : ℕ → Executor C

-- What an execution works on: the position, its level, the event and what was looked up.
pub record Job : Type 0 where
  pub position : Position
  pub level : Level
  pub event : TriggerEvent
  pub settings : ChainSettings
  pub fee : Option FeeConfig

-- `strings.Contains(err.Error(), "nonce")`, given which foreign errors have the word.
abbrev pub mentions_nonce : (ℕ → Bool) → Error → Bool
mentions_nonce says (external n) = says n
mentions_nonce says (acquiring_nonce x) = true
mentions_nonce says nonce_exceeds_uint48 = true
mentions_nonce says x = false

abbrev pub fee_bps_of : Option FeeConfig → ℕ
fee_bps_of none = 0
fee_bps_of (some c) = c.fee_bps

abbrev pub priority_of : LevelType → Priority
priority_of t = if is_sl t then Priority.critical else Priority.normal

-- `computeMinAmountOut` with the slippage of the level's type and the decimals of the direction.
unfoldable pub min_amount_out : Job → ℤ
unfolding compute_amount compute_min_amount_out
min_amount_out j =
    let p = j.position in
    let slippage =
      if is_sl j.level.level_type then j.settings.sl_slippage_bps else j.settings.tp_slippage_bps in
    let decimals_in = if is_long p.direction then p.decimals_base else p.decimals_quote in
    let decimals_out = if is_long p.direction then p.decimals_quote else p.decimals_base in
    compute_min_amount_out j.level.trigger_price (compute_amount p j.level) slippage decimals_in
      decimals_out

unfoldable pub swap_params : Job → ExecutionMode → ExecuteSwapParams
unfolding min_amount_out swap_tokens compute_amount
swap_params j mode = record {
  user = j.position.owner;
  token_in = (swap_tokens j.position).0;
  token_out = (swap_tokens j.position).1;
  pool_fee = j.position.pool_fee;
  amount_in = compute_amount j.position j.level;
  min_amount_out = min_amount_out j;
  fee_bps = fee_bps_of j.fee;
  priority = priority_of j.level.level_type;
  mode = mode;
  permit_nonce = none;
  permit_deadline = none;
  permit_signature = [];
}

unfoldable pub activation_params : Job → ActivatePermitParams
activation_params j = record {
  user = j.position.owner;
  token = j.position.permit_token;
  amount = j.position.permit_amount;
  expiration = uint64_of j.position.permit_deadline;
  nonce = nonce_of j.position.permit_nonce;
  spender = j.settings.executor.executor_addr;
  sig_deadline = j.position.permit_deadline;
  signature = j.position.permit_signature;
  priority = priority_of j.level.level_type;
}

abbrev pub error_event : TriggerEvent → Error → Bool → ErrorEvent
error_event evt x retryable = record {
  position_id = evt.position_id;
  level_index = evt.level_index;
  chain_id = evt.chain_id;
  error = x;
  retryable = retryable;
}

-- An event about the position as a whole, which leaves the level out.
abbrev pub position_event : ℕ → ℕ → Error → ErrorEvent
position_event id chain x = record {
  position_id = id;
  level_index = 0;
  chain_id = chain;
  error = x;
  retryable = false;
}

unfoldable pub execution_event : Geth → Job → ℕ → Receipt → Settlement → ExecutionEvent
unfolding min_amount_out swap_tokens compute_amount parse_amount_out_from_receipt compute_fee_result
execution_event geth j tx_hash receipt s =
    let amount = compute_amount j.position j.level in
    record {
      position_id = j.position.id;
      owner = j.position.owner;
      chain_id = j.position.chain_id;
      level_index = j.event.level_index;
      level_type = j.level.level_type;
      direction = j.position.direction;
      token_in = (swap_tokens j.position).0;
      token_out = (swap_tokens j.position).1;
      amount_in = amount;
      amount_out =
          or_default (parse_amount_out_from_receipt geth receipt j.settings.executor.executor_addr)
            (min_amount_out j);
      exec_price = j.event.price;
      tx_hash = tx_hash;
      fee = compute_fee_result amount j.fee;
      remaining_size = s.position.remaining_size;
      position_state = s.position.state;
      sl_moved_to = or_default j.level.move_sl_to (pos 0);
    }

-- `pos.PermitDeadline > 0 && pos.PermitDeadline <= time.Now().Unix()`.
abbrev pub has_expired : Position → ℤ → Bool
has_expired p now = is_pos p.permit_deadline && leb_ℤ p.permit_deadline now
