-- ===== src/Execute/Tests.antt =====
-- `executeTrigger` of pkg/positionmanager/manager.go: the first take-profit of a position fires.
use dex_limit_order_manager.Prelude.{ℕ, tally, ◌≡◌, refl, false, Option, none, some, List, [], ◌∷◌}
use dex_limit_order_manager.Prelude.Int.{ℤ, pos}
use dex_limit_order_manager.Types.{
  active_sl, Position, PositionState, LevelStatus, LevelType, Direction, pair_of,
}
use dex_limit_order_manager.Errors.{Result, ok}
use dex_limit_order_manager.Fees.{FeeConfig, compute_fee_result}
use dex_limit_order_manager.Trigger.{TriggerEvent, TriggerEngine, new_engine, register}
use dex_limit_order_manager.CircuitBreaker.{new_circuit_breaker}
use dex_limit_order_manager.Trigger.Book.{orders}
use dex_limit_order_manager.Manager.Slots.{due_from}
use dex_limit_order_manager.Store.{IsAtomic}
use dex_limit_order_manager.Manager.Pointwise.{AgreesAt}
use dex_limit_order_manager.Manager.Tests.{db, db-IsStore}
use dex_limit_order_manager.Executor.Tests.{client, geth, cfg, executor}
use dex_limit_order_manager.Settlement.Tests.{position, stop_loss, take_profit, other}
use dex_limit_order_manager.Settlement.{triggered_level}
use dex_limit_order_manager.Manager.Registered.{IsIndexed}
use dex_limit_order_manager.Execute.{World, Timing, ChainSettings, Outcome, ExecutionEvent, ignored}
use dex_limit_order_manager.Execute.Stages.{execute_trigger}
use dex_limit_order_manager.Execute.Agreement.{execute-agrees}
use dex_limit_order_manager.Execute.Once.{execute_twice}

db-IsAtomic : IsAtomic db
unfolding db
db-IsAtomic = record { get-failed = λ s p x h. cc }

-- The engine after it has fired the level 1: it holds the levels 0 and 2.
abbrev engine : TriggerEngine
engine =
    register (register new_engine (pair_of position) 7 0 LevelType.sl Direction.long (pos 2700))
      (pair_of position) 7 2 LevelType.tp Direction.long (pos 3600)

abbrev before : World (List Position) (Unit {0})
before = record {
  core = record { trigger = engine; store = position ∷ [] };
  execs = λ id. executor;
}

abbrev event : TriggerEvent
event = record {
  position_id = 7;
  level_index = 1;
  level_type = LevelType.tp;
  price = pos 3310;
  chain_id = 137;
}

abbrev chains : ℕ → Option ChainSettings
chains id = some (record { executor = cfg; sl_slippage_bps = 300; tp_slippage_bps = 100 })

abbrev fees : ℕ → Result (Option FeeConfig)
fees owner = ok none

abbrev at_time : ℤ → Timing
at_time now = record {
  asked_at = now;
  checked_at = now;
  suspended_at = now;
  activated_at = now;
  failed_at = now;
  settled_at = now;
  activation_ticks = 2;
  swap_ticks = 2;
  stopped = λ n. false;
}

abbrev ended : World (List Position) (Unit {0}) × Outcome
ended = execute_trigger db client geth chains fees (λ n. false) (at_time (pos 60)) before event

abbrev sold : ExecutionEvent
sold = record {
  position_id = 7;
  owner = 8;
  chain_id = 137;
  level_index = 1;
  level_type = LevelType.tp;
  direction = Direction.long;
  token_in = 1;
  token_out = 2;
  amount_in = pos 330;
  amount_out = pos 0;
  exec_price = pos 3310;
  tx_hash = 5;
  fee = compute_fee_result (pos 330) none;
  remaining_size = pos 670;
  position_state = PositionState.partial_closed;
  sl_moved_to = pos 3000;
}

-- The position that is stored then: the stop-loss at the entry price, the other take-profit cancelled.
abbrev after : Position
after = record position {
  levels =
      record stop_loss { trigger_price = pos 3000 }
      ∷ triggered_level take_profit 5 (pos 3310) (pos 330) (pos 60)
      ∷ record other { status = LevelStatus.cancelled }
      ∷ [];
  remaining_size = pos 670;
  updated_at = pos 60;
  state = PositionState.partial_closed;
}

execute-agrees_example :
    AgreesAt (pair_of after) 7 Direction.long ended.0.core.trigger after.levels 0
unfolding execute_trigger db register IsIndexed new_circuit_breaker active_sl tally orders
    new_engine due_from
execute-agrees_example =
    execute-agrees db db-IsStore db-IsAtomic client geth chains fees (λ n. false) (at_time (pos 60))
      0 before ended.0 event position after take_profit ended.1 refl refl (refl, (refl, (refl, tt)))
      (λ q. refl) (λ ne q. refl) refl refl refl

execute_twice_example :
    execute_trigger db client geth chains fees (λ n. false) (at_time (pos 90)) ended.0 event
    ≡ (ended.0, ignored)
unfolding execute_trigger db new_circuit_breaker active_sl
execute_twice_example =
    execute_twice db db-IsStore client geth chains fees (λ n. false) (at_time (pos 60))
      (at_time (pos 90)) before ended.0 event sold refl
