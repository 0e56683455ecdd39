-- ===== src/Settlement/Tests.antt =====
-- The settlement of a swap, `executeTrigger` of pkg/positionmanager/manager.go, on a position with a
-- stop-loss and two take-profits.
use dex_limit_order_manager.Prelude.{
  ◌≡◌, ◌⊎◌, refl, true, false, none, some, [], ◌∷◌, arith, All, any, set,
}
use dex_limit_order_manager.Prelude.Int.{pos, is_pos, ◌+ℤ◌, ◌≤ℤ◌}
use dex_limit_order_manager.Types.{
  active_sl, Position, PositionState, Level, LevelStatus, LevelType, Direction, is_active,
}
use dex_limit_order_manager.Errors.{ok}
use dex_limit_order_manager.Manager.{new_level}
use dex_limit_order_manager.Settlement.{
  Settlement, settle, compute_amount, triggered_level, swap_tokens,
}
use dex_limit_order_manager.Settlement.Sizes.{settle-size}
use dex_limit_order_manager.Settlement.TakeProfit.{without_listed, with_stop}
use dex_limit_order_manager.Settlement.Outcome.{settle-stop_loss, settle-take_profit}

abbrev pub stop_loss : Level
stop_loss =
    new_level 0
      (record {
        level_type = LevelType.sl;
        trigger_price = some (pos 2700);
        portion_bps = 10000;
        move_sl_to = none;
        cancel_on_fire = [];
      })
      (pos 2700)

-- It moves the stop-loss and cancels the other take-profit.
abbrev pub take_profit : Level
take_profit =
    new_level 1
      (record {
        level_type = LevelType.tp;
        trigger_price = some (pos 3300);
        portion_bps = 3300;
        move_sl_to = some (pos 3000);
        cancel_on_fire = pos 2 ∷ [];
      })
      (pos 3300)

abbrev pub other : Level
other =
    new_level 2
      (record {
        level_type = LevelType.tp;
        trigger_price = some (pos 3600);
        portion_bps = 3300;
        move_sl_to = none;
        cancel_on_fire = [];
      })
      (pos 3600)

abbrev pub position : Position
position = record {
  id = 7;
  owner = 8;
  token_base = 1;
  token_quote = 2;
  direction = Direction.long;
  total_size = pos 1000;
  remaining_size = pos 1000;
  entry_price = pos 3000;
  state = PositionState.active;
  chain_id = 137;
  pool_fee = 3000;
  decimals_base = 18;
  decimals_quote = 6;
  levels = stop_loss ∷ take_profit ∷ other ∷ [];
  created_at = pos 0;
  updated_at = pos 0;
  permit_signature = [];
  permit_nonce = none;
  permit_deadline = pos 0;
  permit_amount = none;
  permit_token = 0;
  permit_activated = false;
}

-- What the first take-profit leaves: a third sold, the stop-loss at the entry price, the other
-- take-profit cancelled.
abbrev settled : Settlement
settled = record {
  position = record position {
    levels =
        record stop_loss { trigger_price = pos 3000 }
        ∷ triggered_level take_profit 55 (pos 3310) (pos 330) (pos 60)
        ∷ record other { status = LevelStatus.cancelled }
        ∷ [];
    remaining_size = pos 670;
    updated_at = pos 60;
    state = PositionState.partial_closed;
  };
  to_cancel = 2 ∷ [];
  sl_to_move = some (record { index = 0; level_type = LevelType.sl; new_price = pos 3000 });
}

settles :
    settle position 1 take_profit 55 (pos 3310) (compute_amount position take_profit) (pos 60)
    ≡ ok settled
unfolding settle compute_amount active_sl
settles = refl

swapped_tokens : swap_tokens position ≡ (1, 2)
unfolding swap_tokens
swapped_tokens = refl

settle-size_example :
    (pos 670 +ℤ compute_amount position take_profit ≡ pos 1000)
    × (pos 0 ≤ℤ pos 670)
    × (pos 0 ≤ℤ compute_amount position take_profit)
settle-size_example =
    settle-size position 1 take_profit 55 (pos 3310) (pos 60) settled (omega arith) (omega arith)
      settles

settle-stop_loss_example :
    (s : Settlement) × (settle position 0 stop_loss 56 (pos 2690) (pos 1000) (pos 60) ≡ ok s)
    × (s.position.state ≡ PositionState.closed)
    × All (λ x. is_active x.status ≡ false) s.position.levels
settle-stop_loss_example =
    settle-stop_loss position 0 stop_loss 56 (pos 2690) (pos 1000) (pos 60) refl (omega arith)

settle-take_profit_example :
    (settled.position.levels
      ≡ with_stop (some (pos 3000)) (
          without_listed (pos 2 ∷ []) 0 (
            set position.levels 1 (
              triggered_level take_profit 55
                (pos 3310)
                (compute_amount position take_profit)
                (pos 60)))))
    × (((settled.position.state ≡ PositionState.closed)
          × ((any (λ x. is_active x.status) settled.position.levels ≡ false)
              ⊎ (is_pos settled.position.remaining_size ≡ false)))
        ⊎ ((settled.position.state ≡ PositionState.partial_closed)
            × (any (λ x. is_active x.status) settled.position.levels ≡ true)
            × (is_pos settled.position.remaining_size ≡ true)))
settle-take_profit_example =
    settle-take_profit position 1 take_profit 55 (pos 3310) (compute_amount position take_profit)
      (pos 60) settled refl settles
