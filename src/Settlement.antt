-- ===== src/Settlement.antt =====
-- pkg/positionmanager/manager.go, `executeTrigger` after the swap: the new state of the position in
-- memory, and the changes that the trigger engine gets once it is stored.
pub mod Tests
pub mod Sizes
pub mod TakeProfit
pub mod Outcome
pub mod Loops
pub mod Triggers
pub mod Fired
use dex_limit_order_manager.Prelude.{
  ℕ, zero, suc, ◌+◌, ◌≡◌, Bool, true, false, not, ◌&&◌, ◌||◌, Option, none, some, List, [], ◌∷◌,
  ◌++◌, ◌==◌, ltb, if◌then◌else◌, get_elem?, set, any, length,
}
use dex_limit_order_manager.Prelude.Int.{ℤ, pos, negsuc, is_pos, ◌-ℤ◌}
use dex_limit_order_manager.Types.{
  Position, PositionState, Level, LevelStatus, LevelType, is_active, is_sl, is_long, active_sl,
  pair_of,
}
use dex_limit_order_manager.Errors.{Result, ok, err, index_out_of_range, ◌>>=◌}
use dex_limit_order_manager.Fees.{mul_bps}
use dex_limit_order_manager.Trigger.{TriggerEngine, unregister, update_trigger_price}

-- What the trigger engine has to be told: the levels to drop, and the stop-loss to move.
pub record SlMove : Type 0 where
  pub index : ℕ
  pub level_type : LevelType
  pub new_price : ℤ

pub record Settlement : Type 0 where
  pub position : Position
  pub to_cancel : List ℕ
  pub sl_to_move : Option SlMove

-- `computeAmount`.
unfoldable pub compute_amount : Position → Level → ℤ
unfolding mul_bps
compute_amount p l = mul_bps p.remaining_size l.portion_bps

-- `swapTokens`: the tokens in and out.
unfoldable pub swap_tokens : Position → ℕ × ℕ
swap_tokens p =
    if is_long p.direction then (p.token_base, p.token_quote) else (p.token_quote, p.token_base)

-- `RemainingSize` after a swap, not under zero.
unfoldable pub remaining_after : ℤ → ℤ → ℤ
unfolding ◌-ℤ◌
remaining_after size amount = if is_pos (size -ℤ amount) then size -ℤ amount else pos 0

-- The loop of a fired stop-loss: every other active level is cancelled.
unfoldable pub cancel_others : ℕ → ℕ → List Level → List Level × List ℕ
cancel_others fired i [] = ([], [])
cancel_others fired i (l ∷ ls) =
    let hit = not (i == fired) && is_active l.status in
    let (ls', dropped) = cancel_others fired (i + 1) ls in
    (
      (if hit then record l { status = LevelStatus.cancelled } else l) ∷ ls',
      if hit then i ∷ dropped else dropped,
    )

cancel_at : List Level → ℕ → Option Level → List Level × List ℕ
cancel_at ls i none = (ls, [])
cancel_at ls i (some l) =
    if is_active l.status
    then (set ls i (record l { status = LevelStatus.cancelled }), i ∷ [])
    else (ls, [])

-- The loop over `CancelOnFire`. A negative index passes `cancelIdx < len` and panics.
unfoldable pub cancel_listed : List Level → List ℤ → Result (List Level × List ℕ)
unfolding cancel_at
cancel_listed ls [] = ok (ls, [])
cancel_listed ls (negsuc i ∷ is) = err index_out_of_range
cancel_listed ls (pos i ∷ is) = do
  let now = cancel_at ls i (get_elem? ls i)
  later ← cancel_listed now.0 is
  ok (later.0, now.1 ++ later.1)

move_at : List Level → ℤ → ℕ → Option Level → List Level × Option SlMove
move_at ls price i none = (ls, none)
move_at ls price i (some l) = (
  set ls i (record l { trigger_price = price }),
  some (record { index = l.index; level_type = l.level_type; new_price = price }),
)

move_found : List Level → ℤ → Option ℕ → List Level × Option SlMove
unfolding move_at
move_found ls price none = (ls, none)
move_found ls price (some i) = move_at ls price i (get_elem? ls i)

-- `MoveSLTo`: the active stop-loss, if there is one, gets the new price.
unfoldable pub move_sl : Position → Option ℤ → List Level × Option SlMove
unfolding move_found
move_sl p none = (p.levels, none)
move_sl p (some price) =
    if is_pos price then move_found p.levels price (active_sl p) else (p.levels, none)

-- The fired level with its execution results.
abbrev pub triggered_level : Level → ℕ → ℤ → ℤ → ℤ → Level
triggered_level l tx_hash price amount now = record l {
  status = LevelStatus.triggered;
  exec_tx_hash = tx_hash;
  exec_price = some price;
  exec_amount = some amount;
  exec_at = now;
}

-- The position with the fired level and the remaining size written.
unfoldable pub record_execution : Position → ℕ → Level → ℕ → ℤ → ℤ → ℤ → Position
unfolding remaining_after
record_execution p i l tx_hash price amount now = record p {
  levels = set p.levels i (triggered_level l tx_hash price amount now);
  remaining_size = remaining_after p.remaining_size amount;
  updated_at = now;
}

has_active : List Level → Bool
unfolding any
has_active ls = any (λ l. is_active l.status) ls

settle_sl : Position → ℕ → Settlement
unfolding cancel_others
settle_sl p i =
    let (ls, dropped) = cancel_others i 0 p.levels in
    record {
      position = record p { levels = ls; state = PositionState.closed };
      to_cancel = dropped;
      sl_to_move = none;
    }

settle_tp : Position → Level → Result Settlement
unfolding cancel_listed move_sl has_active
settle_tp p l = do
  dropped ← cancel_listed p.levels l.cancel_on_fire
  let moved = move_sl (record p { levels = dropped.0 }) l.move_sl_to
  ok (record {
    position = record p {
      levels = moved.0;
      state =
          if not (has_active moved.0) || not (is_pos p.remaining_size)
          then PositionState.closed
          else PositionState.partial_closed;
    };
    to_cancel = dropped.1;
    sl_to_move = moved.1;
  })

-- The new state of a position whose level `i`, which is `l`, has been swapped.
unfoldable pub settle : Position → ℕ → Level → ℕ → ℤ → ℤ → ℤ → Result Settlement
unfolding record_execution settle_sl settle_tp
settle p i l tx_hash price amount now =
    if is_sl l.level_type
    then ok (settle_sl (record_execution p i l tx_hash price amount now) i)
    else settle_tp (record_execution p i l tx_hash price amount now) l

unfoldable pub unregister_all : TriggerEngine → Position → List ℕ → TriggerEngine
unfolding unregister
unregister_all e p [] = e
unregister_all e p (i ∷ is) = unregister_all (unregister e (pair_of p) p.id i) p is

unfoldable pub move_trigger : TriggerEngine → Position → Option SlMove → TriggerEngine
unfolding update_trigger_price
move_trigger e p none = e
move_trigger e p (some m) =
    update_trigger_price e (pair_of p) p.id m.index m.level_type p.direction m.new_price

-- After the position is stored: the cancelled levels leave the engine, and the stop-loss moves.
unfoldable pub update_triggers : TriggerEngine → Settlement → TriggerEngine
unfolding unregister_all move_trigger
update_triggers e s = move_trigger (unregister_all e s.position s.to_cancel) s.position s.sl_to_move
