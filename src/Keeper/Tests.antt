-- ===== src/Keeper/Tests.antt =====
-- The keeper loop of pkg/positionmanager/manager.go on a pair with one trigger.
use dex_limit_order_manager.Prelude.{
  ◌+◌, ◌≤◌, ◌≡◌, ◌≢◌, refl, Bool, true, false, List, [], ◌∷◌, ◌++◌, length, map, tally, arith,
}
use dex_limit_order_manager.Prelude.Int.{pos}
use dex_limit_order_manager.Types.{TokenPair, LevelType, Direction}
use dex_limit_order_manager.Trigger.{
  TriggerEngine, TriggerEvent, new_engine, register, on_price, event_of, entry_of,
}
use dex_limit_order_manager.Keeper.{
  Keeper, Listener, subscribes, update, sends, give_up, stop, take_event, executed, return, cancel,
  wait, close, History, begin, later, Marks, run_chain_start, is_stopped, all_returned,
}
use dex_limit_order_manager.Keeper.Delivery.{held_by, history-conserves}
use dex_limit_order_manager.Keeper.Shutdown.{Closes, closed-quiet, shutdown-completes}

abbrev pair : TokenPair
pair = record { base = 1; quote = 2; chain_id = 137 }

-- A stop-loss at 2700, and a stop-loss of another position at 2600.
abbrev engine : TriggerEngine
engine =
    register (register new_engine pair 7 0 LevelType.sl Direction.long (pos 2700)) pair 8 0
      LevelType.sl Direction.long (pos 2600)

abbrev keeper : Keeper
keeper = run_chain_start engine (pos 1)

-- The price falls to 2500, one event is sent, and the worker takes it. Then the context is done.
abbrev served : (t : Keeper) × (m : Marks) × History keeper t m
unfolding run_chain_start on_price register new_engine
served = (
  _,
  _,
  later
      (later
        (later (later (later begin (subscribes pair)) (update [] [] pair (pos 2500) refl))
          (sends [] [] pair _ _ refl (omega arith) refl))
        (take_event [] [] _ [] refl refl))
      cancel,
)

-- One event is still with the listener.
served_runs :
    (map (λ (e : TriggerEvent). e.position_id) served.1.fired ≡ 8 ∷ 7 ∷ [])
    × (map (λ (e : TriggerEvent). e.position_id) served.1.started ≡ 8 ∷ [])
    × (map (λ (e : TriggerEvent). e.position_id) (held_by served.0.listeners) ≡ 7 ∷ [])
unfolding run_chain_start on_price register new_engine
served_runs = (refl, refl, refl)

history-conserves_example :
    ((q : TriggerEvent → Bool)
      → tally q served.1.fired
        ≡ tally q served.1.started
          + tally q served.0.exec_ch
          + tally q (held_by served.0.listeners)
          + tally q served.1.dropped)
    × (served.0.done ≡ false → served.1.dropped ≡ [])
    × (length served.0.exec_ch ≤ 4)
    × (length served.0.workers ≡ 1)
history-conserves_example = history-conserves engine (pos 1) served.2

-- From there on, the listener and the worker return.
shutdown-completes_example : Closes served.0
unfolding run_chain_start served
shutdown-completes_example = shutdown-completes served.0 refl refl

abbrev ended : (t : Keeper) × (m : Marks) × History keeper t m
unfolding run_chain_start on_price register new_engine
ended = (
  _,
  _,
  later
      (later
        (later
          (later
            (later
              (later served.2 (
                give_up [] [] pair
                  (map (event_of pair (pos 2500)) (entry_of 7 0 LevelType.sl (pos 2700) ∷ [])) refl
                  refl))
              (stop [] [] pair refl))
            (executed [] [] _ engine refl))
          (return [] [] refl refl))
        (wait refl refl refl))
      (close refl refl),
)

closed-quiet_example :
    (ended.0.done ≡ true)
    × (all_returned ended.0.workers ≡ true)
    × ((before after : List Listener) (l : Listener)
        → is_stopped l ≡ false
        → ended.0.listeners ≢ before ++ (l ∷ after))
unfolding run_chain_start on_price register new_engine
closed-quiet_example =
    closed-quiet engine (pos 1) ended.2
      (((((((((((tt, refl), tt), tt), tt), tt), tt), tt), tt), tt), tt), tt) refl
