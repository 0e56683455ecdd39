-- ===== src/Trigger/History.antt =====
-- A history of calls of the engine of pkg/positionmanager/trigger.go, as its mutex serialises
-- them, and the events that it returns.
use dex_limit_order_manager.Prelude.{ℕ, List, [], ◌∷◌, ◌++◌}
use dex_limit_order_manager.Prelude.Int.{ℤ}
use dex_limit_order_manager.Types.{TokenPair, LevelType, Direction}
use dex_limit_order_manager.Trigger.{
  TriggerEngine, TriggerEvent, new_engine, register, unregister, unregister_position,
  update_trigger_price, on_price,
}
use dex_limit_order_manager.Trigger.Sorted.{
  IsValid, new_engine-IsValid, register-IsValid, unregister-IsValid, unregister_position-IsValid,
  update_trigger_price-IsValid, on_price-IsValid,
}

pub data Call : Type 0 where
  registers : TokenPair → ℕ → ℕ → LevelType → Direction → ℤ → Call
  unregisters : TokenPair → ℕ → ℕ → Call
  unregisters_position : TokenPair → ℕ → Call
  updates : TokenPair → ℕ → ℕ → LevelType → Direction → ℤ → Call
  prices : TokenPair → ℤ → Call

unfoldable pub apply : TriggerEngine → Call → TriggerEngine × List TriggerEvent
unfolding register unregister unregister_position update_trigger_price on_price
apply e (registers p pos_id i t d price) = (register e p pos_id i t d price, [])
apply e (unregisters p pos_id i) = (unregister e p pos_id i, [])
apply e (unregisters_position p pos_id) = (unregister_position e p pos_id, [])
apply e (updates p pos_id i t d price) = (update_trigger_price e p pos_id i t d price, [])
apply e (prices p price) = on_price e p price

unfoldable pub run : TriggerEngine → List Call → TriggerEngine × List TriggerEvent
unfolding apply
run e [] = (e, [])
run e (c ∷ cs) =
    let (e', events) = apply e c in let (e'', later) = run e' cs in (e'', events ++ later)

pub apply-IsValid : (e : TriggerEngine) (c : Call) → IsValid e → IsValid (apply e c).0
unfolding apply
apply-IsValid e (registers p pos_id i t d price) v = register-IsValid e p v pos_id i t d price
apply-IsValid e (unregisters p pos_id i) v = unregister-IsValid e p v pos_id i
apply-IsValid e (unregisters_position p pos_id) v = unregister_position-IsValid e p v pos_id
apply-IsValid e (updates p pos_id i t d price) v =
    update_trigger_price-IsValid e p pos_id i t d price v
apply-IsValid e (prices p price) v = on_price-IsValid e p v price

pub run_from-IsValid : (e : TriggerEngine) (cs : List Call) → IsValid e → IsValid (run e cs).0
unfolding run
run_from-IsValid e [] v = v
run_from-IsValid e (c ∷ cs) v = run_from-IsValid (apply e c).0 cs (apply-IsValid e c v)

-- After any history of calls on a new engine, the slices of every pair are sorted by price.
pub run-IsValid : (cs : List Call) → IsValid (run new_engine cs).0
run-IsValid cs = run_from-IsValid new_engine cs new_engine-IsValid
