-- ===== src/Trigger/Tests.antt =====
-- The trigger engine of pkg/positionmanager/trigger.go on concrete calls.
use dex_limit_order_manager.Prelude.{◌≡◌, refl, List, [], ◌∷◌, ◌++◌, map, keep, if◌then◌else◌}
use dex_limit_order_manager.Prelude.Int.{pos, leb_ℤ, ltb_ℤ}
use dex_limit_order_manager.Types.{TokenPair, LevelType, Direction, pair_eq}
use dex_limit_order_manager.Trigger.{
  TriggerEngine, TriggerEvent, new_engine, on_price, get_or_create, event_of, count,
}
use dex_limit_order_manager.Trigger.Firing.{on_price-exact}
use dex_limit_order_manager.Trigger.History.{
  Call, registers, unregisters, updates, prices, run, run-IsValid,
}
use dex_limit_order_manager.Trigger.Book.{book_run, SameBag}
use dex_limit_order_manager.Trigger.Refinement.{Represents, run-Represents}

abbrev pair : TokenPair
pair = record { base = 1; quote = 2; chain_id = 137 }

-- A long position with a stop-loss and two take-profits, and a short one with a stop-loss.
abbrev calls : List Call
calls =
    registers pair 7 0 LevelType.sl Direction.long (pos 2700)
    ∷ registers pair 7 1 LevelType.tp Direction.long (pos 3300)
    ∷ registers pair 7 2 LevelType.tp Direction.long (pos 3600)
    ∷ registers pair 8 0 LevelType.sl Direction.short (pos 3300)
    ∷ []

abbrev engine : TriggerEngine
engine = (run new_engine calls).0

engine_fires :
    map (λ (x : TriggerEvent). x.level_index) (on_price engine pair (pos 3300)).1 ≡ 1 ∷ 0 ∷ []
unfolding run on_price new_engine
engine_fires = refl

engine_keeps : count (on_price engine pair (pos 3300)).0 ≡ 2
unfolding run on_price count new_engine
engine_keeps = refl

on_price-exact_example :
    ((on_price engine pair (pos 3300)).1
      ≡ map
          (event_of pair (pos 3300))
          (keep (λ x. leb_ℤ x.price (pos 3300)) (get_or_create engine pair).above)
        ++ map
            (event_of pair (pos 3300))
            (keep (λ x. leb_ℤ (pos 3300) x.price) (get_or_create engine pair).below))
    × ((get_or_create (on_price engine pair (pos 3300)).0 pair).above ≡ (
        if pair_eq pair pair
        then keep (λ x. ltb_ℤ (pos 3300) x.price) (get_or_create engine pair).above
        else (get_or_create engine pair).above))
    × ((get_or_create (on_price engine pair (pos 3300)).0 pair).below ≡ (
        if pair_eq pair pair
        then keep (λ x. ltb_ℤ x.price (pos 3300)) (get_or_create engine pair).below
        else (get_or_create engine pair).below))
on_price-exact_example = on_price-exact engine pair (pos 3300) pair (run-IsValid calls)

abbrev history : List Call
history =
    calls
    ++ (updates pair 7 0 LevelType.sl Direction.long (pos 3000)
        ∷ prices pair (pos 3300)
        ∷ unregisters pair 7 2
        ∷ prices pair (pos 2900)
        ∷ [])

run-Represents_example :
    Represents (run new_engine history).0 (book_run (λ q. []) history).0
    × SameBag (run new_engine history).1 (book_run (λ q. []) history).1
run-Represents_example = run-Represents history
