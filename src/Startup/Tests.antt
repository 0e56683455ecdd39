-- ===== src/Startup/Tests.antt =====
-- The start of `Run` of pkg/positionmanager/manager.go with two positions of one pair.
use dex_limit_order_manager.Prelude.{◌≡◌, refl, arith, [], ◌∷◌, All, tally, any}
use dex_limit_order_manager.Types.{Position, pair_of, pair_eq}
use dex_limit_order_manager.Trigger.{new_engine, get_or_create}
use dex_limit_order_manager.Trigger.Book.{orders}
use dex_limit_order_manager.Manager.Synced.{Synced}
use dex_limit_order_manager.Manager.Registered.{IsIndexed}
use dex_limit_order_manager.Settlement.Tests.{position}
use dex_limit_order_manager.Startup.{load_positions, unique_pairs, unseen_pairs}
use dex_limit_order_manager.Startup.Loaded.{load_positions-Synced}

abbrev second : Position
second = record position { id = 9 }

one_pair : unique_pairs (position ∷ second ∷ []) ≡ pair_of position ∷ []
unfolding unseen_pairs any pair_eq
one_pair = refl

load_positions-Synced_example :
    All (Synced (load_positions new_engine (position ∷ second ∷ []))) (position ∷ second ∷ [])
unfolding IsIndexed new_engine orders get_or_create tally
load_positions-Synced_example =
    load_positions-Synced new_engine (position ∷ second ∷ [])
      ((λ e. omega (arith, e), tt), (tt, tt))
      ((refl, (refl, (refl, tt))), ((refl, (refl, (refl, tt))), tt))
      (λ q j. refl, (λ q j. refl, tt))
