-- ===== src/Open/Tests.antt =====
-- `OpenPosition` of pkg/positionmanager/manager.go on concrete parameters.
use dex_limit_order_manager.Prelude.{
  ℕ, ◌≡◌, ◌⊎◌, ◌↔◌, refl, Option, some, none, List, [], ◌∷◌, arith, All, length, tally,
}
use dex_limit_order_manager.Prelude.Int.{ℤ, pos}
use dex_limit_order_manager.Types.{Position, PositionState, LevelType, Direction}
use dex_limit_order_manager.Errors.{Error, ok, err, total_portion_exceeds}
use dex_limit_order_manager.Trigger.{new_engine, get_or_create, count}
use dex_limit_order_manager.Trigger.Book.{orders}
use dex_limit_order_manager.Permit.Tests.{crypto}
use dex_limit_order_manager.Executor.Tests.{client, geth, cfg, executor}
use dex_limit_order_manager.Manager.{Core, LevelParams}
use dex_limit_order_manager.Manager.Tests.{db, db-IsStore}
use dex_limit_order_manager.Manager.Synced.{Synced}
use dex_limit_order_manager.Open.{OpenParams, ChainInstance, validate_levels, open_position}
use dex_limit_order_manager.Open.Levels.{IsAcceptable, total_portion, validate_levels_iff}
use dex_limit_order_manager.Open.Opened.{open_position-outcome}

abbrev level : LevelType → ℤ → ℕ → LevelParams
level t price portion = record {
  level_type = t;
  trigger_price = some price;
  portion_bps = portion;
  move_sl_to = none;
  cancel_on_fire = [];
}

abbrev levels : List LevelParams
levels = level LevelType.sl (pos 2700) 5000 ∷ level LevelType.tp (pos 3300) 5000 ∷ []

-- The levels of the quick start in README.md.
quick_start_refused :
    validate_levels (
      level LevelType.sl (pos 180000000000) 10000 ∷ level LevelType.tp (pos 220000000000) 3300 ∷ [])
    ≡ err (total_portion_exceeds 13300)
unfolding validate_levels
quick_start_refused = refl

abbrev params : OpenParams
params = record {
  owner = 8;
  token_base = 1;
  token_quote = 2;
  direction = Direction.long;
  size = some (pos 1000);
  entry_price = some (pos 3000);
  chain_id = 137;
  pool_fee = 3000;
  decimals_base = 18;
  decimals_quote = 6;
  levels = levels;
  permit_signature = [];
  permit_nonce = none;
  permit_deadline = pos 0;
  permit_amount = none;
  signed_approve_tx = [];
}

abbrev chain : Option ChainInstance
chain = some (record { executor_address = 3; permit2_address = 4; min_permit_lifetime = pos 60 })

abbrev core : Core (List Position)
core = record { trigger = new_engine; store = [] }

opened_registers :
    count
      (open_position db crypto client geth cfg 3
        (pos 50)
        (ok 7)
        chain
        params
        core
        executor).0.0.trigger
    ≡ 2
unfolding open_position new_engine count db
opened_registers = refl

validate_levels_iff_example :
    (validate_levels levels ≡ ok tt) ↔ All (IsAcceptable (length levels)) levels
validate_levels_iff_example =
    validate_levels_iff levels (omega arith) (unfold total_portion in omega arith)

open_position-outcome_example :
    let r = open_position db crypto client geth cfg 3 (pos 50) (ok 7) chain params core executor in
    ((failure : Error) × (r.1 ≡ err failure) × (r.0.0.trigger ≡ core.trigger))
    ⊎ ((x : Position) × (r.1 ≡ ok x)
        × (db.get r.0.0.store 7 ≡ ok x)
        × Synced r.0.0.trigger x
        × (x.state ≡ PositionState.active)
        × (params.size ≡ some x.remaining_size))
unfolding new_engine orders get_or_create tally
open_position-outcome_example =
    open_position-outcome db db-IsStore crypto client geth cfg 7 params core (λ q pair j. refl) 3
      (pos 50) chain executor
