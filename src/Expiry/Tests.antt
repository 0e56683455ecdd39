-- ===== src/Expiry/Tests.antt =====
-- `checkPermitExpiry` of pkg/positionmanager/manager.go on one position.
use dex_limit_order_manager.Prelude.{◌≡◌, refl, false, All, List, [], ◌∷◌}
use dex_limit_order_manager.Prelude.Int.{pos}
use dex_limit_order_manager.Types.{Position, is_active}
use dex_limit_order_manager.Trigger.{new_engine}
use dex_limit_order_manager.Manager.{Core, suspend_position_levels}
use dex_limit_order_manager.Manager.Tests.{db, db-IsStore}
use dex_limit_order_manager.Manager.Tests
use dex_limit_order_manager.Settlement.Tests.{position}
use dex_limit_order_manager.Expiry.{check_permit_expiry, check_position}
use dex_limit_order_manager.Expiry.Suspension.{check-suspends}
use dex_limit_order_manager.Manager.Synced.{Synced}
use dex_limit_order_manager.Trigger.{TriggerEngine}

-- A permit until second 100000.
abbrev permitted : Position
permitted = record position { permit_signature = 1 ∷ []; permit_deadline = pos 100_000 }

abbrev core : Core (List Position)
core = record { trigger = new_engine; store = permitted ∷ [] }

-- A day before.
warned :
    (check_permit_expiry db (pos 13_600) (λ id. pos 13_601) core ((137, pos 0) ∷ [])).1
    ≡ record {
      position_id = 7;
      owner = 8;
      chain_id = 137;
      permit_deadline = pos 100_000;
      hours_remaining = pos 24;
      active_levels = 3;
    }
      ∷ []
unfolding check_permit_expiry db
warned = refl

-- Two levels with their triggers, and the permit.
abbrev due : Position
due = record Tests.position { permit_signature = 1 ∷ []; permit_deadline = pos 100_000 }

abbrev engine : TriggerEngine
engine = Tests.core.trigger

abbrev suspended : Position
suspended = (suspend_position_levels (pos 200_001) due engine).1

check-suspends_example :
    let r =
      check_position db
        (pos 200_000)
        (λ id. pos 200_001)
        (pos 0)
        (record { trigger = engine; store = due ∷ [] })
        due in
    (r.1 ≡ [])
    × Synced r.0.trigger suspended
    × All (λ l. is_active l.status ≡ false) suspended.levels
unfolding check_position db suspend_position_levels
check-suspends_example =
    check-suspends db db-IsStore (pos 200_000) (λ id. pos 200_001) (pos 0)
      (record { trigger = engine; store = due ∷ [] }) due suspended refl Tests.position-Synced refl
      refl refl refl
