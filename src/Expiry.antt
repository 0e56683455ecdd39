-- ===== src/Expiry.antt =====
-- `checkPermitExpiry` of pkg/positionmanager/manager.go, which the monitor runs every hour: positions
-- whose permit has expired are suspended, and the host is told of those that expire soon. It does not
-- take the lock of a position. Without a callback of the host it does nothing.
pub mod Tests
pub mod Suspension
use dex_limit_order_manager.Prelude.{
  ℕ, ◌+◌, ◌*◌, ◌≡◌, Bool, true, false, not, ◌&&◌, ◌||◌, Option, none, some, List, [], ◌∷◌, ◌++◌,
  if◌then◌else◌, any, tally,
}
use dex_limit_order_manager.Prelude.Int.{ℤ, pos, is_pos, leb_ℤ, ◌-ℤ◌, ◌/ℤ◌}
use dex_limit_order_manager.Types.{Position, Level, is_active}
use dex_limit_order_manager.Errors.{Result, ok, err}
use dex_limit_order_manager.Permit.{duration_seconds}
use dex_limit_order_manager.Store.{Store}
use dex_limit_order_manager.Manager.{Core, persist, suspend_position_levels}
use dex_limit_order_manager.Open.{is_empty}

pub record PermitExpiryEvent : Type 0 where
  pub position_id : ℕ
  pub owner : ℕ
  pub chain_id : ℕ
  pub permit_deadline : ℤ
  pub hours_remaining : ℤ
  pub active_levels : ℕ

abbrev nanoseconds_per_hour : ℕ
nanoseconds_per_hour = 3_600_000_000_000

-- `48 * time.Hour`, where the chain has no threshold of its own.
unfoldable pub warning_threshold : ℤ → ℤ
unfolding ◌-ℤ◌
warning_threshold t =
    if leb_ℤ t (pos 0) && leb_ℤ (pos 0) t then pos (48 * nanoseconds_per_hour) else t

abbrev pub count_active : List Level → ℕ
count_active ls = tally (λ l. is_active l.status) ls

-- A position without a permit, or whose permit has no deadline.
abbrev pub has_no_deadline : Position → Bool
has_no_deadline p =
    is_empty p.permit_signature
    || (leb_ℤ p.permit_deadline (pos 0) && leb_ℤ (pos 0) p.permit_deadline)

-- The time left, a `time.Duration`, which wraps.
unfoldable pub remaining_time : ℤ → Position → ℤ
unfolding duration_seconds ◌-ℤ◌
remaining_time now p = duration_seconds (p.permit_deadline -ℤ now)

-- `int(remaining.Hours())` of whole seconds, which are not negative.
unfoldable pub expiry_event : ℤ → Position → PermitExpiryEvent
unfolding ◌/ℤ◌ tally
expiry_event remaining p = record {
  position_id = p.id;
  owner = p.owner;
  chain_id = p.chain_id;
  permit_deadline = p.permit_deadline;
  hours_remaining = remaining /ℤ nanoseconds_per_hour;
  active_levels = count_active p.levels;
}

-- The clock is read once for the check, and again where a position is suspended.
module _ {S : Type 0} (db : Store S) (now : ℤ) (suspended_at : ℕ → ℤ) where
  -- An error of the store is ignored.
  unfoldable pub suspend_expired : Core S → Position → Core S
  unfolding suspend_position_levels persist any
  suspend_expired c p =
      let (trigger, p') = suspend_position_levels (suspended_at p.id) p c.trigger in
      if any (λ l. is_active l.status) p.levels
      then (persist db (record c { trigger = trigger }) p').0
      else c

  unfoldable pub check_position : ℤ → Core S → Position → Core S × List PermitExpiryEvent
  unfolding suspend_expired remaining_time expiry_event
  check_position threshold c p =
      let remaining = remaining_time now p in
      if has_no_deadline p
      then (c, [])
      else if not (is_pos remaining)
      then (suspend_expired c p, [])
      else if leb_ℤ remaining threshold
      then (c, expiry_event remaining p ∷ [])
      else (c, [])

  unfoldable pub check_positions : ℤ → Core S → List Position → Core S × List PermitExpiryEvent
  unfolding check_position
  check_positions threshold c [] = (c, [])
  check_positions threshold c (p ∷ ps) =
      let (c', events) = check_position threshold c p in
      let (c'', later) = check_positions threshold c' ps in (c'', events ++ later)

  -- A chain whose positions the store does not list is passed over.
  check_listed : ℤ → Core S → Result (List Position) → Core S × List PermitExpiryEvent
  unfolding check_positions
  check_listed threshold c (err x) = (c, [])
  check_listed threshold c (ok ps) = check_positions threshold c ps

  -- `checkPermitExpiry`, for the chains with their thresholds in the order in which Go visits them.
  unfoldable pub check_permit_expiry : Core S → List (ℕ × ℤ) → Core S × List PermitExpiryEvent
  unfolding check_listed warning_threshold
  check_permit_expiry c [] = (c, [])
  check_permit_expiry c (chain ∷ chains) =
      let (c', events) =
        check_listed (warning_threshold chain.1) c (db.list_active c.store chain.0) in
      let (c'', later) = check_permit_expiry c' chains in (c'', events ++ later)
