-- ===== src/Manager.antt =====
-- pkg/positionmanager/manager.go: the operations on positions. `Core` is the part of the Manager
-- that they change: the trigger engine and the host's store. An operation returns the new state and
-- its error; on an error the state is what the code has written until then.
pub mod Tests
pub mod Slots
pub mod Due
pub mod Pointwise
pub mod Synced
pub mod Registered
pub mod Operations
use dex_limit_order_manager.Prelude.{
  ℕ, zero, suc, ◌+◌, ◌<◌, ◌≡◌, Bool, true, false, not, ◌&&◌, ◌||◌, Option, none, some, List, [],
  ◌∷◌, ◌++◌, ◌==◌, ltb, leb, if◌then◌else◌, length, get_elem?, set, is_some,
}
use dex_limit_order_manager.Prelude.Int.{ℤ, pos, negsuc, pos_part, is_pos, ltb_ℤ}
use dex_limit_order_manager.Types.{
  TokenPair, Position, PositionState, Level, LevelStatus, LevelType, is_active, is_suspended,
  is_terminal, pair_of,
}
use dex_limit_order_manager.Errors.{
  Error, Result, ok, err, update_trigger_price_invalid, position_is, invalid_level_index,
  level_not_active, not_position_owner, nil_pointer,
}
use dex_limit_order_manager.Trigger.{TriggerEngine, register, unregister, update_trigger_price}
use dex_limit_order_manager.Store.{Store}

pub record Core (S : Type 0) : Type 0 where
  pub trigger : TriggerEngine
  pub store : S

pub record LevelParams : Type 0 where
  pub level_type : LevelType
  pub trigger_price : Option ℤ
  pub portion_bps : ℕ  -- uint16
  pub move_sl_to : Option ℤ
  pub cancel_on_fire : List ℤ

-- The loop of `cancelActiveLevels` and of `suspendPositionLevels`: from the index `i` on, every
-- active level that is not skipped gets the status `to` and loses its trigger.
unfoldable pub sweep :
    LevelStatus
    → (ℕ → Bool)
    → TokenPair
    → ℕ
    → ℕ
    → TriggerEngine
    → List Level
    → TriggerEngine × List Level
sweep to skip pair pos_id i trigger [] = (trigger, [])
sweep to skip pair pos_id i trigger (l ∷ ls) =
    let hit = not (skip i) && is_active l.status in
    let (trigger', ls') =
      sweep to skip pair pos_id (i + 1) (if hit then unregister trigger pair pos_id i else trigger)
        ls in
    (trigger', (if hit then record l { status = to } else l) ∷ ls')

-- An index that a Go `int` names; a negative one names none.
abbrev pub names : ℤ → ℕ → Bool
names (pos n) i = n == i
names (negsuc n) i = false

-- `cancelActiveLevels`.
unfoldable pub cancel_active_levels : ℤ → Position → TriggerEngine → TriggerEngine × List Level
unfolding sweep
cancel_active_levels except_idx p trigger =
    sweep LevelStatus.cancelled (names except_idx) (pair_of p) p.id 0 trigger p.levels

-- `suspendPositionLevels`.
unfoldable pub suspend_position_levels : ℤ → Position → TriggerEngine → TriggerEngine × Position
unfolding sweep
suspend_position_levels now p trigger =
    let (trigger', ls) =
      sweep LevelStatus.suspended (λ i. false) (pair_of p) p.id 0 trigger p.levels in
    (trigger', record p { levels = ls; updated_at = now })

-- The loop of `RenewPermit`: suspended levels become active and are registered again.
unfoldable pub reactivate : Position → ℕ → TriggerEngine → List Level → TriggerEngine × List Level
unfolding register
reactivate p i trigger [] = (trigger, [])
reactivate p i trigger (l ∷ ls) =
    let hit = is_suspended l.status in
    let (trigger', ls') =
      reactivate p (i + 1)
        (if hit
          then register trigger (pair_of p) p.id i l.level_type p.direction l.trigger_price
          else trigger)
        ls in
    (trigger', (if hit then record l { status = LevelStatus.active } else l) ∷ ls')

unfoldable pub register_levels : Position → TriggerEngine → List Level → TriggerEngine
register_levels p trigger [] = trigger
register_levels p trigger (l ∷ ls) =
    register_levels p
      (if is_active l.status
        then register trigger (pair_of p) p.id l.index l.level_type p.direction l.trigger_price
        else trigger)
      ls

-- `registerPositionTriggers`.
unfoldable pub register_position_triggers : Position → TriggerEngine → TriggerEngine
unfolding register_levels register
register_position_triggers p trigger = register_levels p trigger p.levels

-- A `Level` from its parameters, at its index.
abbrev pub new_level : ℕ → LevelParams → ℤ → Level
new_level i lp price = record {
  index = i;
  level_type = lp.level_type;
  trigger_price = price;
  portion_bps = lp.portion_bps;
  status = LevelStatus.active;
  move_sl_to = lp.move_sl_to;
  cancel_on_fire = lp.cancel_on_fire;
  exec_tx_hash = 0;
  exec_price = none;
  exec_amount = none;
  exec_at = pos 0;
}

-- `levelIdx < 0 || levelIdx >= len(pos.Levels)`, and the level otherwise.
abbrev pub level_at : List Level → ℤ → Option Level
level_at ls (pos i) = get_elem? ls i
level_at ls (negsuc i) = none

-- A pointer that is not nil replaces the old value.
abbrev pub or_keep : Option ℤ → Option ℤ → Option ℤ
or_keep none old = old
or_keep (some a) old = some a

-- The position with its new permit, which is not activated yet.
abbrev pub with_permit :
    (p : Position) (signature : List ℕ) (nonce : Option ℤ) (deadline : ℤ) (amount : Option ℤ)
    (now : ℤ) (ls : List Level)
    → Position
with_permit p signature nonce deadline amount now ls = record p {
  permit_signature = signature;
  permit_nonce = or_keep nonce p.permit_nonce;
  permit_deadline = deadline;
  permit_amount = or_keep amount p.permit_amount;
  permit_activated = false;
  updated_at = now;
  levels = ls;
}

module _ {S : Type 0} (db : Store S) where
  -- `m.cfg.Store.Update(ctx, pos)`.
  unfoldable pub persist : Core S → Position → Core S × Option Error
  persist c p = (record c { store = (db.update c.store p).0 }, (db.update c.store p).1)

  -- `GetPosition`.
  unfoldable pub get_position : Core S → ℕ → Result Position
  get_position c id = db.get c.store id

  loaded : Core S → Result Position → (Position → Core S × Option Error) → Core S × Option Error
  loaded c (err x) k = (c, some x)
  loaded c (ok p) k = k p

  -- The way in of the operations: the position, unless it is missing or terminal.
  unfoldable pub on_open : Core S → ℕ → (Position → Core S × Option Error) → Core S × Option Error
  unfolding loaded
  on_open c id k =
      loaded c (db.get c.store id)
        (λ p. if is_terminal p.state then (c, some (position_is p.state)) else k p)

  -- `CancelPosition`.
  unfoldable pub cancel_position : ℤ → Core S → ℕ → Core S × Option Error
  unfolding on_open persist cancel_active_levels
  cancel_position now c id = on_open c id (λ p.
      let (trigger, ls) = cancel_active_levels (negsuc 0) p c.trigger in
      persist (record c { trigger = trigger })
        (record p { levels = ls; state = PositionState.cancelled; updated_at = now }))

  move_level : ℤ → Core S → Position → ℕ → ℤ → Option Level → Core S × Option Error
  unfolding persist update_trigger_price
  move_level now c p i price none = (c, some invalid_level_index)
  move_level now c p i price (some l) =
      if is_active l.status
      then persist
          (record c {
            trigger =
                update_trigger_price c.trigger (pair_of p) p.id i l.level_type p.direction price;
          })
          (record p {
            levels = set p.levels i (record l { trigger_price = price });
            updated_at = now;
          })
      else (c, some (level_not_active l.status))

  -- `UpdateLevel`; `none` is a nil price.
  unfoldable pub update_level : ℤ → Core S → ℕ → ℤ → Option ℤ → Core S × Option Error
  unfolding on_open move_level
  update_level now c id level_idx none = (c, some update_trigger_price_invalid)
  update_level now c id level_idx (some price) =
      if is_pos price
      then on_open c id
          (λ p. move_level now c p (pos_part level_idx) price (level_at p.levels level_idx))
      else (c, some update_trigger_price_invalid)

  append_level : ℤ → Core S → Position → LevelParams → Option ℤ → Core S × Option Error
  unfolding persist register
  append_level now c p lp none = (c, some nil_pointer)
  append_level now c p lp (some price) =
      let i = length p.levels in
      persist
        (record c {
          trigger = register c.trigger (pair_of p) p.id i lp.level_type p.direction price;
        })
        (record p { levels = p.levels ++ (new_level i lp price ∷ []); updated_at = now })

  -- `AddLevel`, which does not validate its parameters; a nil price panics.
  unfoldable pub add_level : ℤ → Core S → ℕ → LevelParams → Core S × Option Error
  unfolding on_open append_level
  add_level now c id lp = on_open c id (λ p. append_level now c p lp lp.trigger_price)

  drop_level : ℤ → Core S → Position → ℕ → Option Level → Core S × Option Error
  unfolding persist unregister
  drop_level now c p i none = (c, some invalid_level_index)
  drop_level now c p i (some l) =
      persist (record c { trigger = unregister c.trigger (pair_of p) p.id i })
        (record p {
          levels = set p.levels i (record l { status = LevelStatus.cancelled });
          updated_at = now;
        })

  -- `RemoveLevel`, for a level of any status.
  unfoldable pub remove_level : ℤ → Core S → ℕ → ℤ → Core S × Option Error
  unfolding on_open drop_level
  remove_level now c id level_idx =
      on_open c id (λ p. drop_level now c p (pos_part level_idx) (level_at p.levels level_idx))

  -- `RenewPermit`.
  unfoldable pub renew_permit :
      (now : ℤ) (c : Core S) (id owner : ℕ) (signature : List ℕ) (nonce : Option ℤ) (deadline : ℤ)
      (amount : Option ℤ)
      → Core S × Option Error
  unfolding loaded reactivate persist
  renew_permit now c id owner signature nonce deadline amount = loaded c (db.get c.store id) (λ p.
      if not (p.owner == owner)
      then (c, some not_position_owner)
      else if is_terminal p.state
      then (c, some (position_is p.state))
      else (let (trigger, ls) = reactivate p 0 c.trigger p.levels in
          persist (record c { trigger = trigger })
            (with_permit p signature nonce deadline amount now ls)))
