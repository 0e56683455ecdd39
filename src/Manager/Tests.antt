-- ===== src/Manager/Tests.antt =====
-- The operations of pkg/positionmanager/manager.go on a position of two levels, with a list of
-- positions, the newest first, as the store.
use dex_limit_order_manager.Prelude.{
  ℕ, ◌≡◌, refl, false, none, some, List, [], ◌∷◌, arith, ◌==◌, if◌then◌else◌, Bool-cases, inl, inr,
  tally, ==_refl, ne→==,
}
use dex_limit_order_manager.Prelude.Int.{ℤ, pos}
use dex_limit_order_manager.Types.{Position, PositionState, LevelType, Direction}
use dex_limit_order_manager.Errors.{Result, ok, err, external}
use dex_limit_order_manager.Trigger.{new_engine, get_or_create}
use dex_limit_order_manager.Trigger.Book.{orders}
use dex_limit_order_manager.Manager.Slots.{due_from}
use dex_limit_order_manager.Store.{Store, IsStore}
use dex_limit_order_manager.Manager.{Core, LevelParams, new_level, register_position_triggers}
use dex_limit_order_manager.Manager.Synced.{Synced, add-Synced}
use dex_limit_order_manager.Manager.Operations.{updates, serve, serve-Agrees}

find : ℕ → List Position → Result Position
find id [] = err (external 0)
find id (p ∷ s) = let rest = find id s in if p.id == id then ok p else rest

unfoldable pub db : Store (List Position)
unfolding find
db = record {
  save = λ s p. (p ∷ s, none);
  get = λ s id. find id s;
  list_active = λ s chain_id. ok s;
  update = λ s p. (p ∷ s, none);
}

find-id : (s : List Position) (id : ℕ) (p : Position) → find id s ≡ ok p → p.id ≡ id
unfolding find
find-id [] id p h = cc
find-id (x ∷ s) id p h = elim (Bool-cases (x.id == id)) [
  | inl y ↦ ground arith
  | inr n ↦ find-id s id p (ground arith)
]

pub db-IsStore : IsStore db
unfolding db find
db-IsStore = record {
  get-id = find-id;
  get-update = λ s p h. rw (==_refl p.id);
  get-update_ne = λ s p id h. rw (ne→== p.id id (λ e. h (cc e)));
  get-save = λ s p h. rw (==_refl p.id);
}

abbrev params : LevelType → ℤ → LevelParams
params t price = record {
  level_type = t;
  trigger_price = some price;
  portion_bps = 5000;
  move_sl_to = none;
  cancel_on_fire = [];
}

abbrev pub position : Position
position = record {
  id = 7;
  owner = 8;
  token_base = 1;
  token_quote = 2;
  direction = Direction.long;
  total_size = pos 1000;
  remaining_size = pos 1000;
  entry_price = pos 3000;
  state = PositionState.active;
  chain_id = 137;
  pool_fee = 3000;
  decimals_base = 18;
  decimals_quote = 6;
  levels =
      new_level 0 (params LevelType.sl (pos 2700)) (pos 2700)
      ∷ new_level 1 (params LevelType.tp (pos 3300)) (pos 3300)
      ∷ [];
  created_at = pos 0;
  updated_at = pos 0;
  permit_signature = [];
  permit_nonce = none;
  permit_deadline = pos 0;
  permit_amount = none;
  permit_token = 0;
  permit_activated = false;
}

-- The manager with the position stored and its triggers registered.
abbrev pub core : Core (List Position)
core = record { trigger = register_position_triggers position new_engine; store = position ∷ [] }

abbrev updated : Position
updated = record position {
  levels =
      new_level 0 (params LevelType.sl (pos 2900)) (pos 2900)
      ∷ new_level 1 (params LevelType.tp (pos 3300)) (pos 3300)
      ∷ [];
  updated_at = pos 50;
}

bare : Synced new_engine (record position { levels = [] })
unfolding new_engine due_from orders get_or_create tally
bare q j = refl

-- The position with its first level only.
abbrev started : Position
started = record position { levels = new_level 0 (params LevelType.sl (pos 2700)) (pos 2700) ∷ [] }

started-Synced : Synced (register_position_triggers started new_engine) started
unfolding register_position_triggers
started-Synced =
    add-Synced new_engine (record position { levels = [] }) bare (params LevelType.sl (pos 2700))
      (pos 2700) (pos 0)

pub position-Synced : Synced core.trigger position
unfolding register_position_triggers
position-Synced =
    add-Synced (register_position_triggers started new_engine) started started-Synced
      (params LevelType.tp (pos 3300)) (pos 3300) (pos 0)

serve-Agrees_example :
    Synced (serve db (pos 50) core 7 (updates (pos 0) (some (pos 2900)))).0.trigger updated
unfolding serve find db
serve-Agrees_example =
    serve-Agrees db db-IsStore (pos 50) core 7 (updates (pos 0) (some (pos 2900))) position updated
      refl position-Synced refl refl
