-- ===== src/Startup/Loaded.antt =====
-- After the start of `Run` of pkg/positionmanager/manager.go the trigger engine holds what every active
-- position asks for.
use dex_limit_order_manager.Prelude.{
  ℕ, ◌≡◌, ◌≢◌, refl, sym, ap, ◌∙◌, Bool, ◌&&◌, List, [], ◌∷◌, arith, Bool-cases, inl, inr, All,
  tally, tally-cons, ne→==,
}
use dex_limit_order_manager.Prelude.Int.{ℤ}
use dex_limit_order_manager.Types.{
  TokenPair, Position, Level, LevelType, Direction, is_active, pair_of, pair_eq,
}
use dex_limit_order_manager.Trigger.{
  TriggerEngine, get_or_create, register, is_entry_of, entry_of, should_trigger_above,
}
use dex_limit_order_manager.Trigger.Book.{Order, orders, orders-add_trigger}
use dex_limit_order_manager.Trigger.View
use dex_limit_order_manager.Manager.{register_levels, register_position_triggers}
use dex_limit_order_manager.Manager.Slots.{held, order_of}
use dex_limit_order_manager.Manager.Registered.{IsIndexed, register-Synced}
use dex_limit_order_manager.Manager.Synced.{Synced}
use dex_limit_order_manager.Startup.{load_positions}

module _ (q : Order → Bool) (pair : TokenPair) (id j : ℕ) where
  -- A trigger of another position.
  held-register_other :
      (e : TriggerEngine) (p : TokenPair) (id' i : ℕ) (t : LevelType) (d : Direction) (price : ℤ)
      → id' ≢ id
      → held q (register e p id' i t d price) pair id j ≡ held q e pair id j
  held-register_other e p id' i t d price other =
      let test = λ (o : Order). is_entry_of id j o.entry && q o in
      ap (λ pt. tally test (orders pt)) (View.view-register e p pair id' i t d price)
      ∙ elim (Bool-cases (pair_eq p pair)) [
        | inr n ↦ rw n
        | inl y ↦ rw y (
            orders-add_trigger (get_or_create e pair) (should_trigger_above t d)
              (entry_of id' i t price) test
            ∙ tally-cons test (order_of id' d i t price) (orders (get_or_create e pair))
            ∙ rw (ne→== id' id other) (omega arith))
      ]

  held-register_levels :
      (p : Position) (e : TriggerEngine) (ls : List Level)
      → p.id ≢ id
      → held q (register_levels p e ls) pair id j ≡ held q e pair id j
  unfolding register_levels
  held-register_levels p e [] other = refl
  held-register_levels p e (l ∷ ls) other = elim (Bool-cases (is_active l.status)) [
    | inr off ↦ rw off (held-register_levels p e ls other)
    | inl on ↦ rw on (
        held-register_levels p
          (register e (pair_of p) p.id l.index l.level_type p.direction l.trigger_price) ls other
        ∙ held-register_other e (pair_of p) p.id l.index l.level_type p.direction l.trigger_price
            other)
  ]

  held-load_positions :
      (e : TriggerEngine) (ps : List Position)
      → All (λ p. p.id ≢ id) ps
      → held q (load_positions e ps) pair id j ≡ held q e pair id j
  unfolding load_positions
  held-load_positions e [] others = refl
  held-load_positions e (p ∷ ps) others =
      held-load_positions (register_position_triggers p e) ps others.1
      ∙ held-register_levels p e p.levels others.0

-- No two positions have the same ID.
abbrev pub AreDistinct : List Position → Type 0
AreDistinct [] = Unit {0}
AreDistinct (p ∷ ps) = All (λ r. r.id ≢ p.id) ps × AreDistinct ps

-- Nothing is held for the position.
abbrev pub IsFree : TriggerEngine → Position → Type 0
IsFree e p = (q : Order → Bool) (j : ℕ) → held q e (pair_of p) p.id j ≡ 0

register-IsFree :
    (e : TriggerEngine) (p : Position) (ps : List Position)
    → All (λ r. r.id ≢ p.id) ps
    → All (IsFree e) ps
    → All (IsFree (register_position_triggers p e)) ps
unfolding register_position_triggers
register-IsFree e p [] others free = tt
register-IsFree e p (r ∷ ps) others free = (
  λ q j.
      held-register_levels q (pair_of r) r.id j p e p.levels (λ h. others.0 (sym h)) ∙ free.0 q j,
  register-IsFree e p ps others.1 free.1,
)

-- The active positions are loaded, whose IDs differ and whose levels carry their places, into an engine
-- that holds nothing for them: then the engine holds for each of them exactly the triggers of its
-- active levels.
pub load_positions-Synced :
    (e : TriggerEngine) (ps : List Position)
    → AreDistinct ps
    → All (λ p. IsIndexed 0 p.levels) ps
    → All (IsFree e) ps
    → All (Synced (load_positions e ps)) ps
unfolding load_positions
load_positions-Synced e [] distinct indexed free = tt
load_positions-Synced e (p ∷ ps) distinct indexed free =
    let e' = register_position_triggers p e in
    (
      λ q j.
          held-load_positions q (pair_of p) p.id j e' ps distinct.0
          ∙ register-Synced p e indexed.0 free.0 q j,
      load_positions-Synced e' ps distinct.1 indexed.1 (register-IsFree e p ps distinct.0 free.1),
    )
