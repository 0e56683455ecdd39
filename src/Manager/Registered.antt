-- ===== src/Manager/Registered.antt =====
-- `registerPositionTriggers` of pkg/positionmanager/manager.go on a position of which the trigger
-- engine has nothing yet.
use dex_limit_order_manager.Prelude.{
  ℕ, ◌+◌, ◌<◌, ◌≡◌, refl, ◌∙◌, Bool, true, false, List, [], ◌∷◌, arith, ◌==◌, if◌then◌else◌,
  Bool-cases, inl, inr, ==_iff, ==→eq, ==→ne, ne→==,
}
use dex_limit_order_manager.Prelude.Int.{ℤ}
use dex_limit_order_manager.Types.{Position, Level, LevelType, is_active, pair_of}
use dex_limit_order_manager.Trigger.{TriggerEngine, register}
use dex_limit_order_manager.Trigger.Book.{Order}
use dex_limit_order_manager.Manager.{register_levels, register_position_triggers}
use dex_limit_order_manager.Manager.Slots.{held, due_from, held-register, once, order_of}
use dex_limit_order_manager.Manager.Synced.{Synced}

-- Each level carries its place, counted from `k`.
unfoldable pub IsIndexed : ℕ → List Level → Type 0
IsIndexed k [] = Unit {0}
IsIndexed k (l ∷ ls) = (l.index ≡ k) × IsIndexed (k + 1) ls

module _ (q : Order → Bool) (p : Position) where
  due_below : (k : ℕ) (ls : List Level) (j : ℕ) → j < k → due_from q p.id p.direction k ls j ≡ 0
  unfolding due_from
  due_below k [] j h = refl
  due_below k (l ∷ ls) j h = rw (ne→== k j (omega arith)) (due_below (k + 1) ls j (omega arith))

  held-register_at :
      (e : TriggerEngine) (i k j : ℕ) (t : LevelType) (price : ℤ)
      → i ≡ k
      → held q (register e (pair_of p) p.id i t p.direction price) (pair_of p) p.id j
        ≡ (if k == j then once (q (order_of p.id p.direction j t price)) else 0)
          + held q e (pair_of p) p.id j
  held-register_at e i k j t price same =
      held-register q e (pair_of p) p.id i j t p.direction price ∙ elim (Bool-cases (i == j)) [
        | inl y ↦
            let at : i ≡ j = ==→eq i j y in
            let kj : (k == j) ≡ true = (==_iff k j).1 (omega (arith, at, same)) in rw (y, kj, at)
        | inr n ↦
            let kj : (k == j) ≡ false = ne→== k j (omega (arith, same, ==→ne i j n)) in rw (n, kj)
      ]

  register_levels-held :
      (k : ℕ) (e : TriggerEngine) (ls : List Level) (j : ℕ)
      → IsIndexed k ls
      → held q (register_levels p e ls) (pair_of p) p.id j
        ≡ due_from q p.id p.direction k ls j + held q e (pair_of p) p.id j
  unfolding register_levels due_from IsIndexed
  register_levels-held k e [] j h = omega arith
  register_levels-held k e (l ∷ ls) j h =
      register_levels-held (k + 1) _ ls j h.1 ∙ elim (Bool-cases (is_active l.status)) [
        | inr off ↦ rw off (elim (Bool-cases (k == j)) [
          | inl y ↦ rw (y, due_below (k + 1) ls j (omega (arith, ==→eq k j y)))
          | inr n ↦ rw n
        ])
        | inl on ↦
            rw (on, held-register_at e l.index k j l.level_type l.trigger_price h.0)
              (elim (Bool-cases (k == j)) [
                | inl y ↦ rw (y, due_below (k + 1) ls j (omega (arith, ==→eq k j y))) (omega arith)
                | inr n ↦ rw n (omega arith)
              ])
      ]

-- An engine that holds nothing for a position, and gets its triggers registered, holds exactly those
-- of the active levels.
pub register-Synced :
    (p : Position) (e : TriggerEngine)
    → IsIndexed 0 p.levels
    → ((q : Order → Bool) (j : ℕ) → held q e (pair_of p) p.id j ≡ 0)
    → Synced (register_position_triggers p e) p
unfolding register_position_triggers
register-Synced p e indexed fresh q j =
    omega (arith, register_levels-held q p 0 e p.levels j indexed, fresh q j)
