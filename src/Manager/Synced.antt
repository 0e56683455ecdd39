-- ===== src/Manager/Synced.antt =====
-- The trigger engine and the levels of a position agree, and each change of both by
-- pkg/positionmanager/manager.go keeps them so.
use dex_limit_order_manager.Prelude.{
  ℕ, ◌+◌, ◌≡◌, refl, sym, ◌∙◌, Bool, true, false, some, [], ◌∷◌, ◌++◌, arith, ◌==◌, Bool-cases, inl,
  inr, get_elem?, set, length, ==→eq, ==→ne, ==_iff, ne→==,
}
use dex_limit_order_manager.Prelude.Int.{ℤ, negsuc}
use dex_limit_order_manager.Types.{Position, PositionState, Level, LevelStatus, is_active, pair_of}
use dex_limit_order_manager.Trigger.{TriggerEngine, register, unregister, update_trigger_price}
use dex_limit_order_manager.Trigger.Book.{Order}
use dex_limit_order_manager.Manager.{
  cancel_active_levels, suspend_position_levels, reactivate, new_level, LevelParams,
}
use dex_limit_order_manager.Manager.Slots.{held, due_from, held-register, sweep-Matches}
use dex_limit_order_manager.Manager.Pointwise.{remove-AgreesAt, update-AgreesAt}
use dex_limit_order_manager.Manager.Due.{due-above, due-append, get_elem?-lt, reactivate-Matches}

-- For each level of the position the engine holds exactly one order, with the level's price and
-- side, if the level is active, and none otherwise, nor at any other index.
abbrev pub Synced : TriggerEngine → Position → Type 0
Synced e p =
    (q : Order → Bool) (j : ℕ)
    → held q e (pair_of p) p.id j ≡ due_from q p.id p.direction 0 p.levels j

module _ (e : TriggerEngine) (p : Position) (s : Synced e p) where
  pub cancel-Synced :
      (state : PositionState) (now : ℤ)
      → let r = cancel_active_levels (negsuc 0) p e in
        Synced r.0 (record p { levels = r.1; state = state; updated_at = now })
  unfolding cancel_active_levels
  cancel-Synced state now q j =
      sweep-Matches q (pair_of p) p.id p.direction LevelStatus.cancelled refl 0 e p.levels
        (λ i h. s q i) j (omega arith)

  pub suspend-Synced : (now : ℤ) → let r = suspend_position_levels now p e in Synced r.0 r.1
  unfolding suspend_position_levels
  suspend-Synced now q j =
      sweep-Matches q (pair_of p) p.id p.direction LevelStatus.suspended refl 0 e p.levels
        (λ i h. s q i) j (omega arith)

  module _ (i : ℕ) (l : Level) (at : get_elem? p.levels i ≡ some l) where
    -- A write of an active level, with its price registered anew.
    pub update-Synced :
        (price now : ℤ)
        → is_active l.status ≡ true
        → Synced
            (update_trigger_price e (pair_of p) p.id i l.level_type p.direction price)
            (record p {
              levels = set p.levels i (record l { trigger_price = price });
              updated_at = now;
            })
    update-Synced price now live q j =
        update-AgreesAt (pair_of p) p.id p.direction e p.levels i
          (record l { trigger_price = price }) j (get_elem?-lt p.levels i l at) (λ n r. s r j) live
          q

    -- A write of a status that is not active, with the trigger removed.
    pub remove-Synced :
        (to : LevelStatus) (now : ℤ)
        → is_active to ≡ false
        → Synced
            (unregister e (pair_of p) p.id i)
            (record p { levels = set p.levels i (record l { status = to }); updated_at = now })
    remove-Synced to now off q j =
        remove-AgreesAt (pair_of p) p.id p.direction e p.levels i (record l { status = to }) j
          (get_elem?-lt p.levels i l at) (λ n r. s r j) off q

  pub add-Synced :
      (lp : LevelParams) (price now : ℤ)
      → let i = length p.levels in
        Synced
          (register e (pair_of p) p.id i lp.level_type p.direction price)
          (record p { levels = p.levels ++ (new_level i lp price ∷ []); updated_at = now })
  add-Synced lp price now q j =
      let i = length p.levels in
      held-register q e (pair_of p) p.id i j lp.level_type p.direction price
      ∙ rw (s q j) (elim (Bool-cases (i == j)) [
        | inl y ↦
            rw (y, due-above q p.id p.direction 0 p.levels j (omega (arith, ==→eq i j y)))
              (sym (
                due-append q p.id p.direction 0 p.levels (new_level i lp price) j
                ∙ rw ((==_iff (0 + i) j).1 (omega (arith, ==→eq i j y)), ← ==→eq i j y)
                    (omega arith)))
        | inr n ↦ rw n (
            let kept : due_from q p.id p.direction 0 (p.levels ++ (new_level i lp price ∷ [])) j
                ≡ due_from q p.id p.direction 0 p.levels j =
              due-append q p.id p.direction 0 p.levels (new_level i lp price) j
              ∙ rw (ne→== (0 + i) j (λ h. ==→ne i j n (omega arith))) in
            omega (arith, kept))
      ])

  pub renew-Synced :
      (p' : Position)
      → p'.id ≡ p.id
      → pair_of p' ≡ pair_of p
      → p'.direction ≡ p.direction
      → p'.levels ≡ (reactivate p 0 e p.levels).1
      → Synced (reactivate p 0 e p.levels).0 p'
  renew-Synced p' same_id same_pair same_dir ls q j =
      rw (same_pair, same_id, same_dir, ls)
        (reactivate-Matches q p 0 e p.levels (λ i h. s q i) j (omega arith))
