-- ===== src/Settlement/Triggers.antt =====
-- What `executeTrigger` of pkg/positionmanager/manager.go does to the trigger engine after a swap,
-- next to what it has done to the levels, at one index.
use dex_limit_order_manager.Prelude.{
  ℕ, ◌+◌, ◌≡◌, ◌≢◌, refl, sym, subst, ◌∙◌, false, some, List, arith, Bool-cases, inl, inr,
  get_elem?, get_elem?-set_self,
}
use dex_limit_order_manager.Prelude.Int.{ℤ}
use dex_limit_order_manager.Types.{Position, PositionState, Level, is_active, is_sl, pair_of}
use dex_limit_order_manager.Errors.{ok, succeeded, ok-injective}
use dex_limit_order_manager.Trigger.{TriggerEngine}
use dex_limit_order_manager.Manager.Due.{get_elem?-lt}
use dex_limit_order_manager.Manager.Registered.{IsIndexed}
use dex_limit_order_manager.Manager.Pointwise.{AgreesAt, HoldsNothing, write-AgreesAt}
use dex_limit_order_manager.Settlement.{
  Settlement, cancel_listed, move_sl, unregister_all, move_trigger, update_triggers, settle,
  settle_sl, settle_tp, record_execution, triggered_level,
}
use dex_limit_order_manager.Settlement.Loops.{
  cancel_others-AgreesFrom, cancel_listed-AgreesAt, move_sl-AgreesAt, set-IsIndexed,
  cancel_listed-IsIndexed,
}

-- The settlement is of the position, and agrees at `j` with the engine once that is updated.
abbrev pub Follows : Position → TriggerEngine → ℕ → Settlement → Type 0
Follows p e j s =
    AgreesAt (pair_of p) p.id p.direction (update_triggers e s) s.position.levels j
    × (s.position.id ≡ p.id)
    × (pair_of s.position ≡ pair_of p)
    × (s.position.direction ≡ p.direction)

settle_sl-Follows :
    (p : Position) (i : ℕ) (e : TriggerEngine) (j : ℕ)
    → ((m : ℕ) (l : Level) → get_elem? p.levels m ≡ some l → 0 + m ≡ i → is_active l.status ≡ false)
    → AgreesAt (pair_of p) p.id p.direction e p.levels j
    → Follows p e j (settle_sl p i)
unfolding settle_sl update_triggers move_trigger
settle_sl-Follows p i e j fired s =
    (cancel_others-AgreesFrom (settle_sl p i).position j i 0 e p.levels fired s, refl, refl, refl)

-- The two loops of a take-profit, whatever state the position gets.
loops-Follows :
    (p : Position) (l : Level) (e : TriggerEngine) (j : ℕ) (dropped : List Level × List ℕ)
    (state : PositionState)
    → cancel_listed p.levels l.cancel_on_fire ≡ ok dropped
    → IsIndexed 0 p.levels
    → AgreesAt (pair_of p) p.id p.direction e p.levels j
    → let moved = move_sl (record p { levels = dropped.0 }) l.move_sl_to in
      Follows p e j (record {
        position = record p { levels = moved.0; state = state };
        to_cancel = dropped.1;
        sl_to_move = moved.1;
      })
unfolding update_triggers
loops-Follows p l e j dropped state worked indexed agrees =
    let moved = move_sl (record p { levels = dropped.0 }) l.move_sl_to in
    let p' : Position = record p { levels = moved.0; state = state } in
    (
      move_sl-AgreesAt p' j (unregister_all e p' dropped.1) (record p { levels = dropped.0 })
          l.move_sl_to (cancel_listed-IsIndexed p.levels l.cancel_on_fire dropped worked indexed)
          (cancel_listed-AgreesAt p' j e p.levels l.cancel_on_fire dropped worked agrees),
      refl,
      refl,
      refl,
    )

settle_tp-Follows :
    (p : Position) (l : Level) (e : TriggerEngine) (j : ℕ) (s : Settlement)
    → IsIndexed 0 p.levels
    → AgreesAt (pair_of p) p.id p.direction e p.levels j
    → settle_tp p l ≡ ok s
    → Follows p e j s
unfolding settle_tp
settle_tp-Follows p l e j s indexed agrees h =
    let (dropped, worked, end) = succeeded (cancel_listed p.levels l.cancel_on_fire) _ h in
    subst (Follows p e j) (ok-injective end) (loops-Follows p l e j dropped _ worked indexed agrees)

-- A swap of the level `i`, for which the engine holds nothing any more: wherever else the engine
-- agreed with the levels, and at `i`, it agrees with the settled position.
pub settle-Follows :
    (p : Position) (i : ℕ) (l : Level) (tx : ℕ) (price amount now : ℤ) (s : Settlement)
    (e : TriggerEngine) (j : ℕ)
    → get_elem? p.levels i ≡ some l
    → IsIndexed 0 p.levels
    → HoldsNothing (pair_of p) p.id p.direction e i
    → (i ≢ j → AgreesAt (pair_of p) p.id p.direction e p.levels j)
    → settle p i l tx price amount now ≡ ok s
    → Follows p e j s
unfolding settle record_execution
settle-Follows p i l tx price amount now s e j at indexed none_ other h =
    elim (Bool-cases (is_sl l.level_type)) [
      | inl stop ↦
          let taken : settle p i l tx price amount now ≡ ok (settle_sl executed i) = rw stop in
          subst (Follows p e j) (ok-injective (sym taken ∙ h))
            (settle_sl-Follows executed i e j fired written)
      | inr take_ ↦
          let taken : settle p i l tx price amount now ≡ settle_tp executed l = rw take_ in
          settle_tp-Follows executed l e j s
            (set-IsIndexed 0 p.levels i l (triggered_level l tx price amount now) at refl indexed)
            written (sym taken ∙ h)
    ]
  where
    executed : Position
    executed = record_execution p i l tx price amount now

    written : AgreesAt (pair_of p) p.id p.direction e executed.levels j
    written =
        write-AgreesAt (pair_of p) p.id p.direction e p.levels i
          (triggered_level l tx price amount now) j (get_elem?-lt p.levels i l at) other refl
          (λ same. subst (HoldsNothing (pair_of p) p.id p.direction e) same none_)

    fired :
        (m : ℕ) (x : Level)
        → get_elem? executed.levels m ≡ some x
        → 0 + m ≡ i
        → is_active x.status ≡ false
    fired m x found same =
        let here : m ≡ i = omega (arith, same) in
        let same_level : triggered_level l tx price amount now ≡ x = cc (
          get_elem?-set_self p.levels i (triggered_level l tx price amount now)
              (get_elem?-lt p.levels i l at),
          here,
        ) in
        rw (← same_level)
