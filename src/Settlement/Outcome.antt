-- ===== src/Settlement/Outcome.antt =====
-- How a swap leaves the levels and the state of a position, pkg/positionmanager/manager.go.
use dex_limit_order_manager.Prelude.{
  ℕ, suc, ◌+◌, ◌<◌, ◌≡◌, ◌⊎◌, refl, sym, ap, subst, ◌∙◌, Bool, true, false, not, ◌||◌, some, List,
  [], ◌∷◌, arith, if◌then◌else◌, Bool-cases, inl, inr, any, All, get_elem?, set, length, ◌==◌,
  get_elem?-set_self, ==→eq,
}
use dex_limit_order_manager.Prelude.Int.{ℤ, is_pos}
use dex_limit_order_manager.Types.{Position, PositionState, Level, LevelType, is_active}
use dex_limit_order_manager.Errors.{ok, succeeded, ok-injective}
use dex_limit_order_manager.Settlement.{
  Settlement, settle, settle_sl, settle_tp, record_execution, triggered_level, cancel_others,
  cancel_listed, has_active,
}
use dex_limit_order_manager.Settlement.TakeProfit.{
  without_listed, with_stop, cancel_listed-without, move_sl-with_stop,
}

abbrev IsRetired : Level → Type 0
IsRetired l = is_active l.status ≡ false

-- All but the fired level are cancelled, and the fired one is not active.
cancel_others-IsRetired :
    (fired k : ℕ) (ls : List Level)
    → ((m : ℕ) (l : Level) → get_elem? ls m ≡ some l → k + m ≡ fired → IsRetired l)
    → All IsRetired (cancel_others fired k ls).0
unfolding cancel_others
cancel_others-IsRetired fired k [] h = tt
cancel_others-IsRetired fired k (l ∷ ls) h = (
  elim (Bool-cases (is_active l.status)) [
    | inr n ↦ ground arith
    | inl y ↦ elim (Bool-cases (k == fired)) [
      | inr other ↦ ground arith
      | inl same ↦ absurd (cc (h 0 l refl (omega (arith, ==→eq k fired same))))
    ]
  ],
  cancel_others-IsRetired fired (k + 1) ls (λ m x e at. h (suc m) x e (omega arith)),
)

-- A swapped stop-loss closes the position, and no level of it stays active.
pub settle-stop_loss :
    (p : Position) (i : ℕ) (l : Level) (tx : ℕ) (price amount now : ℤ)
    → l.level_type ≡ LevelType.sl
    → i < length p.levels
    → (s : Settlement) × (settle p i l tx price amount now ≡ ok s)
      × (s.position.state ≡ PositionState.closed)
      × All (λ x. is_active x.status ≡ false) s.position.levels
unfolding settle
settle-stop_loss p i l tx price amount now stop inside = (
  settle_sl (record_execution p i l tx price amount now) i,
  rw stop,
  refl,
  cancel_others-IsRetired i 0 (set p.levels i (triggered_level l tx price amount now))
      (λ m x e at. fired m x e at),
)
  where
    fired :
        (m : ℕ) (x : Level)
        → get_elem? (set p.levels i (triggered_level l tx price amount now)) m ≡ some x
        → 0 + m ≡ i
        → IsRetired x
    fired m x e at =
        let here : m ≡ i = omega arith in
        let same : triggered_level l tx price amount now ≡ x =
          cc (get_elem?-set_self p.levels i (triggered_level l tx price amount now) inside, here) in
        rw (← same)

abbrev IsClosed : Position → Type 0
IsClosed p =
    (p.state ≡ PositionState.closed)
    × ((any (λ x. is_active x.status) p.levels ≡ false) ⊎ (is_pos p.remaining_size ≡ false))

abbrev IsPartial : Position → Type 0
IsPartial p =
    (p.state ≡ PositionState.partial_closed)
    × (any (λ x. is_active x.status) p.levels ≡ true)
    × (is_pos p.remaining_size ≡ true)

-- The state that the code computes from its two tests.
state_after : Bool → Bool → PositionState
state_after live rest =
    if not live || not rest then PositionState.closed else PositionState.partial_closed

state_after-cases :
    (p : Position)
    → p.state ≡ state_after (any (λ x. is_active x.status) p.levels) (is_pos p.remaining_size)
    → IsClosed p ⊎ IsPartial p
unfolding state_after
state_after-cases p h = elim (Bool-cases (any (λ x. is_active x.status) p.levels)) [
  | inr none_ ↦ inl (h ∙ rw none_, inl none_)
  | inl live ↦ elim (Bool-cases (is_pos p.remaining_size)) [
    | inr nothing ↦ inl (h ∙ rw (live, nothing), inr nothing)
    | inl rest ↦ inr (h ∙ rw (live, rest), live, rest)
  ]
]

settle_tp-outcome :
    (p : Position) (l : Level) (s : Settlement)
    → settle_tp p l ≡ ok s
    → (s.position.levels ≡ with_stop l.move_sl_to (without_listed l.cancel_on_fire 0 p.levels))
      × (IsClosed s.position ⊎ IsPartial s.position)
unfolding settle_tp state_after has_active
settle_tp-outcome p l s h =
    let (dropped, worked, rest) = succeeded (cancel_listed p.levels l.cancel_on_fire) _ h in
    let same = ok-injective rest in
    (
      subst
          (λ (x : Settlement).
            x.position.levels ≡ with_stop l.move_sl_to (without_listed l.cancel_on_fire 0 p.levels))
          same
          (move_sl-with_stop (record p { levels = dropped.0 }) l.move_sl_to
            ∙ ap (with_stop l.move_sl_to)
                (cancel_listed-without p.levels l.cancel_on_fire dropped worked)),
      state_after-cases s.position (
          subst
            (λ (x : Settlement).
              x.position.state
              ≡ state_after (any (λ y. is_active y.status) x.position.levels)
                  (is_pos x.position.remaining_size))
            same refl),
    )

-- A swapped take-profit, when it does not panic: the levels are those of before with the fired one
-- written, of which the active ones that `CancelOnFire` names are cancelled, and of the others the
-- first active stop-loss has the price of `MoveSLTo` where that is positive; nothing else changes in
-- them. The position is left either closed, with no level active or nothing remaining, or partially
-- closed, with an active level and something remaining.
pub settle-take_profit :
    (p : Position) (i : ℕ) (l : Level) (tx : ℕ) (price amount now : ℤ) (s : Settlement)
    → l.level_type ≡ LevelType.tp
    → settle p i l tx price amount now ≡ ok s
    → (s.position.levels
        ≡ with_stop l.move_sl_to (
            without_listed l.cancel_on_fire 0
              (set p.levels i (triggered_level l tx price amount now))))
      × (((s.position.state ≡ PositionState.closed)
            × ((any (λ x. is_active x.status) s.position.levels ≡ false)
                ⊎ (is_pos s.position.remaining_size ≡ false)))
          ⊎ ((s.position.state ≡ PositionState.partial_closed)
              × (any (λ x. is_active x.status) s.position.levels ≡ true)
              × (is_pos s.position.remaining_size ≡ true)))
unfolding settle record_execution
settle-take_profit p i l tx price amount now s take h =
    settle_tp-outcome (record_execution p i l tx price amount now) l s (
      let swapped : settle p i l tx price amount now
          ≡ settle_tp (record_execution p i l tx price amount now) l =
        rw take in
      sym swapped ∙ h)
