-- ===== src/Expiry/Suspension.antt =====
-- A position whose permit has expired, after `checkPermitExpiry` of pkg/positionmanager/manager.go.
use dex_limit_order_manager.Prelude.{
  ℕ, ◌+◌, ◌≡◌, refl, sym, ap, subst, ◌∙◌, false, none, List, [], ◌∷◌, arith, Bool-cases, inl, inr,
  any, All,
}
use dex_limit_order_manager.Prelude.Int.{ℤ, is_pos}
use dex_limit_order_manager.Types.{TokenPair, Position, Level, LevelStatus, is_active, pair_of}
use dex_limit_order_manager.Errors.{ok, ok-injective}
use dex_limit_order_manager.Trigger.{TriggerEngine, unregister}
use dex_limit_order_manager.Store.{Store, IsStore}
use dex_limit_order_manager.Manager.{Core, sweep, persist, suspend_position_levels}
use dex_limit_order_manager.Manager.Synced.{Synced, suspend-Synced}
use dex_limit_order_manager.Expiry.{
  has_no_deadline, remaining_time, suspend_expired, check_position, PermitExpiryEvent,
}

-- A suspended level and one that was not active are not active.
sweep-inactive :
    (pair : TokenPair) (id i : ℕ) (e : TriggerEngine) (ls : List Level)
    → All
        (λ l. is_active l.status ≡ false)
        (sweep LevelStatus.suspended (λ k. false) pair id i e ls).1
unfolding sweep
sweep-inactive pair id i e [] = tt
sweep-inactive pair id i e (l ∷ ls) = elim (Bool-cases (is_active l.status)) [
  | inl live ↦ rw live (refl, sweep-inactive pair id (i + 1) (unregister e pair id i) ls)
  | inr off ↦ rw off (off, sweep-inactive pair id (i + 1) e ls)
]

none-active :
    (ls : List Level)
    → any (λ l. is_active l.status) ls ≡ false
    → All (λ l. is_active l.status ≡ false) ls
unfolding any
none-active [] h = tt
none-active (l ∷ ls) h = elim (Bool-cases (is_active l.status)) [
  | inl live ↦ absurd (ground arith)
  | inr off ↦ (off, none-active ls (ground arith))
]

abbrev IsSettled : TriggerEngine → Position → Type 0
IsSettled e p = Synced e p × All (λ l. is_active l.status ≡ false) p.levels

module _ {S : Type 0} (db : Store S) (laws : IsStore db) (now : ℤ) (suspended_at : ℕ → ℤ) where
  suspend_expired-IsSettled :
      (c : Core S) (p p' : Position)
      → db.get c.store p.id ≡ ok p
      → Synced c.trigger p
      → (db.update c.store (suspend_position_levels (suspended_at p.id) p c.trigger).1).1 ≡ none
      → db.get (suspend_expired db now suspended_at c p).store p.id ≡ ok p'
      → IsSettled (suspend_expired db now suspended_at c p).trigger p'
  unfolding suspend_expired persist suspend_position_levels
  suspend_expired-IsSettled c p p' stored synced worked found =
      elim (Bool-cases (any (λ l. is_active l.status) p.levels)) [
        | inl some_ ↦
            let r = suspend_position_levels (suspended_at p.id) p c.trigger in
            let after : Core S = (persist db (record c { trigger = r.0 }) r.1).0 in
            let taken : suspend_expired db now suspended_at c p ≡ after = rw some_ refl in
            let found' : db.get (db.update c.store r.1).0 p.id ≡ ok p' =
              subst (λ (x : Core S). db.get x.store p.id ≡ ok p') taken found in
            let same : r.1 ≡ p' =
              ok-injective (sym (laws.get-update c.store r.1 worked) ∙ found') in
            subst (λ (x : Core S). IsSettled x.trigger p') (sym taken)
              (subst (IsSettled r.0) same (
                suspend-Synced c.trigger p synced (suspended_at p.id),
                sweep-inactive (pair_of p) p.id 0 c.trigger p.levels,
              ))
        | inr none_ ↦
            let taken : suspend_expired db now suspended_at c p ≡ c = rw none_ refl in
            let found' : db.get c.store p.id ≡ ok p' =
              subst (λ (x : Core S). db.get x.store p.id ≡ ok p') taken found in
            let same : p ≡ p' = ok-injective (sym stored ∙ found') in
            subst (λ (x : Core S). IsSettled x.trigger p') (sym taken)
              (subst (IsSettled c.trigger) same (synced, none-active p.levels none_))
      ]

  -- The check of a stored position, in step with the engine, whose permit has a deadline that has
  -- passed: no event is given, and if the update of the store works, the position that is stored then
  -- has no active level, and the engine, still in step with it, holds no trigger for it.
  pub check-suspends :
      (threshold : ℤ) (c : Core S) (p p' : Position)
      → db.get c.store p.id ≡ ok p
      → Synced c.trigger p
      → has_no_deadline p ≡ false
      → is_pos (remaining_time now p) ≡ false
      → (db.update c.store (suspend_position_levels (suspended_at p.id) p c.trigger).1).1 ≡ none
      → db.get (check_position db now suspended_at threshold c p).0.store p.id ≡ ok p'
      → ((check_position db now suspended_at threshold c p).1 ≡ [])
        × Synced (check_position db now suspended_at threshold c p).0.trigger p'
        × All (λ l. is_active l.status ≡ false) p'.levels
  unfolding check_position
  check-suspends threshold c p p' stored synced dated expired worked found =
      let taken : check_position db now suspended_at threshold c p
          ≡ (suspend_expired db now suspended_at c p, []) =
        rw (dated, expired) refl in
      let found' : db.get (suspend_expired db now suspended_at c p).store p.id ≡ ok p' =
        subst (λ (x : Core S × List PermitExpiryEvent). db.get x.0.store p.id ≡ ok p') taken
          found in
      let settled = suspend_expired-IsSettled c p p' stored synced worked found' in
      (
        ap (λ (x : Core S × List PermitExpiryEvent). x.1) taken,
        subst (λ (x : Core S × List PermitExpiryEvent). Synced x.0.trigger p') (sym taken)
            settled.0,
        settled.1,
      )
