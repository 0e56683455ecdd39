-- ===== src/Retry.antt =====
-- `storeUpdateWithRetry` of pkg/positionmanager/manager.go, with which `executeTrigger` stores a
-- position after a swap. `done` tells whether the context is done in the wait after an attempt.
pub mod Tests
use dex_limit_order_manager.Prelude.{
  ℕ, zero, suc, ◌+◌, ◌≤◌, ◌<◌, ◌≡◌, refl, ap, sym, subst, Bool-cases, Option-cases, inl, inr, ◌∙◌,
  Bool, true, false, Option, none, some, arith, if◌then◌else◌,
}
use dex_limit_order_manager.Types.{Position}
use dex_limit_order_manager.Errors.{Error, ok, context_done}
use dex_limit_order_manager.Store.{Store, IsStore}

retried : {S : Type 0} → S × Option Error → Bool → (S → S × Option Error) → S × Option Error
retried (s, none) stop again = (s, none)
retried (s, some x) stop again = if stop then (s, some context_done) else again s

retried-none :
    {S : Type 0} (r : S × Option Error) (stop : Bool) (again : S → S × Option Error)
    → r.1 ≡ none
    → retried r stop again ≡ (r.0, none)
unfolding retried
retried-none (s, none) stop again h = refl
retried-none (s, some x) stop again h = cc

retried-some :
    {S : Type 0} (r : S × Option Error) (stop : Bool) (again : S → S × Option Error) (x : Error)
    → r.1 ≡ some x
    → stop ≡ false
    → retried r stop again ≡ again r.0
unfolding retried
retried-some (s, none) stop again x h k = cc
retried-some (s, some y) stop again x h k = rw k

retried-stopped :
    {S : Type 0} (r : S × Option Error) (stop : Bool) (again : S → S × Option Error) (x : Error)
    → r.1 ≡ some x
    → stop ≡ true
    → (retried r stop again).1 ≡ some context_done
unfolding retried
retried-stopped (s, none) stop again x h k = cc
retried-stopped (s, some y) stop again x h k = rw k

module _ {S : Type 0} (db : Store S) (p : Position) where
  -- The loop, with `left` more attempts after the one numbered `attempt`.
  unfoldable pub store_update_with_retry : (ℕ → Bool) → ℕ → ℕ → S → S × Option Error
  unfolding retried
  store_update_with_retry done attempt zero s = db.update s p
  store_update_with_retry done attempt (suc left) s =
      retried (db.update s p) (done attempt)
        (λ s'. store_update_with_retry done (attempt + 1) left s')

  -- The store after so many attempts.
  unfoldable pub attempted : ℕ → S → S
  attempted zero s = s
  attempted (suc n) s = attempted n (db.update s p).0

  -- While the context is not done: if the store fails `n` times and then takes the position, and at
  -- least `n` retries are allowed, the update succeeds, after exactly `n + 1` attempts.
  pub retry-succeeds :
      (done : ℕ → Bool) (attempt retries n : ℕ) (s : S)
      → ((k : ℕ) → done k ≡ false)
      → n ≤ retries
      → ((k : ℕ) → k < n → (x : Error) × ((db.update (attempted k s) p).1 ≡ some x))
      → (db.update (attempted n s) p).1 ≡ none
      → store_update_with_retry done attempt retries s ≡ (attempted (suc n) s, none)
  unfolding store_update_with_retry attempted
  retry-succeeds done attempt zero zero s running le fails works =
      ap (λ f. ((db.update s p).0, f)) works
  retry-succeeds done attempt (suc left) zero s running le fails works =
      retried-none (db.update s p) _ _ works
  retry-succeeds done attempt zero (suc n) s running le fails works = absurd (omega (arith, le))
  retry-succeeds done attempt (suc left) (suc n) s running le fails works =
      let (x, failed) = fails 0 (omega arith) in
      retried-some (db.update s p) _ _ x failed (running attempt)
      ∙ retry-succeeds done (attempt + 1) left n (db.update s p).0 running (omega (arith, le))
          (λ k h. fails (suc k) (omega (arith, h))) works

  -- An update that succeeds has stored the position, at whichever attempt.
  pub retry_stores :
      (laws : IsStore db) (done : ℕ → Bool) (attempt left : ℕ) (s : S)
      → (store_update_with_retry done attempt left s).1 ≡ none
      → db.get (store_update_with_retry done attempt left s).0 p.id ≡ ok p
  unfolding store_update_with_retry
  retry_stores laws done attempt zero s h = laws.get-update s p h
  retry_stores laws done attempt (suc left) s h = elim (Option-cases (db.update s p).1) [
    | inl worked ↦
        let end = retried-none (db.update s p) (done attempt) _ worked in
        subst (λ (r : S × Option Error). db.get r.0 p.id ≡ ok p) (sym end)
          (laws.get-update s p worked)
    | inr (x, failed) ↦ elim (Bool-cases (done attempt)) [
      | inl stop ↦
          let end =
            retried-stopped (db.update s p) (done attempt)
              (λ s'. store_update_with_retry done (attempt + 1) left s') x failed stop in
          cc
      | inr on ↦
          let next =
            retried-some (db.update s p) (done attempt)
              (λ s'. store_update_with_retry done (attempt + 1) left s') x failed on in
          subst (λ (r : S × Option Error). db.get r.0 p.id ≡ ok p) (sym next)
            (retry_stores laws done (attempt + 1) left (db.update s p).0
              (sym (ap (λ (r : S × Option Error). r.1) next) ∙ h))
    ]
  ]
