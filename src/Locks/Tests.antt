-- ===== src/Locks/Tests.antt =====
-- The lock map of pkg/positionmanager/manager.go with two executions of one position.
use dex_limit_order_manager.Prelude.{ℕ, ◌≡◌, refl, [], ◌∷◌, keep, any, false, arith}
use dex_limit_order_manager.Errors.{ok}
use dex_limit_order_manager.Settlement.Tests.{position}
use dex_limit_order_manager.Locks.{
  Locks, System, start, fetched, entered, cleaned, lock_of, unlock, cleanup_closed, cleanup,
  find_lock, write, Reach, begin, later, fetch, enter, clean, IsUnused, is_about, Pc, waiting,
  inside,
}
use dex_limit_order_manager.Locks.Map.{write_lem}
use dex_limit_order_manager.Locks.Exclusion.{executions-exclusive}

-- Both have looked the mutex of position 7 up, and the first has it.
abbrev contended : System
contended = entered (fetched (fetched start 0 7) 1 7) 0 7 0

contended-Reach : Reach contended
unfolding lock_of find_lock write
contended-Reach =
    later (later (later begin (fetch 0 7 refl)) (fetch 1 7 refl)) (enter 0 7 0 refl refl)

-- Position 7 is cleaned up while an execution of position 9 waits, and before both come.
abbrev one_waiting : System
one_waiting = fetched start 2 9

abbrev cleaned_before : System
cleaned_before = entered (fetched (fetched (cleaned one_waiting (7 ∷ [])) 0 7) 1 7) 0 7 1

abbrev before-Reach : Reach cleaned_before
unfolding lock_of find_lock write cleanup keep
before-Reach =
    later
      (later (later (later (later begin (fetch 2 9 refl)) (clean (7 ∷ []))) (fetch 0 7 refl))
        (fetch 1 7 refl))
      (enter 0 7 1 refl refl)

seven-IsUnused : IsUnused one_waiting (7 ∷ [])
unfolding lock_of find_lock any
seven-IsUnused i id h =
    write_lem (λ j p. is_about p id ≡ false) (λ j. Pc.idle) 2 (waiting 9 0) (ground (arith, h))
      (λ j n. refl) i

executions-exclusive_example :
    (◌≡◌ {A = ℕ} 0 0) × (l : Locks) × (unlock cleaned_before.shared 7 ≡ ok l)
unfolding write lock_of find_lock cleanup keep
executions-exclusive_example =
    executions-exclusive 0 0 7 1 1 before-Reach (((((tt, tt), seven-IsUnused), tt), tt), tt) refl
      refl

-- Without that care, a cleanup lets two executions of position 7 be inside at once, as
-- `CleanupClosedPositionLocks` may.
abbrev both : System
both = entered (fetched (cleaned contended (7 ∷ [])) 2 7) 2 7 1

both-Reach : Reach both
unfolding lock_of find_lock write cleanup keep
both-Reach =
    later (later (later contended-Reach (clean (7 ∷ []))) (fetch 2 7 refl)) (enter 2 7 1 refl refl)

both_inside : (both.pc 0 ≡ inside 7 0) × (both.pc 2 ≡ inside 7 1)
unfolding lock_of find_lock write cleanup keep
both_inside = (refl, refl)

-- A cleanup of a position whose mutex is held: the next execution gets another mutex.
second_mutex : (lock_of (cleaned contended (7 ∷ [])).shared 7).1 ≡ 1
unfolding lock_of cleanup find_lock write keep
second_mutex = refl

-- `CleanupClosedPositionLocks` with two chains: the position is active on the first, and is taken for
-- closed on account of the second.
active_dropped :
    cleanup_closed contended.shared (ok (position ∷ []) ∷ ok [] ∷ [])
    ≡ ok (record contended.shared { locks = [] }, 1)
unfolding cleanup_closed lock_of cleanup find_lock write keep any
active_dropped = refl
