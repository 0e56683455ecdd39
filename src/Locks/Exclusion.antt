-- ===== src/Locks/Exclusion.antt =====
-- The executions of a position exclude each other, pkg/positionmanager/manager.go.
use dex_limit_order_manager.Prelude.{
  ℕ, ◌+◌, ◌<◌, ◌≡◌, ◌≢◌, refl, sym, ap, subst, ◌∙◌, true, false, none, some, List, ◌∷◌, arith, ◌==◌,
  Bool-cases, Option-cases, inl, inr, any, All, ==_refl, ne→==,
}
use dex_limit_order_manager.Errors.{ok, ok-injective}
use dex_limit_order_manager.Locks.{
  Locks, write, find_lock, lock_of, unlock, Pc, idle, waiting, inside, System, start, is_about,
  fetched, entered, left, cleaned, Step, fetch, enter, leave, clean, Reach, begin, later, IsUnused,
  IsCareful, AreCareful,
}
use dex_limit_order_manager.Locks.Map.{
  write_self, write_ne, find-cleanup, cleanup-All, find-All, more-All, write_lem,
}

-- The execution waits for this mutex of the position, or holds it.
abbrev Uses : Pc → ℕ → ℕ → Type 0
Uses idle id m = ⊥
Uses (waiting id' m') id m = (id' ≡ id) × (m' ≡ m)
Uses (inside id' m') id m = (id' ≡ id) × (m' ≡ m)

record Inv (s : System) : Type 0 where
  -- Whoever is about a position uses the mutex that the map has for it.
  mapped : (i id m : ℕ) → Uses (s.pc i) id m → find_lock s.shared.locks id ≡ some m
  held : (i id m : ℕ) → s.pc i ≡ inside id m → s.shared.locked m ≡ true
  alone : (i j id id' m : ℕ) → s.pc i ≡ inside id m → s.pc j ≡ inside id' m → i ≡ j
  old : All (λ e. e.1 < s.shared.made) s.shared.locks

inside-Uses : (p : Pc) (id m : ℕ) → p ≡ inside id m → Uses p id m
inside-Uses p id m h = subst (λ x. Uses x id m) (sym h) (refl, refl)

inside-injective : {id id' m m' : ℕ} → inside id m ≡ inside id' m' → (id ≡ id') × (m ≡ m')
inside-injective h = (cc, cc)

not_inside : {id m : ℕ} → idle ≢ inside id m
not_inside h = cc

waiting_not_inside : {id m id' m' : ℕ} → waiting id m ≢ inside id' m'
waiting_not_inside h = cc

Uses-is_about : (p : Pc) (id m : ℕ) → Uses p id m → is_about p id ≢ false
Uses-is_about idle id m u h = u
Uses-is_about (waiting id' m') id m u h = absurd (ground arith)
Uses-is_about (inside id' m') id m u h = absurd (ground arith)

-- One execution moves: it does not hold a mutex that another holds.
write-alone :
    (pc : ℕ → Pc) (i : ℕ) (p : Pc)
    → ((j k id id' m : ℕ) → pc j ≡ inside id m → pc k ≡ inside id' m → j ≡ k)
    → ((j id id' m : ℕ) → j ≢ i → p ≡ inside id m → pc j ≡ inside id' m → ⊥)
    → (j k id id' m : ℕ) → write pc i p j ≡ inside id m
    → write pc i p k ≡ inside id' m
    → j ≡ k
write-alone pc i p alone new j k id id' m =
    write_lem (λ j' x. x ≡ inside id m → write pc i p k ≡ inside id' m → j' ≡ k) pc i p
      (write_lem (λ k' y. p ≡ inside id m → y ≡ inside id' m → i ≡ k') pc i p (λ a b. refl)
        (λ k' n a b. absurd (new k' id id' m n a b)) k)
      (λ j' n.
        write_lem (λ k' y. pc j' ≡ inside id m → y ≡ inside id' m → j' ≡ k') pc i p
          (λ a b. absurd (new j' id' id m n b a)) (λ k' n' a b. alone j' k' id id' m a b) k)
      j

module _ (s : System) (inv : Inv s) where
  enter-Inv :
      (i id m : ℕ) → s.pc i ≡ waiting id m → s.shared.locked m ≡ false → Inv (entered s i id m)
  enter-Inv i id m here free = record {
    mapped =
        write_lem (λ j p. (id' m' : ℕ) → Uses p id' m' → find_lock s.shared.locks id' ≡ some m')
          s.pc i (inside id m)
          (λ id' m' u. inv.mapped i id' m' (subst (λ x. Uses x id' m') (sym here) u))
          (λ j n. inv.mapped j);
    held =
        write_lem (λ j p. (id' m' : ℕ) → p ≡ inside id' m' → write s.shared.locked m true m' ≡ true)
          s.pc i (inside id m)
          (λ id' m' e.
            subst (λ x. write s.shared.locked m true x ≡ true) (inside-injective e).1
              (write_self s.shared.locked m true))
          (λ j n id' m' e.
            write_lem (λ x b. s.shared.locked x ≡ true → b ≡ true) s.shared.locked m true
              (λ q. refl) (λ x n' q. q) m' (inv.held j id' m' e));
    alone = write-alone s.pc i (inside id m) inv.alone (λ j id' id'' m' n e e'.
        let busy = inv.held j id'' m' e' in let same = (inside-injective e).1 in cc);
    old = inv.old;
  }

  unlock_lem :
      (i id m : ℕ)
      → s.pc i ≡ inside id m
      → unlock s.shared id ≡ ok (record s.shared { locked = write s.shared.locked m false })
  unfolding unlock
  unlock_lem i id m here =
      let found = inv.mapped i id m (inside-Uses (s.pc i) id m here) in
      rw (found, inv.held i id m here) refl

  leave-Inv :
      (i id m : ℕ)
      → s.pc i ≡ inside id m
      → Inv (left s i (record s.shared { locked = write s.shared.locked m false }))
  leave-Inv i id m here = record {
    mapped =
        write_lem (λ j p. (id' m' : ℕ) → Uses p id' m' → find_lock s.shared.locks id' ≡ some m')
          s.pc i idle (λ id' m' u. absurd u) (λ j n. inv.mapped j);
    held =
        write_lem
          (λ j p. (id' m' : ℕ) → p ≡ inside id' m' → write s.shared.locked m false m' ≡ true) s.pc i
          idle (λ id' m' e. absurd (not_inside e))
          (λ j n id' m' e.
            let apart : m' ≢ m =
              λ q. n (inv.alone j i id' id m (subst (λ x. s.pc j ≡ inside id' x) q e) here) in
            write_ne s.shared.locked m false m' apart ∙ inv.held j id' m' e);
    alone = write-alone s.pc i idle inv.alone (λ j id' id'' m' n e e'. not_inside e);
    old = inv.old;
  }

  clean-Inv : (ids : List ℕ) → IsUnused s ids → Inv (cleaned s ids)
  clean-Inv ids unused = record {
    mapped = λ i id m u. find-cleanup s.shared.locks ids id (kept i id m u) ∙ inv.mapped i id m u;
    held = inv.held;
    alone = inv.alone;
    old = cleanup-All s.shared.made s.shared.locks ids inv.old;
  }
    where
      kept : (i id m : ℕ) → Uses (s.pc i) id m → any (λ x. x == id) ids ≡ false
      kept i id m u = elim (Bool-cases (any (λ x. x == id) ids)) [
        | inr n ↦ n
        | inl y ↦ absurd (Uses-is_about (s.pc i) id m u (unused i id y))
      ]

  -- The mutex exists already.
  found-Inv :
      (i id m : ℕ)
      → find_lock s.shared.locks id ≡ some m
      → Inv (record s { pc = write s.pc i (waiting id m) })
  found-Inv i id m at = record {
    mapped =
        write_lem (λ j p. (id' m' : ℕ) → Uses p id' m' → find_lock s.shared.locks id' ≡ some m')
          s.pc i (waiting id m)
          (λ id' m' u. subst (λ x. find_lock s.shared.locks x ≡ some m') u.0 (at ∙ ap some u.1))
          (λ j n. inv.mapped j);
    held =
        write_lem (λ j p. (id' m' : ℕ) → p ≡ inside id' m' → s.shared.locked m' ≡ true) s.pc i
          (waiting id m) (λ id' m' e. absurd (waiting_not_inside e)) (λ j n. inv.held j);
    alone =
        write-alone s.pc i (waiting id m) inv.alone (λ j id' id'' m' n e e'. waiting_not_inside e);
    old = inv.old;
  }

  -- A mutex is made.
  made-Inv :
      (i id : ℕ)
      → find_lock s.shared.locks id ≡ none
      → Inv (record {
        shared = record {
          locks = (id, s.shared.made) ∷ s.shared.locks;
          locked = write s.shared.locked s.shared.made false;
          made = s.shared.made + 1;
        };
        pc = write s.pc i (waiting id s.shared.made);
      })
  unfolding find_lock
  made-Inv i id at = record {
    mapped =
        write_lem
          (λ j p.
            (id' m' : ℕ)
            → Uses p id' m'
            → find_lock ((id, s.shared.made) ∷ s.shared.locks) id' ≡ some m')
          s.pc i (waiting id s.shared.made)
          (λ id' m' u.
            subst (λ x. find_lock ((id, s.shared.made) ∷ s.shared.locks) x ≡ some m') u.0
              (rw (==_refl id) (ap some u.1)))
          (λ j n id' m' u. rw (ne→== id id' (other j id' m' u)) (inv.mapped j id' m' u));
    held =
        write_lem
          (λ j p.
            (id' m' : ℕ) → p ≡ inside id' m' → write s.shared.locked s.shared.made false m' ≡ true)
          s.pc i (waiting id s.shared.made) (λ id' m' e. absurd (waiting_not_inside e))
          (λ j n id' m' e.
            let older =
              find-All s.shared.made s.shared.locks id' m' inv.old
                (inv.mapped j id' m' (inside-Uses (s.pc j) id' m' e)) in
            write_ne s.shared.locked s.shared.made false m' (λ q. omega (arith, older, q))
            ∙ inv.held j id' m' e);
    alone =
        write-alone s.pc i (waiting id s.shared.made) inv.alone
          (λ j id' id'' m' n e e'. waiting_not_inside e);
    old = (omega arith, more-All s.shared.made s.shared.locks inv.old);
  }
    where
      other : (j id' m' : ℕ) → Uses (s.pc j) id' m' → id ≢ id'
      other j id' m' u same =
          let there = inv.mapped j id' m' u in
          let none_ : find_lock s.shared.locks id' ≡ none =
            subst (λ x. find_lock s.shared.locks x ≡ none) same at in
          cc

  fetch-Inv : (i id : ℕ) → Inv (fetched s i id)
  unfolding lock_of
  fetch-Inv i id = elim (Option-cases (find_lock s.shared.locks id)) [
    | inl missing ↦ rw missing (made-Inv i id missing)
    | inr (m, at) ↦ rw at (found-Inv i id m at)
  ]

start-Inv : Inv start
start-Inv = record {
  mapped = λ i id m u. absurd u;
  held = λ i id m e. absurd (not_inside e);
  alone = λ i j id id' m e e'. absurd (not_inside e);
  old = tt;
}

Step-Inv : {s t : System} → Inv s → (x : Step s t) → IsCareful x → Inv t
Step-Inv {s} inv (fetch i id here) u = fetch-Inv s inv i id
Step-Inv {s} inv (enter i id m here free) u = enter-Inv s inv i id m here free
Step-Inv {s} inv (leave i id m l here unlocks) u =
    let same = ok-injective (sym (unlock_lem s inv i id m here) ∙ unlocks) in
    subst (λ x. Inv (left s i x)) same (leave-Inv s inv i id m here)
Step-Inv {s} inv (clean ids) u = clean-Inv s inv ids u

Reach-Inv : {s : System} (r : Reach s) → AreCareful r → Inv s
Reach-Inv begin u = start-Inv
Reach-Inv (later r x) u = Step-Inv (Reach-Inv r u.0) x u.1

-- Provided that every cleanup is of positions that no execution is about at that moment: however the
-- executions take turns, two executions that are inside for one position are the same, and an execution
-- that is inside can unlock without a panic.
pub executions-exclusive :
    {s : System} (i j id m m' : ℕ) (r : Reach s)
    → AreCareful r
    → s.pc i ≡ inside id m
    → s.pc j ≡ inside id m'
    → (i ≡ j) × (l : Locks) × (unlock s.shared id ≡ ok l)
executions-exclusive {s} i j id m m' r u here there =
    let inv = Reach-Inv r u in
    let a = inv.mapped i id m (inside-Uses (s.pc i) id m here) in
    let b = inv.mapped j id m' (inside-Uses (s.pc j) id m' there) in
    let same : m' ≡ m = cc in
    (
      inv.alone i j id id m here (subst (λ x. s.pc j ≡ inside id x) same there),
      record s.shared { locked = write s.shared.locked m false },
      unlock_lem s inv i id m here,
    )
