-- ===== src/Manager/Due.antt =====
-- What the levels of a position ask of the trigger engine, under the writes of
-- pkg/positionmanager/manager.go to its levels, and under reactivation.
use dex_limit_order_manager.Prelude.{
  ℕ, zero, suc, ◌+◌, ◌≤◌, ◌<◌, ◌≡◌, refl, ap, ◌∙◌, Bool, true, false, some, List, [], ◌∷◌, ◌++◌,
  arith, ◌==◌, if◌then◌else◌, Bool-cases, inl, inr, get_elem?, set, length, ==_iff, subst, ne→==,
  ==→eq, ==→ne,
}
use dex_limit_order_manager.Types.{
  Position, Level, LevelStatus, Direction, is_active, is_suspended, pair_of,
}
use dex_limit_order_manager.Trigger.{TriggerEngine, register}
use dex_limit_order_manager.Trigger.Book.{Order}
use dex_limit_order_manager.Manager.{reactivate}
use dex_limit_order_manager.Manager.Slots.{held, once, order_of, due_from, held-register, Matches}

module _ (q : Order → Bool) (id : ℕ) (d : Direction) where
  abbrev pub asks : ℕ → Level → ℕ
  asks j l =
      if is_active l.status then once (q (order_of id d j l.level_type l.trigger_price)) else 0

  pub due-above : (k : ℕ) (ls : List Level) (j : ℕ) → k + length ls ≤ j → due_from q id d k ls j ≡ 0
  unfolding due_from
  due-above k [] j h = refl
  due-above k (l ∷ ls) j h = rw (ne→== k j (omega arith)) (due-above (k + 1) ls j (omega arith))

  pub due-at :
      (k : ℕ) (ls : List Level) (i : ℕ) (l : Level)
      → get_elem? ls i ≡ some l
      → due_from q id d k ls (k + i) ≡ asks (k + i) l
  unfolding due_from
  due-at k [] i l e = cc
  due-at k (x ∷ ls) zero l e =
      let same : x ≡ l = cc in
      rw ((==_iff k (k + zero)).1 (omega arith)) (ap (asks (k + zero)) same)
  due-at k (x ∷ ls) (suc i) l e =
      rw (ne→== k (k + suc i) (omega arith)) (
        subst (λ n. due_from q id d (k + 1) ls n ≡ asks n l) (omega arith)
          (due-at (k + 1) ls i l e))

  -- A write to a level that is there.
  pub due-set :
      (k : ℕ) (ls : List Level) (i : ℕ) (l : Level) (j : ℕ)
      → i < length ls
      → due_from q id d k (set ls i l) j ≡ (if k + i == j then asks j l else due_from q id d k ls j)
  unfolding due_from
  due-set k [] i l j h = elim h [ ]
  due-set k (x ∷ ls) zero l j h = elim (Bool-cases (k == j)) [
    | inl y ↦ rw (y, (==_iff (k + zero) j).1 (omega (arith, ==→eq k j y)))
    | inr n ↦ rw (n, ne→== (k + zero) j (λ e. ==→ne k j n (omega arith)))
  ]
  due-set k (x ∷ ls) (suc i) l j h = elim (Bool-cases (k == j)) [
    | inl y ↦ rw (y, ne→== (k + suc i) j (omega (arith, ==→eq k j y)))
    | inr n ↦ rw n (
        due-set (k + 1) ls i l j (omega arith)
        ∙ ap (λ t. if t == j then asks j l else due_from q id d (k + 1) ls j) (omega arith))
  ]

  pub due-append :
      (k : ℕ) (ls : List Level) (l : Level) (j : ℕ)
      → due_from q id d k (ls ++ (l ∷ [])) j
        ≡ (if k + length ls == j then asks j l else due_from q id d k ls j)
  unfolding due_from
  due-append k [] l j = elim (Bool-cases (k == j)) [
    | inl y ↦ rw (y, (==_iff (k + 0) j).1 (omega (arith, ==→eq k j y)))
    | inr n ↦ rw (n, ne→== (k + 0) j (λ e. ==→ne k j n (omega arith)))
  ]
  due-append k (x ∷ ls) l j = elim (Bool-cases (k == j)) [
    | inl y ↦ rw (y, ne→== (k + suc (length ls)) j (omega (arith, ==→eq k j y)))
    | inr n ↦ rw n (
        due-append (k + 1) ls l j
        ∙ ap (λ t. if t == j then asks j l else due_from q id d (k + 1) ls j) (omega arith))
  ]

pub get_elem?-lt : (ls : List Level) (i : ℕ) (l : Level) → get_elem? ls i ≡ some l → i < length ls
get_elem?-lt [] i l e = cc
get_elem?-lt (x ∷ ls) zero l e = omega arith
get_elem?-lt (x ∷ ls) (suc i) l e = omega (arith, get_elem?-lt ls i l e)

module _ (q : Order → Bool) (p : Position) where
  reactivate-below :
      (k : ℕ) (e : TriggerEngine) (ls : List Level) (j : ℕ)
      → j < k
      → held q (reactivate p k e ls).0 (pair_of p) p.id j ≡ held q e (pair_of p) p.id j
  unfolding reactivate
  reactivate-below k e [] j h = refl
  reactivate-below k e (l ∷ ls) j h =
      reactivate-below (k + 1) _ ls j (omega arith) ∙ elim (Bool-cases (is_suspended l.status)) [
        | inl y ↦ rw y (
            held-register q e (pair_of p) p.id k j l.level_type p.direction l.trigger_price
            ∙ rw (ne→== k j (omega arith)) (omega arith))
        | inr n ↦ rw n
      ]

  fresh :
      (k j : ℕ) (e : TriggerEngine) (l : Level)
      → (k == j) ≡ true
      → held q e (pair_of p) p.id j ≡ 0
      → held q
          (register e (pair_of p) p.id k l.level_type p.direction l.trigger_price)
          (pair_of p)
          p.id
          j
        ≡ once (q (order_of p.id p.direction j l.level_type l.trigger_price))
  fresh k j e l y z =
      held-register q e (pair_of p) p.id k j l.level_type p.direction l.trigger_price
      ∙ rw (y, z, ==→eq k j y) (omega arith)

  suspended-inactive : (s : LevelStatus) → is_suspended s ≡ true → is_active s ≡ false
  suspended-inactive s h = ground arith

  -- Each suspended level gets its trigger back, and the others keep what they have.
  pub reactivate-Matches :
      (k : ℕ) (e : TriggerEngine) (ls : List Level)
      → Matches q (pair_of p) p.id p.direction e k ls
      → let r = reactivate p k e ls in Matches q (pair_of p) p.id p.direction r.0 k r.1
  unfolding reactivate due_from
  reactivate-Matches k e [] m j le = m j le
  reactivate-Matches k e (l ∷ ls) m j le = elim (Bool-cases (k == j)) [
    | inl y ↦ rw y (
        reactivate-below (k + 1) _ ls j (omega (arith, ==→eq k j y))
        ∙ elim (Bool-cases (is_suspended l.status)) [
          | inl s ↦ rw s (fresh k j e l y (m j le ∙ rw (y, suspended-inactive l.status s)))
          | inr n ↦ rw n (m j le ∙ rw y)
        ])
    | inr n ↦
        rw n (reactivate-Matches (k + 1) _ ls (λ i h. rest i h) j (omega (arith, ==→ne k j n)))
  ]
    where
      rest :
          (i : ℕ)
          → k + 1 ≤ i
          → held q
              (if is_suspended l.status
                then register e (pair_of p) p.id k l.level_type p.direction l.trigger_price
                else e)
              (pair_of p)
              p.id
              i
            ≡ due_from q p.id p.direction (k + 1) ls i
      rest i h =
          elim (Bool-cases (is_suspended l.status)) [
            | inl a ↦ rw a (
                held-register q e (pair_of p) p.id k i l.level_type p.direction l.trigger_price
                ∙ rw (ne→== k i (omega arith)) (omega arith))
            | inr b ↦ rw b
          ]
          ∙ m i (omega arith)
          ∙ rw (ne→== k i (omega arith))
