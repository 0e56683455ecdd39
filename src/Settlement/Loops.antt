-- ===== src/Settlement/Loops.antt =====
-- The loops of `executeTrigger` of pkg/positionmanager/manager.go over the levels after a swap, next to
-- what they do to the trigger engine, at one index.
use dex_limit_order_manager.Prelude.{
  ℕ, zero, suc, ◌+◌, ◌-◌, ◌≤◌, ◌≡◌, ◌≢◌, refl, sym, ap, subst, ◌∙◌, Bool, true, false, not, ◌&&◌,
  Option, none, some, List, [], ◌∷◌, ◌++◌, arith, ◌==◌, Bool-cases, Option-cases, inl, inr,
  get_elem?, set, ne→==,
}
use dex_limit_order_manager.Prelude.Int.{ℤ, pos, negsuc, is_pos}
use dex_limit_order_manager.Types.{
  Position, Level, LevelStatus, is_active, pair_of, active_sl, find_active_sl, is_active_sl,
}
use dex_limit_order_manager.Errors.{ok, succeeded}
use dex_limit_order_manager.Trigger.{TriggerEngine, unregister, update_trigger_price}
use dex_limit_order_manager.Trigger.Book.{Order}
use dex_limit_order_manager.Manager.Slots.{held, due_from, held-unregister}
use dex_limit_order_manager.Manager.Due.{get_elem?-lt}
use dex_limit_order_manager.Manager.Registered.{IsIndexed}
use dex_limit_order_manager.Manager.Pointwise.{
  AgreesAt, HoldsNothing, remove-AgreesAt, update-AgreesAt,
}
use dex_limit_order_manager.Settlement.{
  cancel_others, cancel_at, cancel_listed, move_at, move_found, move_sl, unregister_all,
  move_trigger,
}

-- The active stop-loss that is found: it is active, and carries its place.
find_active_sl_lem :
    (k : ℕ) (ls : List Level) (n : ℕ)
    → find_active_sl k ls ≡ some n
    → IsIndexed k ls
    → (l : Level) × (k ≤ n)
      × (get_elem? ls (n - k) ≡ some l)
      × (is_active l.status ≡ true)
      × (l.index ≡ n)
unfolding find_active_sl IsIndexed
find_active_sl_lem k [] n h indexed = cc
find_active_sl_lem k (l ∷ ls) n h indexed = elim (Bool-cases (is_active_sl l)) [
  | inl y ↦
      let same : k ≡ n = ground arith in
      let first : n - k ≡ 0 = omega (arith, same) in
      (l, omega (arith, same), rw first, ground arith, indexed.0 ∙ same)
  | inr no_ ↦
      let rest : find_active_sl (k + 1) ls ≡ some n = ground arith in
      let (x, le, at, live, index) = find_active_sl_lem (k + 1) ls n rest indexed.1 in
      let next : n - k ≡ suc (n - (k + 1)) = omega (arith, le) in
      (x, omega (arith, le), rw next at, live, index)
]

module _ (p : Position) (j : ℕ) where
  unregister_all-append :
      (e : TriggerEngine) (is ks : List ℕ)
      → unregister_all e p (is ++ ks) ≡ unregister_all (unregister_all e p is) p ks
  unfolding unregister_all
  unregister_all-append e [] ks = refl
  unregister_all-append e (i ∷ is) ks =
      unregister_all-append (unregister e (pair_of p) p.id i) is ks

  -- Removing triggers adds none.
  unregister_all-HoldsNothing :
      (e : TriggerEngine) (is : List ℕ)
      → HoldsNothing (pair_of p) p.id p.direction e j
      → HoldsNothing (pair_of p) p.id p.direction (unregister_all e p is) j
  unfolding unregister_all
  unregister_all-HoldsNothing e [] h q = h q
  unregister_all-HoldsNothing e (i ∷ is) h q =
      unregister_all-HoldsNothing (unregister e (pair_of p) p.id i) is
        (λ r.
          held-unregister r e (pair_of p) p.id i j
          ∙ elim (Bool-cases (i == j)) [ inl y ↦ rw y | inr n ↦ rw n (h r) ])
        q

  -- The levels from `k` on ask at `j` for what the engine holds there.
  abbrev pub AgreesFrom : TriggerEngine → ℕ → List Level → Type 0
  AgreesFrom e k ls =
      (q : Order → Bool) → held q e (pair_of p) p.id j ≡ due_from q p.id p.direction k ls j

  -- The fired level is not active, so the loop leaves no level active, and removes their triggers.
  pub cancel_others-AgreesFrom :
      (fired k : ℕ) (e : TriggerEngine) (ls : List Level)
      → ((m : ℕ) (l : Level) → get_elem? ls m ≡ some l → k + m ≡ fired → is_active l.status ≡ false)
      → AgreesFrom e k ls
      → let r = cancel_others fired k ls in AgreesFrom (unregister_all e p r.1) k r.0
  unfolding cancel_others unregister_all due_from
  cancel_others-AgreesFrom fired k e [] h s q = s q
  cancel_others-AgreesFrom fired k e (l ∷ ls) h s q = elim (Bool-cases (is_active l.status)) [
    | inl live ↦
        let hit : (not (k == fired) && is_active l.status) ≡ true =
          ground (arith, ne→== k fired, spared live) in
        rw hit (elim (Bool-cases (k == j)) [
          | inl y ↦ rw y (
              unregister_all-HoldsNothing (unregister e (pair_of p) p.id k)
                (cancel_others fired (k + 1) ls).1
                (λ r. held-unregister r e (pair_of p) p.id k j ∙ rw y) q)
          | inr n ↦ rw n (
              cancel_others-AgreesFrom fired (k + 1) (unregister e (pair_of p) p.id k) ls later
                (λ r. held-unregister r e (pair_of p) p.id k j ∙ rw n (s r ∙ rw n)) q)
        ])
    | inr dead ↦
        let miss : (not (k == fired) && is_active l.status) ≡ false = ground arith in
        rw miss (elim (Bool-cases (k == j)) [
          | inl y ↦
              rw (y, dead)
                (unregister_all-HoldsNothing e (cancel_others fired (k + 1) ls).1
                  (λ r. s r ∙ rw (y, dead)) q)
          | inr n ↦ rw n (cancel_others-AgreesFrom fired (k + 1) e ls later (λ r. s r ∙ rw n) q)
        ])
  ]
    where
      spared : is_active l.status ≡ true → k ≢ fired
      spared live same = let dead = h 0 l refl (omega (arith, same)) in cc

      later :
          (m : ℕ) (x : Level)
          → get_elem? ls m ≡ some x
          → k + 1 + m ≡ fired
          → is_active x.status ≡ false
      later m x at e' = h (suc m) x at (omega (arith, e'))

  cancel_at-AgreesAt :
      (e : TriggerEngine) (ls : List Level) (i : ℕ)
      → AgreesAt (pair_of p) p.id p.direction e ls j
      → let r = cancel_at ls i (get_elem? ls i) in
        AgreesAt (pair_of p) p.id p.direction (unregister_all e p r.1) r.0 j
  unfolding cancel_at unregister_all
  cancel_at-AgreesAt e ls i s = elim (Option-cases (get_elem? ls i)) [
    | inl missing ↦ rw missing s
    | inr (l, at) ↦ rw at (elim (Bool-cases (is_active l.status)) [
      | inr dead ↦ rw dead s
      | inl live ↦ rw live (
          remove-AgreesAt (pair_of p) p.id p.direction e ls i
            (record l { status = LevelStatus.cancelled }) j (get_elem?-lt ls i l at) (λ n. s) refl)
    ])
  ]

  -- The loop over `CancelOnFire` keeps levels and triggers in step.
  pub cancel_listed-AgreesAt :
      (e : TriggerEngine) (ls : List Level) (is : List ℤ) (r : List Level × List ℕ)
      → cancel_listed ls is ≡ ok r
      → AgreesAt (pair_of p) p.id p.direction e ls j
      → AgreesAt (pair_of p) p.id p.direction (unregister_all e p r.1) r.0 j
  unfolding cancel_listed unregister_all
  cancel_listed-AgreesAt e ls [] r h s =
      let same : (ls, []) ≡ r = cc in
      subst
        (λ (x : List Level × List ℕ).
          AgreesAt (pair_of p) p.id p.direction (unregister_all e p x.1) x.0 j)
        same s
  cancel_listed-AgreesAt e ls (negsuc i ∷ is) r h s = cc
  cancel_listed-AgreesAt e ls (pos i ∷ is) r h s =
      let now = cancel_at ls i (get_elem? ls i) in
      let (later, worked, end) = succeeded (cancel_listed now.0 is) _ h in
      let same : (later.0, now.1 ++ later.1) ≡ r = cc in
      subst
        (λ (x : List Level × List ℕ).
          AgreesAt (pair_of p) p.id p.direction (unregister_all e p x.1) x.0 j)
        same
        (rw (unregister_all-append e now.1 later.1) (
          cancel_listed-AgreesAt (unregister_all e p now.1) now.0 is later worked
            (cancel_at-AgreesAt e ls i s)))

  -- `MoveSLTo` moves the level and its trigger alike, since levels carry their places.
  pub move_sl-AgreesAt :
      (e : TriggerEngine) (p' : Position) (price : Option ℤ)
      → IsIndexed 0 p'.levels
      → AgreesAt (pair_of p) p.id p.direction e p'.levels j
      → let r = move_sl p' price in
        AgreesAt (pair_of p) p.id p.direction (move_trigger e p r.1) r.0 j
  unfolding move_sl move_trigger active_sl move_found move_at
  move_sl-AgreesAt e p' none indexed s = s
  move_sl-AgreesAt e p' (some price) indexed s = elim (Bool-cases (is_pos price)) [
    | inr n ↦ rw n s
    | inl y ↦ rw y (elim (Option-cases (find_active_sl 0 p'.levels)) [
      | inl missing ↦ rw missing s
      | inr (n, found) ↦
          let (l, le, at, live, index) = find_active_sl_lem 0 p'.levels n found indexed in
          let start : n - 0 ≡ n = omega arith in
          let here : get_elem? p'.levels n ≡ some l =
            subst (λ m. get_elem? p'.levels m ≡ some l) start at in
          rw (found, here)
            (subst
              (λ m.
                AgreesAt (pair_of p) p.id p.direction
                  (update_trigger_price e (pair_of p) p.id m l.level_type p.direction price)
                  (set p'.levels n (record l { trigger_price = price })) j)
              (sym index)
              (update-AgreesAt (pair_of p) p.id p.direction e p'.levels n
                (record l { trigger_price = price }) j (get_elem?-lt p'.levels n l here) (λ o. s)
                live))
    ])
  ]

-- The writes of a settlement leave the places of the levels alone.
pub set-IsIndexed :
    (k : ℕ) (ls : List Level) (i : ℕ) (l x : Level)
    → get_elem? ls i ≡ some l
    → x.index ≡ l.index
    → IsIndexed k ls
    → IsIndexed k (set ls i x)
unfolding IsIndexed
set-IsIndexed k [] i l x at same h = tt
set-IsIndexed k (y ∷ ls) zero l x at same h =
    let here : y ≡ l = cc in (same ∙ sym (ap (λ (z : Level). z.index) here) ∙ h.0, h.1)
set-IsIndexed k (y ∷ ls) (suc i) l x at same h = (h.0, set-IsIndexed (k + 1) ls i l x at same h.1)

pub cancel_listed-IsIndexed :
    (ls : List Level) (is : List ℤ) (r : List Level × List ℕ)
    → cancel_listed ls is ≡ ok r
    → IsIndexed 0 ls
    → IsIndexed 0 r.0
unfolding cancel_listed cancel_at
cancel_listed-IsIndexed ls [] r h indexed =
    let same : (ls, []) ≡ r = cc in
    subst (λ (x : List Level × List ℕ). IsIndexed 0 x.0) same indexed
cancel_listed-IsIndexed ls (negsuc i ∷ is) r h indexed = cc
cancel_listed-IsIndexed ls (pos i ∷ is) r h indexed =
    let now = cancel_at ls i (get_elem? ls i) in
    let (later, worked, end) = succeeded (cancel_listed now.0 is) _ h in
    let same : (later.0, now.1 ++ later.1) ≡ r = cc in
    subst (λ (x : List Level × List ℕ). IsIndexed 0 x.0) same
      (cancel_listed-IsIndexed now.0 is later worked kept)
  where
    kept : IsIndexed 0 (cancel_at ls i (get_elem? ls i)).0
    kept = elim (Option-cases (get_elem? ls i)) [
      | inl missing ↦ rw missing indexed
      | inr (l, at) ↦ rw at (elim (Bool-cases (is_active l.status)) [
        | inr dead ↦ rw dead indexed
        | inl live ↦
            rw live
              (set-IsIndexed 0 ls i l (record l { status = LevelStatus.cancelled }) at refl indexed)
      ])
    ]
