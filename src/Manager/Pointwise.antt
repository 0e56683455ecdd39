-- ===== src/Manager/Pointwise.antt =====
-- The trigger engine and the levels of a position at one index, and the writes of
-- pkg/positionmanager/manager.go to a level and its trigger.
use dex_limit_order_manager.Prelude.{
  ℕ, ◌+◌, ◌<◌, ◌≡◌, ◌≢◌, sym, subst, ◌∙◌, Bool, true, false, some, List, arith, ◌==◌, if◌then◌else◌,
  Bool-cases, inl, inr, get_elem?, set, length, ==→eq, ==→ne,
}
use dex_limit_order_manager.Types.{TokenPair, Level, Direction, is_active}
use dex_limit_order_manager.Trigger.{TriggerEngine, register, unregister, update_trigger_price}
use dex_limit_order_manager.Trigger.Book.{Order}
use dex_limit_order_manager.Manager.Slots.{
  held, due_from, held-register, held-unregister, held-update,
}
use dex_limit_order_manager.Manager.Due.{asks, due-at, due-set}

module _ (pair : TokenPair) (id : ℕ) (d : Direction) where
  -- At the index `j` the engine holds what the levels ask for.
  abbrev pub AgreesAt : TriggerEngine → List Level → ℕ → Type 0
  AgreesAt e ls j = (q : Order → Bool) → held q e pair id j ≡ due_from q id d 0 ls j

  abbrev pub HoldsNothing : TriggerEngine → ℕ → Type 0
  HoldsNothing e j = (q : Order → Bool) → held q e pair id j ≡ 0

  module _ (e : TriggerEngine) (ls : List Level) (i : ℕ) (l : Level) (j : ℕ)
      (inside : i < length ls) (other : i ≢ j → AgreesAt e ls j) where
    due_written :
        (q : Order → Bool)
        → due_from q id d 0 (set ls i l) j
          ≡ (if i == j then asks q id d j l else due_from q id d 0 ls j)
    due_written q =
        let start : 0 + i ≡ i = omega arith in due-set q id d 0 ls i l j inside ∙ rw start

    -- A level that is not active is written, and nothing is held for it.
    pub write-AgreesAt :
        is_active l.status ≡ false → (i ≡ j → HoldsNothing e j) → AgreesAt e (set ls i l) j
    write-AgreesAt off none_ q = elim (Bool-cases (i == j)) [
      | inl y ↦ none_ (==→eq i j y) q ∙ sym (due_written q ∙ rw (y, off))
      | inr n ↦ other (==→ne i j n) q ∙ sym (due_written q ∙ rw n)
    ]

    -- A level that is not active is written, and its trigger removed.
    pub remove-AgreesAt :
        is_active l.status ≡ false → AgreesAt (unregister e pair id i) (set ls i l) j
    remove-AgreesAt off q = held-unregister q e pair id i j ∙ elim (Bool-cases (i == j)) [
      | inl y ↦ rw y (sym (due_written q ∙ rw (y, off)))
      | inr n ↦ rw n (other (==→ne i j n) q ∙ sym (due_written q ∙ rw n))
    ]

    -- An active level is written, and its trigger registered anew with its price.
    pub update-AgreesAt :
        is_active l.status ≡ true
        → AgreesAt (update_trigger_price e pair id i l.level_type d l.trigger_price) (set ls i l) j
    update-AgreesAt live q =
        held-update q e pair id i j l.level_type d l.trigger_price ∙ elim (Bool-cases (i == j)) [
          | inl y ↦ rw y (sym (due_written q ∙ rw (y, live, ==→eq i j y)))
          | inr n ↦ rw n (other (==→ne i j n) q ∙ sym (due_written q ∙ rw n))
        ]

  -- The trigger of an active level that the engine has lost is registered again.
  pub register-AgreesAt :
      (e : TriggerEngine) (ls : List Level) (i : ℕ) (l : Level) (j : ℕ)
      → get_elem? ls i ≡ some l
      → is_active l.status ≡ true
      → HoldsNothing e i
      → (i ≢ j → AgreesAt e ls j)
      → AgreesAt (register e pair id i l.level_type d l.trigger_price) ls j
  register-AgreesAt e ls i l j at live lost other q =
      held-register q e pair id i j l.level_type d l.trigger_price ∙ elim (Bool-cases (i == j)) [
        | inl y ↦
            let same : i ≡ j = ==→eq i j y in
            let start : 0 + i ≡ j = omega (arith, same) in
            let none_ : held q e pair id j ≡ 0 = subst (HoldsNothing e) same lost q in
            let due : due_from q id d 0 ls j ≡ asks q id d j l =
              subst (λ n. due_from q id d 0 ls n ≡ asks q id d n l) start
                (due-at q id d 0 ls i l at) in
            rw (y, same, none_, due, live) (omega arith)
        | inr n ↦ rw n (omega (arith, other (==→ne i j n) q))
      ]
