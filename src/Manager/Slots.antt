-- ===== src/Manager/Slots.antt =====
-- The triggers of one level of one position, and what the loops of
-- pkg/positionmanager/manager.go do to them.
use dex_limit_order_manager.Prelude.{
  ℕ, ◌+◌, ◌≤◌, ◌<◌, ◌≡◌, refl, ap, ◌∙◌, Bool, true, false, not, ◌&&◌, List, [], ◌∷◌, arith, ◌==◌,
  if◌then◌else◌, Bool-cases, inl, inr, tally, tally-cons, tally-keep, tally-congr, tally-nothing,
  ==_refl, ne→==, ==→eq, ==→ne,
}
use dex_limit_order_manager.Prelude.Int.{ℤ}
use dex_limit_order_manager.Types.{
  TokenPair, Level, LevelType, LevelStatus, Direction, is_active, pair_eq_refl,
}
use dex_limit_order_manager.Trigger.{
  TriggerEngine, get_or_create, register, unregister, update_trigger_price, is_entry_of, entry_of,
  should_trigger_above,
}
use dex_limit_order_manager.Trigger.Book.{
  Order, on_side, orders, orders-add_trigger, orders-drop_entry,
}
use dex_limit_order_manager.Trigger.View
use dex_limit_order_manager.Manager.{sweep}

-- How many orders that pass a test the pair holds for the level `j` of a position.
abbrev pub held : (Order → Bool) → TriggerEngine → TokenPair → ℕ → ℕ → ℕ
held q e p id j = tally (λ o. is_entry_of id j o.entry && q o) (orders (get_or_create e p))

-- The order that stands for a level.
abbrev pub order_of : ℕ → Direction → ℕ → LevelType → ℤ → Order
order_of id d i t price = on_side (should_trigger_above t d) (entry_of id i t price)

abbrev pub once : Bool → ℕ
once b = if b then 1 else 0

module _ (q : Order → Bool) (e : TriggerEngine) (p : TokenPair) (id i j : ℕ) where
  pub held-register :
      (t : LevelType) (d : Direction) (price : ℤ)
      → held q (register e p id i t d price) p id j
        ≡ (if i == j then once (q (order_of id d i t price)) else 0) + held q e p id j
  held-register t d price =
      let test = λ (o : Order). is_entry_of id j o.entry && q o in
      ap (λ pt. tally test (orders pt))
        (View.view-register e p p id i t d price ∙ rw (pair_eq_refl p))
      ∙ orders-add_trigger (get_or_create e p) (should_trigger_above t d) (entry_of id i t price)
          test
      ∙ tally-cons test (order_of id d i t price) (orders (get_or_create e p))
      ∙ rw (==_refl id) (elim (Bool-cases (i == j)) [ inl y ↦ rw y | inr n ↦ rw n ])

  pub held-unregister :
      held q (unregister e p id i) p id j ≡ (if i == j then 0 else held q e p id j)
  held-unregister =
      let test = λ (o : Order). is_entry_of id j o.entry && q o in
      ap (λ pt. tally test (orders pt)) (View.view-unregister e p p id i ∙ rw (pair_eq_refl p))
      ∙ ap (tally test) (orders-drop_entry (get_or_create e p) id i)
      ∙ tally-keep test _ (orders (get_or_create e p))
      ∙ elim (Bool-cases (i == j)) [
        | inl y ↦ rw y (
            tally-congr _ (λ o. false) _ (λ o. same o y)
            ∙ tally-nothing (orders (get_or_create e p)))
        | inr n ↦ rw n (tally-congr _ test _ (λ o. other o n))
      ]
    where
      same :
          (o : Order)
          → (i == j) ≡ true
          → (not (is_entry_of id i o.entry) && (is_entry_of id j o.entry && q o)) ≡ false
      same o y = ground arith

      other :
          (o : Order)
          → (i == j) ≡ false
          → (not (is_entry_of id i o.entry) && (is_entry_of id j o.entry && q o))
            ≡ (is_entry_of id j o.entry && q o)
      other o n = ground arith

pub held-update :
    (q : Order → Bool) (e : TriggerEngine) (p : TokenPair) (id i j : ℕ) (t : LevelType)
    (d : Direction) (price : ℤ)
    → held q (update_trigger_price e p id i t d price) p id j
      ≡ (if i == j then once (q (order_of id d i t price)) else held q e p id j)
unfolding update_trigger_price
held-update q e p id i j t d price =
    held-register q (unregister e p id i) p id i j t d price
    ∙ rw (held-unregister q e p id i j)
        (elim (Bool-cases (i == j)) [ inl y ↦ rw y (omega arith) | inr n ↦ rw n (omega arith) ])

-- The orders that the levels of a list, counted from `k`, ask for at the index `j`: one for an
-- active level, none for another, nor where there is no level.
unfoldable pub due_from : (Order → Bool) → ℕ → Direction → ℕ → List Level → ℕ → ℕ
due_from q id d k [] j = 0
due_from q id d k (l ∷ ls) j =
    let later = due_from q id d (k + 1) ls j in
    if k == j
    then (if is_active l.status then once (q (order_of id d j l.level_type l.trigger_price)) else 0)
    else later

module _ (q : Order → Bool) (p : TokenPair) (id : ℕ) (d : Direction) where
  -- The engine holds for the indices from `k` on what the levels ask for.
  abbrev pub Matches : TriggerEngine → ℕ → List Level → Type 0
  Matches e k ls = (j : ℕ) → k ≤ j → held q e p id j ≡ due_from q id d k ls j

  module _ (to : LevelStatus) (retired : is_active to ≡ false) where
    -- A sweep with nothing skipped leaves the triggers of smaller indices alone.
    sweep-below :
        (k : ℕ) (e : TriggerEngine) (ls : List Level) (j : ℕ)
        → j < k
        → held q (sweep to (λ i. false) p id k e ls).0 p id j ≡ held q e p id j
    unfolding sweep
    sweep-below k e [] j h = refl
    sweep-below k e (l ∷ ls) j h =
        sweep-below (k + 1) _ ls j (omega arith) ∙ elim (Bool-cases (is_active l.status)) [
          | inl y ↦ rw y (held-unregister q e p id k j ∙ rw (ne→== k j (omega arith)))
          | inr n ↦ rw n
        ]

    -- Swept levels ask for nothing, and nothing is held for them.
    pub sweep-Matches :
        (k : ℕ) (e : TriggerEngine) (ls : List Level)
        → Matches e k ls
        → let r = sweep to (λ i. false) p id k e ls in Matches r.0 k r.1
    unfolding sweep due_from
    sweep-Matches k e [] m j le = m j le
    sweep-Matches k e (l ∷ ls) m j le = elim (Bool-cases (k == j)) [
      | inl y ↦ rw y (
          sweep-below (k + 1) _ ls j (omega (arith, ==→eq k j y))
          ∙ elim (Bool-cases (is_active l.status)) [
            | inl a ↦ rw (a, retired) (held-unregister q e p id k j ∙ rw y)
            | inr n ↦ rw (n, n) (m j le ∙ rw (y, n))
          ])
      | inr n ↦ rw n (sweep-Matches (k + 1) _ ls (λ i h. rest i h) j (omega (arith, ==→ne k j n)))
    ]
      where
        rest :
            (i : ℕ)
            → k + 1 ≤ i
            → held q (if is_active l.status then unregister e p id k else e) p id i
              ≡ due_from q id d (k + 1) ls i
        rest i h =
            elim (Bool-cases (is_active l.status)) [
              | inl a ↦ rw a (held-unregister q e p id k i ∙ rw (ne→== k i (omega arith)))
              | inr b ↦ rw b
            ]
            ∙ m i (omega arith)
            ∙ rw (ne→== k i (omega arith))
