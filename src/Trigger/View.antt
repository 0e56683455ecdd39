-- ===== src/Trigger/View.antt =====
-- The engine of pkg/positionmanager/trigger.go seen pair by pair: what each operation does to the
-- triggers of every pair, and a history of operations.
use dex_limit_order_manager.Prelude.{
  ℕ, ◌≡◌, refl, if◌then◌else◌, Bool-cases, Option-cases, inl, inr, sym, ap, ◌∙◌,
}
use dex_limit_order_manager.Prelude.Int.{ℤ}
use dex_limit_order_manager.Types.{TokenPair, LevelType, Direction, pair_eq, pair_eq_iff}
use dex_limit_order_manager.Trigger.{
  change_pair, TriggerEngine, PairTriggers, get_or_create, find_pair, put_pair, find_pair-put_pair,
  add_trigger, should_trigger_above, entry_of, drop_entry, drop_position, fire, register,
  unregister, unregister_position, on_price, no_triggers,
}

-- The engine that `OnPrice` leaves is a change of the pair.
engine-on_price :
    (e : TriggerEngine) (p : TokenPair) (price : ℤ)
    → (on_price e p price).0 ≡ change_pair e p (λ pt. (fire pt p price).0)
unfolding on_price
engine-on_price e p price = elim (Option-cases (find_pair p e.pairs)) [
  | inl missing ↦ rw (missing, on_price, change_pair)
  | inr (t, found) ↦ rw (found, on_price, change_pair)
]

module _ (e : TriggerEngine) (p q : TokenPair) where
  view-put_pair :
      (t : PairTriggers)
      → get_or_create (record { pairs = put_pair p t e.pairs }) q
        ≡ (if pair_eq p q then t else get_or_create e q)
  unfolding get_or_create
  view-put_pair t =
      rw (find_pair-put_pair p q t e.pairs)
        (elim (Bool-cases (pair_eq p q)) [ inl y ↦ rw y | inr n ↦ rw n ])

  -- A change that leaves an empty pair empty acts on the pair and on no other.
  view-change_pair :
      (f : PairTriggers → PairTriggers)
      → f no_triggers ≡ no_triggers
      → get_or_create (change_pair e p f) q
        ≡ (if pair_eq p q then f (get_or_create e q) else get_or_create e q)
  unfolding get_or_create
  view-change_pair f empty = elim (Option-cases (find_pair p e.pairs)) [
    | inl missing ↦
        rw (missing, change_pair)
          (elim (Bool-cases (pair_eq p q)) [
            | inl y ↦ rw (y, ← (pair_eq_iff p q).0 y, missing) (sym empty)
            | inr n ↦ rw n
          ])
    | inr (t, found) ↦
        rw (found, change_pair)
          (view-put_pair (f t) ∙ elim (Bool-cases (pair_eq p q)) [
            | inl y ↦ rw (y, ← (pair_eq_iff p q).0 y, found)
            | inr n ↦ rw n
          ])
  ]

  pub view-register :
      (pos_id level_idx : ℕ) (t : LevelType) (d : Direction) (price : ℤ)
      → get_or_create (register e p pos_id level_idx t d price) q ≡ (
          if pair_eq p q
          then add_trigger
              (get_or_create e q)
              (should_trigger_above t d)
              (entry_of pos_id level_idx t price)
          else get_or_create e q)
  unfolding register
  view-register pos_id level_idx t d price =
      view-put_pair _
      ∙ elim (Bool-cases (pair_eq p q)) [ inl y ↦ rw (y, (pair_eq_iff p q).0 y) | inr n ↦ rw n ]

  pub view-unregister :
      (pos_id level_idx : ℕ)
      → get_or_create (unregister e p pos_id level_idx) q ≡ (
          if pair_eq p q
          then drop_entry (get_or_create e q) pos_id level_idx
          else get_or_create e q)
  unfolding unregister
  view-unregister pos_id level_idx = view-change_pair (λ pt. drop_entry pt pos_id level_idx) refl

  pub view-unregister_position :
      (pos_id : ℕ)
      → get_or_create (unregister_position e p pos_id) q
        ≡ (if pair_eq p q then drop_position (get_or_create e q) pos_id else get_or_create e q)
  unfolding unregister_position
  view-unregister_position pos_id = view-change_pair (λ pt. drop_position pt pos_id) refl

  pub view-on_price :
      (price : ℤ)
      → get_or_create (on_price e p price).0 q
        ≡ (if pair_eq p q then (fire (get_or_create e q) p price).0 else get_or_create e q)
  unfolding fire
  view-on_price price =
      ap (λ x. get_or_create x q) (engine-on_price e p price)
      ∙ view-change_pair (λ pt. (fire pt p price).0) refl

pub events-on_price :
    (e : TriggerEngine) (p : TokenPair) (price : ℤ)
    → (on_price e p price).1 ≡ (fire (get_or_create e p) p price).1
unfolding get_or_create on_price
events-on_price e p price = elim (Option-cases (find_pair p e.pairs)) [
  | inl missing ↦ rw (missing, on_price)
  | inr (t, found) ↦ rw (found, on_price)
]
