-- ===== src/Trigger/Sorted.antt =====
-- The two slices of a pair in pkg/positionmanager/trigger.go are sorted by price, and stay so.
use dex_limit_order_manager.Prelude.{
  ℕ, ◌≡◌, sym, subst, Bool, true, false, not, List, [], ◌∷◌, ◌++◌, arith, if◌then◌else◌, Bool-cases,
  inl, inr, keep, All, All-append, All-map, All-keep, keep-All,
}
use dex_limit_order_manager.Prelude.Int.{ℤ, ◌≤ℤ◌, ltb_ℤ, leb_ℤ}
use dex_limit_order_manager.Types.{TokenPair, LevelType, Direction, pair_eq}
use dex_limit_order_manager.Trigger.{
  TriggerEntry, PairTriggers, TriggerEngine, insert_sorted, should_trigger_above, entry_of,
  add_trigger, drop_entry, drop_position, fire, new_engine, get_or_create, register, unregister,
  unregister_position, update_trigger_price, on_price,
}
use dex_limit_order_manager.Trigger.Search.{Rises, cutoff-keep}
use dex_limit_order_manager.Trigger.View

-- Ascending by price.
abbrev pub IsSorted : List TriggerEntry → Type 0
IsSorted [] = Unit
IsSorted (x ∷ xs) = All (λ y. x.price ≤ℤ y.price) xs × IsSorted xs

pub record IsOrdered (pt : PairTriggers) : Type 0 where
  pub above_sorted : IsSorted pt.above
  pub below_sorted : IsSorted pt.below

-- A test on an entry that holds at every dearer entry too.
abbrev pub Upward : (TriggerEntry → Bool) → Type 0
Upward q = (x y : TriggerEntry) → x.price ≤ℤ y.price → q x ≡ true → q y ≡ true

pub Upward-gt : (p : ℤ) → Upward (λ x. ltb_ℤ p x.price)
Upward-gt p x y le h = ground arith

pub Upward-ge : (p : ℤ) → Upward (λ x. leb_ℤ p x.price)
Upward-ge p x y le h = ground arith

pub IsSorted-Rises :
    (q : TriggerEntry → Bool) → Upward q → (xs : List TriggerEntry) → IsSorted xs → Rises q xs
IsSorted-Rises q up [] s = tt
IsSorted-Rises q up (x ∷ xs) s =
    (λ h. All-map _ _ xs (λ y le. up x y le h) s.0, IsSorted-Rises q up xs s.1)

pub keep-IsSorted :
    (q : TriggerEntry → Bool) (xs : List TriggerEntry) → IsSorted xs → IsSorted (keep q xs)
unfolding keep
keep-IsSorted q [] s = tt
keep-IsSorted q (x ∷ xs) s = elim (Bool-cases (q x)) [
  | inl e ↦ rw e (All-keep _ q xs s.0, keep-IsSorted q xs s.1)
  | inr e ↦ rw e (keep-IsSorted q xs s.1)
]

append-IsSorted :
    (x : TriggerEntry) (xs ys : List TriggerEntry)
    → IsSorted xs
    → IsSorted ys
    → All (λ y. y.price ≤ℤ x.price) xs
    → All (λ y. x.price ≤ℤ y.price) ys
    → IsSorted (xs ++ (x ∷ ys))
append-IsSorted x [] ys s t lo hi = (hi, t)
append-IsSorted x (z ∷ xs) ys s t lo hi = (
  All-append _ xs (x ∷ ys) s.0
      (lo.0, All-map _ _ ys (λ y le. le_trans-ℤ z.price x.price y.price lo.0 le) hi),
  append-IsSorted x xs ys s.1 t lo.1 hi,
)
  where
    le_trans-ℤ : (a b c : ℤ) → a ≤ℤ b → b ≤ℤ c → a ≤ℤ c
    le_trans-ℤ a b c h k = omega arith

-- `insertSorted` puts the entry behind all that are not dearer: `keep` says it without indices.
pub insert_sorted-keep :
    (xs : List TriggerEntry) (x : TriggerEntry)
    → IsSorted xs
    → insert_sorted xs x
      ≡ keep (λ y. not (ltb_ℤ x.price y.price)) xs ++ (x ∷ keep (λ y. ltb_ℤ x.price y.price) xs)
unfolding insert_sorted
insert_sorted-keep xs x s =
    let (lo, hi) = cutoff-keep _ xs (IsSorted-Rises _ (Upward-gt x.price) xs s) in rw (lo, hi)

pub insert_sorted-IsSorted :
    (xs : List TriggerEntry) (x : TriggerEntry) → IsSorted xs → IsSorted (insert_sorted xs x)
insert_sorted-IsSorted xs x s = rw (insert_sorted-keep xs x s) (
    append-IsSorted x _ _ (keep-IsSorted _ xs s) (keep-IsSorted _ xs s)
      (All-map _ _ _ (λ y h. ground arith) (keep-All _ xs))
      (All-map _ _ _ (λ y h. ground arith) (keep-All _ xs)))

add_trigger-IsOrdered :
    (pt : PairTriggers) (is_above : Bool) (x : TriggerEntry)
    → IsOrdered pt
    → IsOrdered (add_trigger pt is_above x)
unfolding add_trigger
add_trigger-IsOrdered pt true x o = record {
  above_sorted = insert_sorted-IsSorted pt.above x o.above_sorted;
  below_sorted = o.below_sorted;
}
add_trigger-IsOrdered pt false x o = record {
  above_sorted = o.above_sorted;
  below_sorted = insert_sorted-IsSorted pt.below x o.below_sorted;
}

drop_entry-IsOrdered :
    (pt : PairTriggers) (pos_id level_idx : ℕ)
    → IsOrdered pt
    → IsOrdered (drop_entry pt pos_id level_idx)
unfolding drop_entry
drop_entry-IsOrdered pt pos_id level_idx o = record {
  above_sorted = keep-IsSorted _ pt.above o.above_sorted;
  below_sorted = keep-IsSorted _ pt.below o.below_sorted;
}

drop_position-IsOrdered :
    (pt : PairTriggers) (pos_id : ℕ) → IsOrdered pt → IsOrdered (drop_position pt pos_id)
unfolding drop_position
drop_position-IsOrdered pt pos_id o = record {
  above_sorted = keep-IsSorted _ pt.above o.above_sorted;
  below_sorted = keep-IsSorted _ pt.below o.below_sorted;
}

-- What `OnPrice` leaves on each side, said without indices.
pub fire-keep :
    (pt : PairTriggers) (pair : TokenPair) (price : ℤ)
    → IsOrdered pt
    → ((fire pt pair price).0.above ≡ keep (λ x. ltb_ℤ price x.price) pt.above)
      × ((fire pt pair price).0.below ≡ keep (λ x. not (leb_ℤ price x.price)) pt.below)
unfolding fire
fire-keep pt pair price o = (
  (cutoff-keep _ pt.above (IsSorted-Rises _ (Upward-gt price) pt.above o.above_sorted)).1,
  (cutoff-keep _ pt.below (IsSorted-Rises _ (Upward-ge price) pt.below o.below_sorted)).0,
)

fire-IsOrdered :
    (pt : PairTriggers) (pair : TokenPair) (price : ℤ)
    → IsOrdered pt
    → IsOrdered (fire pt pair price).0
fire-IsOrdered pt pair price o = record {
  above_sorted =
      subst IsSorted (sym (fire-keep pt pair price o).0) (keep-IsSorted _ pt.above o.above_sorted);
  below_sorted =
      subst IsSorted (sym (fire-keep pt pair price o).1) (keep-IsSorted _ pt.below o.below_sorted);
}

-- The invariant of the engine: the slices of every pair are sorted.
abbrev pub IsValid : TriggerEngine → Type 0
IsValid e = (q : TokenPair) → IsOrdered (get_or_create e q)

-- A change of one pair that keeps the order there keeps the invariant.
IsValid-change :
    (e e' : TriggerEngine) (p : TokenPair) (f : PairTriggers → PairTriggers)
    → ((q : TokenPair)
        → get_or_create e' q ≡ (if pair_eq p q then f (get_or_create e q) else get_or_create e q))
    → ((pt : PairTriggers) → IsOrdered pt → IsOrdered (f pt))
    → IsValid e
    → IsValid e'
IsValid-change e e' p f view keeps v q = rw (view q) (elim (Bool-cases (pair_eq p q)) [
  | inl y ↦ rw y (keeps (get_or_create e q) (v q))
  | inr n ↦ rw n (v q)
])

pub new_engine-IsValid : IsValid new_engine
unfolding new_engine get_or_create
new_engine-IsValid q = record { above_sorted = tt; below_sorted = tt }

module _ (e : TriggerEngine) (p : TokenPair) (v : IsValid e) where
  pub register-IsValid :
      (pos_id level_idx : ℕ) (t : LevelType) (d : Direction) (price : ℤ)
      → IsValid (register e p pos_id level_idx t d price)
  register-IsValid pos_id level_idx t d price =
      let f : PairTriggers → PairTriggers =
        λ pt. add_trigger pt (should_trigger_above t d) (entry_of pos_id level_idx t price) in
      IsValid-change e _ p f (λ q. View.view-register e p q pos_id level_idx t d price)
        (λ pt o. add_trigger-IsOrdered pt _ _ o) v

  pub unregister-IsValid : (pos_id level_idx : ℕ) → IsValid (unregister e p pos_id level_idx)
  unregister-IsValid pos_id level_idx =
      IsValid-change e _ p _ (λ q. View.view-unregister e p q pos_id level_idx)
        (λ pt o. drop_entry-IsOrdered pt pos_id level_idx o) v

  pub unregister_position-IsValid : (pos_id : ℕ) → IsValid (unregister_position e p pos_id)
  unregister_position-IsValid pos_id =
      IsValid-change e _ p _ (λ q. View.view-unregister_position e p q pos_id)
        (λ pt o. drop_position-IsOrdered pt pos_id o) v

  pub on_price-IsValid : (price : ℤ) → IsValid (on_price e p price).0
  on_price-IsValid price =
      IsValid-change e _ p _ (λ q. View.view-on_price e p q price)
        (λ pt o. fire-IsOrdered pt p price o) v

pub update_trigger_price-IsValid :
    (e : TriggerEngine) (p : TokenPair) (pos_id level_idx : ℕ) (t : LevelType) (d : Direction)
    (price : ℤ)
    → IsValid e
    → IsValid (update_trigger_price e p pos_id level_idx t d price)
unfolding update_trigger_price
update_trigger_price-IsValid e p pos_id level_idx t d price v =
    register-IsValid _ p (unregister-IsValid e p v pos_id level_idx) pos_id level_idx t d price
