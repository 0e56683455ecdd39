-- ===== src/Trigger/Book.antt =====
-- What the trigger engine of pkg/positionmanager/trigger.go promises, without slices, searches or
-- order: for each pair a bag of orders, each with the side on which it fires. The engine refines
-- it, through any history of calls.
use dex_limit_order_manager.Prelude.{
  ℕ, ◌+◌, ◌≡◌, sym, ap, ap₂, ◌∙◌, Bool, true, false, not, List, [], ◌∷◌, ◌++◌, arith, ◌==◌,
  if◌then◌else◌, map, take, drop, keep, tally, tally-append, tally-cons, tally-map,
  take-append-drop, keep-append, keep-map,
}
use dex_limit_order_manager.Prelude.Int.{ℤ, ltb_ℤ, leb_ℤ}
use dex_limit_order_manager.Types.{TokenPair, pair_eq}
use dex_limit_order_manager.Trigger.{
  TriggerEntry, TriggerEvent, PairTriggers, add_trigger, should_trigger_above, entry_of,
  is_entry_of, drop_entry, drop_position, insert_sorted, event_of,
}
use dex_limit_order_manager.Trigger.Search.{cutoff}
use dex_limit_order_manager.Trigger.History.{
  Call, registers, unregisters, unregisters_position, updates, prices,
}

pub record Order : Type 0 where
  pub is_above : Bool
  pub entry : TriggerEntry

abbrev pub on_side : Bool → TriggerEntry → Order
on_side b x = record { is_above = b; entry = x }

abbrev pub Book : Type 0
Book = TokenPair → List Order

-- An order fires when the price is at its trigger or beyond it, on its side.
abbrev pub reached : ℤ → Order → Bool
reached price o = if o.is_above then leb_ℤ o.entry.price price else leb_ℤ price o.entry.price

abbrev pub change : Book → TokenPair → (List Order → List Order) → Book
change b p f q = if pair_eq p q then f (b q) else b q

abbrev pub place : Book → TokenPair → Bool → TriggerEntry → Book
place b p is_above x = change b p (λ os. on_side is_above x ∷ os)

abbrev pub withdraw : Book → TokenPair → ℕ → ℕ → Book
withdraw b p pos_id i = change b p (keep (λ o. not (is_entry_of pos_id i o.entry)))

-- One call on the book, and the events that it gives.
unfoldable pub book_apply : Book → Call → Book × List TriggerEvent
book_apply b (registers p pos_id i t d price) =
    (place b p (should_trigger_above t d) (entry_of pos_id i t price), [])
book_apply b (unregisters p pos_id i) = (withdraw b p pos_id i, [])
book_apply b (unregisters_position p pos_id) =
    (change b p (keep (λ o. not (o.entry.position_id == pos_id))), [])
book_apply b (updates p pos_id i t d price) =
    (place (withdraw b p pos_id i) p (should_trigger_above t d) (entry_of pos_id i t price), [])
book_apply b (prices p price) = (
  change b p (keep (λ o. not (reached price o))),
  map (λ o. event_of p price o.entry) (keep (reached price) (b p)),
)

unfoldable pub book_run : Book → List Call → Book × List TriggerEvent
unfolding book_apply
book_run b [] = (b, [])
book_run b (c ∷ cs) =
    let (b', events) = book_apply b c in let (b'', later) = book_run b' cs in (b'', events ++ later)

-- The orders that the slices of a pair hold.
unfoldable pub orders : PairTriggers → List Order
orders pt = map (on_side true) pt.above ++ map (on_side false) pt.below

-- The same things, as often, in any order.
abbrev pub SameBag {ℓ} : {A : Type ℓ} → List A → List A → Type ℓ
SameBag {A = A} xs ys = (t : A → Bool) → tally t xs ≡ tally t ys

tally-insert_sorted :
    (t : TriggerEntry → Bool) (xs : List TriggerEntry) (x : TriggerEntry)
    → tally t (insert_sorted xs x) ≡ tally t (x ∷ xs)
unfolding insert_sorted
tally-insert_sorted t xs x =
    let i = cutoff (λ y. ltb_ℤ x.price y.price) xs in
    omega (
      arith,
      tally-append t (take i xs) (x ∷ drop i xs),
      tally-cons t x (drop i xs),
      tally-cons t x xs,
      tally-append t (take i xs) (drop i xs),
      ap (tally t) (take-append-drop i xs),
    )

tally-orders :
    (t : Order → Bool) (pt : PairTriggers)
    → tally t (orders pt)
      ≡ tally (λ x. t (on_side true x)) pt.above + tally (λ x. t (on_side false x)) pt.below
unfolding orders
tally-orders t pt =
    tally-append t (map (on_side true) pt.above) (map (on_side false) pt.below)
    ∙ rw (tally-map t (on_side true) pt.above, tally-map t (on_side false) pt.below)

pub orders-add_trigger :
    (pt : PairTriggers) (b : Bool) (x : TriggerEntry)
    → SameBag (orders (add_trigger pt b x)) (on_side b x ∷ orders pt)
unfolding add_trigger
orders-add_trigger pt true x t = omega (
  arith,
  tally-orders t (add_trigger pt true x),
  tally-orders t pt,
  tally-cons t (on_side true x) (orders pt),
  tally-insert_sorted (λ y. t (on_side true y)) pt.above x,
  tally-cons (λ y. t (on_side true y)) x pt.above,
)
orders-add_trigger pt false x t = omega (
  arith,
  tally-orders t (add_trigger pt false x),
  tally-orders t pt,
  tally-cons t (on_side false x) (orders pt),
  tally-insert_sorted (λ y. t (on_side false y)) pt.below x,
  tally-cons (λ y. t (on_side false y)) x pt.below,
)

pub orders-drop_entry :
    (pt : PairTriggers) (pos_id i : ℕ)
    → orders (drop_entry pt pos_id i) ≡ keep (λ o. not (is_entry_of pos_id i o.entry)) (orders pt)
unfolding orders drop_entry
orders-drop_entry pt pos_id i = sym (
    keep-append _ (map (on_side true) pt.above) (map (on_side false) pt.below)
    ∙ ap₂ (◌++◌) (keep-map _ (on_side true) pt.above) (keep-map _ (on_side false) pt.below))

pub orders-drop_position :
    (pt : PairTriggers) (pos_id : ℕ)
    → orders (drop_position pt pos_id) ≡ keep (λ o. not (o.entry.position_id == pos_id)) (orders pt)
unfolding orders drop_position
orders-drop_position pt pos_id = sym (
    keep-append _ (map (on_side true) pt.above) (map (on_side false) pt.below)
    ∙ ap₂ (◌++◌) (keep-map _ (on_side true) pt.above) (keep-map _ (on_side false) pt.below))
