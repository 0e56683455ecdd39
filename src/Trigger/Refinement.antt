-- ===== src/Trigger/Refinement.antt =====
-- The engine of pkg/positionmanager/trigger.go refines the book of orders.
use dex_limit_order_manager.Prelude.{
  ℕ, ◌+◌, ◌≡◌, refl, sym, ap, ap₂, ◌∙◌, Bool, true, false, not, List, [], ◌∷◌, ◌++◌, arith,
  if◌then◌else◌, Bool-cases, inl, inr, map, keep, tally, tally-append, tally-cons, tally-map,
  tally-keep, keep-append, keep-map, keep-congr, map-append, map-map,
}
use dex_limit_order_manager.Prelude.Int.{ℤ}
use dex_limit_order_manager.Types.{TokenPair, LevelType, Direction, pair_eq}
use dex_limit_order_manager.Trigger.{
  TriggerEngine, PairTriggers, new_engine, get_or_create, add_trigger, should_trigger_above,
  entry_of, drop_entry, drop_position, fire, event_of, register, unregister, update_trigger_price,
}
use dex_limit_order_manager.Trigger.Sorted.{
  IsOrdered, IsValid, new_engine-IsValid, unregister-IsValid,
}
use dex_limit_order_manager.Trigger.Firing.{fire-events, fire-rest}
use dex_limit_order_manager.Trigger.History.{
  Call, registers, unregisters, unregisters_position, updates, prices, apply, run, apply-IsValid,
}
use dex_limit_order_manager.Trigger.Book.{
  Book, Order, on_side, reached, change, place, withdraw, book_apply, book_run, orders, SameBag,
  orders-add_trigger, orders-drop_entry, orders-drop_position,
}
use dex_limit_order_manager.Trigger.View

orders-fire :
    (pt : PairTriggers) (p : TokenPair) (price : ℤ)
    → IsOrdered pt
    → orders (fire pt p price).0 ≡ keep (λ o. not (reached price o)) (orders pt)
unfolding orders
orders-fire pt p price o =
    let (above, below) = fire-rest pt p price o in
    rw (above, below)
      (sym (
        keep-append _ (map (on_side true) pt.above) (map (on_side false) pt.below)
        ∙ ap₂ (◌++◌)
            (keep-map _ (on_side true) pt.above
              ∙ ap (map (on_side true)) (keep-congr _ _ pt.above (λ x. ground arith)))
            (keep-map _ (on_side false) pt.below
              ∙ ap (map (on_side false)) (keep-congr _ _ pt.below (λ x. ground arith)))))

events-fire :
    (pt : PairTriggers) (p : TokenPair) (price : ℤ)
    → IsOrdered pt
    → (fire pt p price).1 ≡ map (λ o. event_of p price o.entry) (keep (reached price) (orders pt))
unfolding orders
events-fire pt p price o =
    fire-events pt p price o
    ∙ sym (
        ap (map _) (
          keep-append _ (map (on_side true) pt.above) (map (on_side false) pt.below)
          ∙ ap₂ (◌++◌) (keep-map _ (on_side true) pt.above) (keep-map _ (on_side false) pt.below))
        ∙ map-append _ _ _
        ∙ ap₂ (◌++◌) (map-map _ _ _) (map-map _ _ _))

module _ {ℓ} {A : Type ℓ} (xs ys : List A) (same : SameBag xs ys) where
  SameBag-keep : (q : A → Bool) → SameBag (keep q xs) (keep q ys)
  SameBag-keep q t = tally-keep t q xs ∙ same _ ∙ sym (tally-keep t q ys)

  SameBag-map {κ} : {B : Type κ} (f : A → B) → SameBag (map f xs) (map f ys)
  SameBag-map f t = tally-map t f xs ∙ same _ ∙ sym (tally-map t f ys)

  SameBag-cons : (x : A) → SameBag (x ∷ xs) (x ∷ ys)
  SameBag-cons x t =
      tally-cons t x xs ∙ ap (◌+◌ (if t x then 1 else 0)) (same t) ∙ sym (tally-cons t x ys)

-- The engine stands for the book: each pair holds the same orders.
abbrev pub Represents : TriggerEngine → Book → Type 0
Represents e b = (q : TokenPair) → SameBag (orders (get_or_create e q)) (b q)

Represents-change :
    (e e' : TriggerEngine) (b : Book) (p : TokenPair) (f : PairTriggers → PairTriggers)
    (g : List Order → List Order)
    → ((q : TokenPair)
        → get_or_create e' q ≡ (if pair_eq p q then f (get_or_create e q) else get_or_create e q))
    → ((pt : PairTriggers) (os : List Order)
        → IsOrdered pt
        → SameBag (orders pt) os
        → SameBag (orders (f pt)) (g os))
    → IsValid e
    → Represents e b
    → Represents e' (change b p g)
Represents-change e e' b p f g view step v r q = elim (Bool-cases (pair_eq p q)) [
  | inl y ↦ rw (view q, y) (step (get_or_create e q) (b q) (v q) (r q))
  | inr n ↦ rw (view q, n) (r q)
]

module _ (e : TriggerEngine) (b : Book) (p : TokenPair) (v : IsValid e) (r : Represents e b) where
  register-Represents :
      (pos_id i : ℕ) (t : LevelType) (d : Direction) (price : ℤ)
      → Represents
          (register e p pos_id i t d price)
          (place b p (should_trigger_above t d) (entry_of pos_id i t price))
  register-Represents pos_id i t d price =
      let above = should_trigger_above t d in
      let x = entry_of pos_id i t price in
      Represents-change e _ b p (λ pt. add_trigger pt above x) (λ os. on_side above x ∷ os)
        (λ q. View.view-register e p q pos_id i t d price)
        (λ pt os o s y. orders-add_trigger pt above x y ∙ SameBag-cons _ _ s (on_side above x) y) v
        r

  unregister-Represents :
      (pos_id i : ℕ) → Represents (unregister e p pos_id i) (withdraw b p pos_id i)
  unregister-Represents pos_id i =
      Represents-change e _ b p (λ pt. drop_entry pt pos_id i) _
        (λ q. View.view-unregister e p q pos_id i)
        (λ pt os o s y. ap (tally y) (orders-drop_entry pt pos_id i) ∙ SameBag-keep _ _ s _ y) v r

-- One call keeps the engine and the book in step, and they return the same events.
apply-Represents :
    (e : TriggerEngine) (b : Book) (c : Call)
    → IsValid e
    → Represents e b
    → Represents (apply e c).0 (book_apply b c).0 × SameBag (apply e c).1 (book_apply b c).1
unfolding apply book_apply
apply-Represents e b (registers p pos_id i t d price) v r =
    (register-Represents e b p v r pos_id i t d price, λ y. refl)
apply-Represents e b (unregisters p pos_id i) v r =
    (unregister-Represents e b p v r pos_id i, λ y. refl)
apply-Represents e b (unregisters_position p pos_id) v r = (
  Represents-change e _ b p (λ pt. drop_position pt pos_id) _
      (λ q. View.view-unregister_position e p q pos_id)
      (λ pt os o s y. ap (tally y) (orders-drop_position pt pos_id) ∙ SameBag-keep _ _ s _ y) v r,
  λ y. refl,
)
apply-Represents e b (updates p pos_id i t d price) v r = (updated, λ y. refl)
  where
    updated :
        Represents
          (update_trigger_price e p pos_id i t d price)
          (place (withdraw b p pos_id i) p (should_trigger_above t d) (entry_of pos_id i t price))
    updated =
        register-Represents (unregister e p pos_id i) (withdraw b p pos_id i) p
          (unregister-IsValid e p v pos_id i) (unregister-Represents e b p v r pos_id i) pos_id i t
          d price
apply-Represents e b (prices p price) v r = (
  Represents-change e _ b p (λ pt. (fire pt p price).0) _ (λ q. View.view-on_price e p q price)
      (λ pt os o s y. ap (tally y) (orders-fire pt p price o) ∙ SameBag-keep _ _ s _ y) v r,
  λ y.
      ap (tally y) (View.events-on_price e p price ∙ events-fire (get_or_create e p) p price (v p))
      ∙ SameBag-map _ _ (SameBag-keep _ _ (r p) (reached price)) _ y,
)

run_from-Represents :
    (e : TriggerEngine) (b : Book) (cs : List Call)
    → IsValid e
    → Represents e b
    → Represents (run e cs).0 (book_run b cs).0 × SameBag (run e cs).1 (book_run b cs).1
unfolding run book_run
run_from-Represents e b [] v r = (r, λ y. refl)
run_from-Represents e b (c ∷ cs) v r =
    let (r', s) = apply-Represents e b c v r in
    let (r'', s') =
      run_from-Represents (apply e c).0 (book_apply b c).0 cs (apply-IsValid e c v) r' in
    (
      r'',
      λ y.
          tally-append y (apply e c).1 (run (apply e c).0 cs).1
          ∙ ap₂ (◌+◌) (s y) (s' y)
          ∙ sym (tally-append y (book_apply b c).1 (book_run (book_apply b c).0 cs).1),
    )

-- After any history of calls on a new engine, each pair holds exactly the orders that the book
-- holds after the same calls on an empty book, and the engine has returned exactly the book's
-- events, each as often; orders and events may stand in another order.
pub run-Represents :
    (cs : List Call)
    → Represents (run new_engine cs).0 (book_run (λ q. []) cs).0
      × SameBag (run new_engine cs).1 (book_run (λ q. []) cs).1
unfolding new_engine get_or_create orders
run-Represents cs = run_from-Represents new_engine (λ q. []) cs new_engine-IsValid (λ q y. refl)
