-- ===== src/Trigger/Firing.antt =====
-- `OnPrice` of pkg/positionmanager/trigger.go, on an engine whose slices are sorted: which triggers
-- fire, which stay, and that none fires twice.
use dex_limit_order_manager.Prelude.{
  Bool-cases, inl, inr, if◌then◌else◌, ◌≡◌, ap, ◌∙◌, Bool, true, false, not, List, [], ◌++◌, arith,
  if◌then◌else◌, map, keep, keep-congr, keep-none, keep-All, All-map, inl, inr,
}
use dex_limit_order_manager.Prelude.Int.{ℤ, ltb_ℤ, leb_ℤ}
use dex_limit_order_manager.Types.{TokenPair, pair_eq, pair_eq_refl}
use dex_limit_order_manager.Trigger.{
  TriggerEntry, TriggerEngine, PairTriggers, event_of, fire, get_or_create, on_price,
}
use dex_limit_order_manager.Trigger.Search.{cutoff-keep}
use dex_limit_order_manager.Trigger.Sorted.{
  IsOrdered, IsValid, IsSorted-Rises, Upward-gt, Upward-ge, fire-keep, on_price-IsValid,
}
use dex_limit_order_manager.Trigger.View

not-ltb : (a b : ℤ) → not (ltb_ℤ a b) ≡ leb_ℤ b a
not-ltb a b = ground arith

not-leb : (a b : ℤ) → not (leb_ℤ a b) ≡ ltb_ℤ b a
not-leb a b = ground arith

-- The events of one pair.
pub fire-events :
    (pt : PairTriggers) (p : TokenPair) (price : ℤ)
    → IsOrdered pt
    → (fire pt p price).1
      ≡ map (event_of p price) (keep (λ x. leb_ℤ x.price price) pt.above)
        ++ map (event_of p price) (keep (λ x. leb_ℤ price x.price) pt.below)
unfolding fire
fire-events pt p price o = rw (
  (cutoff-keep _ pt.above (IsSorted-Rises _ (Upward-gt price) pt.above o.above_sorted)).0,
  (cutoff-keep _ pt.below (IsSorted-Rises _ (Upward-ge price) pt.below o.below_sorted)).1,
  keep-congr _ (λ x. leb_ℤ x.price price) pt.above (λ x. not-ltb price x.price),
)

-- The entries of one pair that stay.
pub fire-rest :
    (pt : PairTriggers) (p : TokenPair) (price : ℤ)
    → IsOrdered pt
    → ((fire pt p price).0.above ≡ keep (λ x. ltb_ℤ price x.price) pt.above)
      × ((fire pt p price).0.below ≡ keep (λ x. ltb_ℤ x.price price) pt.below)
fire-rest pt p price o =
    let (above, below) = fire-keep pt p price o in
    (above, below ∙ keep-congr _ (λ x. ltb_ℤ x.price price) pt.below (λ x. not-leb price x.price))

-- On an engine with sorted slices, a price update of a pair fires exactly the triggers of the pair
-- that the price has reached (at or under the price on the "above" side, at or over it on the
-- "below" side), in the order of the slices, each with that price; the other triggers of the pair
-- stay, and no other pair changes.
pub on_price-exact :
    (e : TriggerEngine) (p : TokenPair) (price : ℤ) (q : TokenPair)
    → IsValid e
    → ((on_price e p price).1
        ≡ map (event_of p price) (keep (λ x. leb_ℤ x.price price) (get_or_create e p).above)
          ++ map (event_of p price) (keep (λ x. leb_ℤ price x.price) (get_or_create e p).below))
      × ((get_or_create (on_price e p price).0 q).above ≡ (
          if pair_eq p q
          then keep (λ x. ltb_ℤ price x.price) (get_or_create e q).above
          else (get_or_create e q).above))
      × ((get_or_create (on_price e p price).0 q).below ≡ (
          if pair_eq p q
          then keep (λ x. ltb_ℤ x.price price) (get_or_create e q).below
          else (get_or_create e q).below))
on_price-exact e p price q v = (
  View.events-on_price e p price ∙ fire-events (get_or_create e p) p price (v p),
  elim (Bool-cases (pair_eq p q)) [
    | inl y ↦ rw y (ap (λ pt. pt.above) (own y) ∙ (rest y).0)
    | inr n ↦ rw n (ap (λ pt. pt.above) (other n))
  ],
  elim (Bool-cases (pair_eq p q)) [
    | inl y ↦ rw y (ap (λ pt. pt.below) (own y) ∙ (rest y).1)
    | inr n ↦ rw n (ap (λ pt. pt.below) (other n))
  ],
)
  where
    own :
        pair_eq p q ≡ true
        → get_or_create (on_price e p price).0 q ≡ (fire (get_or_create e q) p price).0
    own y = View.view-on_price e p q price ∙ rw y

    other : pair_eq p q ≡ false → get_or_create (on_price e p price).0 q ≡ get_or_create e q
    other n = View.view-on_price e p q price ∙ rw n

    rest :
        pair_eq p q ≡ true
        → ((fire (get_or_create e q) p price).0.above
            ≡ keep (λ x. ltb_ℤ price x.price) (get_or_create e q).above)
          × ((fire (get_or_create e q) p price).0.below
              ≡ keep (λ x. ltb_ℤ x.price price) (get_or_create e q).below)
    rest y = fire-rest (get_or_create e q) p price (v q)

keep-nothing :
    (q r : TriggerEntry → Bool) (xs : List TriggerEntry)
    → ((x : TriggerEntry) → r x ≡ true → q x ≡ false)
    → keep q (keep r xs) ≡ []
keep-nothing q r xs apart = keep-none q _ (All-map _ _ (keep r xs) apart (keep-All r xs))

-- Once a price has been handled, the same price fires nothing more, so no trigger fires twice.
pub on_price_twice :
    (e : TriggerEngine) (p : TokenPair) (price : ℤ)
    → IsValid e
    → (on_price (on_price e p price).0 p price).1 ≡ []
on_price_twice e p price v =
    let (now_, above, below) = on_price-exact e p price p v in
    let again = on_price-exact (on_price e p price).0 p price p (on_price-IsValid e p v price) in
    again.0
    ∙ rw (
      above,
      below,
      pair_eq_refl p,
      keep-nothing (λ x. leb_ℤ x.price price) (λ x. ltb_ℤ price x.price) (get_or_create e p).above
          (λ x h. ground arith),
      keep-nothing (λ x. leb_ℤ price x.price) (λ x. ltb_ℤ x.price price) (get_or_create e p).below
          (λ x h. ground arith),
    )
