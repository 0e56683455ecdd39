-- ===== src/Open/Levels.antt =====
-- Which levels `OpenPosition` of pkg/positionmanager/manager.go accepts.
use dex_limit_order_manager.Prelude.{
  ℕ, ◌+◌, ◌*◌, ◌<◌, ◌≤◌, ◌≡◌, ◌↔◌, refl, true, not, ◌&&◌, some, List, [], ◌∷◌, ◌==◌, leb, ◌%◌, ◌^◌,
  arith, length, All, Bool-cases, inl, inr, ap, sym, ◌∙◌,
}
use dex_limit_order_manager.Prelude.Int.{ℤ, pos, is_pos, ◌<ℤ◌}
use dex_limit_order_manager.Errors.{ok, from_option, succeeded, passed, required, given_option}
use dex_limit_order_manager.Manager.{LevelParams}
use dex_limit_order_manager.Open.{
  in_range, check_cancel_on_fire, check_level, check_levels, validate_levels,
}

-- A price over zero, a portion between 1 and 10000 bps, and only indices of levels to cancel.
pub record IsAcceptable (n : ℕ) (lp : LevelParams) : Type 0 where
  pub price : ℤ
  pub has_price : lp.trigger_price ≡ some price
  pub price_pos : pos 0 <ℤ price
  pub portion_pos : 0 < lp.portion_bps
  pub portion_max : lp.portion_bps ≤ 10000
  pub cancels : All (λ idx. in_range n idx ≡ true) lp.cancel_on_fire

unfoldable pub total_portion : List LevelParams → ℕ
total_portion [] = 0
total_portion (lp ∷ lps) = lp.portion_bps + total_portion lps

check_cancel_on_fire_iff :
    (n i : ℕ) (is : List ℤ)
    → (check_cancel_on_fire n i is ≡ ok tt) ↔ All (λ idx. in_range n idx ≡ true) is
unfolding check_cancel_on_fire
check_cancel_on_fire_iff n i [] = (λ h. tt, λ h. refl)
check_cancel_on_fire_iff n i (idx ∷ is) =
    let ih = check_cancel_on_fire_iff n i is in
    elim (Bool-cases (in_range n idx)) [
      | inl y ↦ rw y (λ h. (refl, ih.0 h), λ h. ih.1 h.1)
      | inr bad ↦ rw bad (λ h. absurd (cc h), λ h. absurd (cc (h.0)))
    ]

check_level_iff : (n i : ℕ) (lp : LevelParams) → (check_level n i lp ≡ ok tt) ↔ IsAcceptable n lp
unfolding check_level
check_level_iff n i lp = (there, back)
  where
    there : check_level n i lp ≡ ok tt → IsAcceptable n lp
    there h =
        let (price, given, h') = succeeded (from_option lp.trigger_price _) _ h in
        let (price_pos, h'') = passed (is_pos price) _ _ h' in
        let (portion, rest) =
          passed (not (lp.portion_bps == 0) && leb lp.portion_bps 10000) _ _ h'' in
        record {
          price = price;
          has_price = given_option lp.trigger_price _ given;
          price_pos = ground arith;
          portion_pos = ground arith;
          portion_max = ground arith;
          cancels = (check_cancel_on_fire_iff n i lp.cancel_on_fire).0 rest;
        }

    back : IsAcceptable n lp → check_level n i lp ≡ ok tt
    back h =
        let price : is_pos h.price ≡ true = ground arith in
        let portion : (not (lp.portion_bps == 0) && leb lp.portion_bps 10000) ≡ true =
          ground arith in
        rw (h.has_price, price, portion)
          ((check_cancel_on_fire_iff n i lp.cancel_on_fire).1 h.cancels)

check_levels_iff :
    (n i total : ℕ) (lps : List LevelParams) (t : ℕ)
    → total + length lps * 10000 < 2 ^ 32
    → (check_levels n i total lps ≡ ok t)
      ↔ (All (IsAcceptable n) lps × (total + total_portion lps ≡ t))
unfolding check_levels total_portion
check_levels_iff n i total [] t small = (λ h. (tt, start h), λ h. ap ok (omega (arith, h.1)))
  where
    start : ok total ≡ ok t → total + 0 ≡ t
    start h = let same : total ≡ t = cc in omega (arith, same)
check_levels_iff n i total (lp ∷ lps) t small =
    let ih = check_levels_iff n (i + 1) (total + lp.portion_bps) lps t in
    (
      λ h.
          let (done, first, rest) = succeeded (check_level n i lp) _ h in
          let good = (check_level_iff n i lp).0 first in
          let rest' : check_levels n (i + 1) (total + lp.portion_bps) lps ≡ ok t =
            sym (rw (no_wrap good.portion_max)) ∙ rest in
          let (others, sum) = (ih (omega (arith, small, good.portion_max))).0 rest' in
          ((good, others), omega (arith, sum)),
      λ h.
          let good : IsAcceptable n lp = h.0.0 in
          rw ((check_level_iff n i lp).1 good, no_wrap good.portion_max)
            ((ih (omega (arith, small, good.portion_max))).1 (h.0.1, omega (arith, h.1))),
    )
  where
    no_wrap : lp.portion_bps ≤ 10000 → (total + lp.portion_bps) % 2 ^ 32 ≡ total + lp.portion_bps
    no_wrap h = omega arith

-- The levels and the sum of their portions, which must not wrap.
validate_levels_lem :
    (lps : List LevelParams)
    → length lps < 429497
    → (validate_levels lps ≡ ok tt)
      ↔ (All (IsAcceptable (length lps)) lps × (total_portion lps ≤ 10000))
unfolding validate_levels
validate_levels_lem lps few = (
  λ h.
      let (total, sum, bound) = succeeded (check_levels (length lps) 0 0 lps) _ h in
      let (good, same) = (check_levels_iff (length lps) 0 0 lps total (omega (arith, few))).0 sum in
      let below = required (leb total 10000) _ bound in (good, ground (arith, same, below)),
  λ h.
      let sum =
        (check_levels_iff (length lps) 0 0 lps (total_portion lps) (omega (arith, few))).1
          (h.0, omega arith) in
      let below : leb (total_portion lps) 10000 ≡ true = ground (arith, h.1) in rw (sum, below),
)

-- Where the portions of the levels sum up to at most 10000 bps, of fewer than 429497 levels: the levels
-- pass the checks exactly when each has a price over zero, a portion between 1 and 10000 bps and names
-- only levels that exist to be cancelled.
pub validate_levels_iff :
    (lps : List LevelParams)
    → length lps < 429497
    → total_portion lps ≤ 10000
    → (validate_levels lps ≡ ok tt) ↔ All (IsAcceptable (length lps)) lps
validate_levels_iff lps few whole =
    let both = validate_levels_lem lps few in (λ h. (both.0 h).0, λ h. both.1 (h, whole))
