-- ===== src/Fees/Bounds.antt =====
-- What the amounts of pkg/positionmanager/bps.go and fees.go add up to.
use dex_limit_order_manager.Prelude.{
  ℕ, ◌*◌, ◌/◌, ◌≤◌, ◌≡◌, refl, Option, none, some, arith, ◌==◌, Bool-cases, inl, inr, ltb, not,
  ◌&&◌,
}
use dex_limit_order_manager.Prelude.Int.{
  ℤ, pos, negsuc, ◌*ℤ◌, ◌-ℤ◌, ◌+ℤ◌, ◌/ℤ◌, ◌≤ℤ◌, -ℤ_parts, +ℤ_parts, eq_of_parts,
}
use dex_limit_order_manager.Fees.{mul_bps, FeeConfig, FeeResult, compute_fee_result, no_fee}

pub pos-*ℤ : (a b : ℕ) → pos a *ℤ pos b ≡ pos (a * b)
unfolding ◌*ℤ◌
pos-*ℤ a b = ground arith

pub mul_bps_pos : (a bps : ℕ) → mul_bps (pos a) bps ≡ pos (a * bps / 10000)
unfolding mul_bps
mul_bps_pos a bps = rw (pos-*ℤ a bps)

portion_le : (a bps : ℕ) → bps ≤ 10000 → a * bps / 10000 ≤ a
portion_le a bps h = grind arith

-- Up to 10000 bps of an amount of at least zero lie between zero and the amount.
pub mul_bps-within :
    (amount : ℤ) (bps : ℕ)
    → pos 0 ≤ℤ amount
    → bps ≤ 10000
    → (pos 0 ≤ℤ mul_bps amount bps) × (mul_bps amount bps ≤ℤ amount)
mul_bps-within (pos a) bps h k =
    rw (mul_bps_pos a bps) (omega arith, omega (arith, portion_le a bps k))
mul_bps-within (negsuc a) bps h k = absurd (omega arith)

pub mul_bps-full : (amount : ℤ) → mul_bps amount 10000 ≡ amount
unfolding mul_bps ◌*ℤ◌ ◌/ℤ◌
mul_bps-full amount = ground arith

-- The parts of a fee on an amount: none is negative, the whole is within the amount, and the
-- platform's and the referrer's make up the whole.
pub record IsSplit (amount : ℤ) (r : FeeResult) : Type 0 where
  pub total_nonneg : pos 0 ≤ℤ r.total_fee
  pub total_within : r.total_fee ≤ℤ amount
  pub referral_nonneg : pos 0 ≤ℤ r.referral_share
  pub platform_nonneg : pos 0 ≤ℤ r.platform_share
  pub whole : r.platform_share +ℤ r.referral_share ≡ r.total_fee

parts_whole : (t r : ℤ) → t -ℤ r +ℤ r ≡ t
parts_whole t r = omega (arith, -ℤ_parts t r, +ℤ_parts (t -ℤ r) r, eq_of_parts (t -ℤ r +ℤ r) t)

fee_of_parts :
    (amount total referral : ℤ) (r f : ℕ)
    → pos 0 ≤ℤ total
    → total ≤ℤ amount
    → pos 0 ≤ℤ referral
    → referral ≤ℤ total
    → IsSplit amount (record {
      total_fee = total;
      platform_share = total -ℤ referral;
      referral_share = referral;
      referrer = r;
      fee_bps = f;
    })
fee_of_parts amount total referral r f a b c d = record {
  total_nonneg = a;
  total_within = b;
  referral_nonneg = c;
  platform_nonneg = omega (arith, -ℤ_parts total referral);
  whole = parts_whole total referral;
}

no_fee-IsSplit : (amount : ℤ) → pos 0 ≤ℤ amount → IsSplit amount no_fee
unfolding ◌-ℤ◌
no_fee-IsSplit amount paid =
    fee_of_parts amount (pos 0) (pos 0) 0 0 (omega arith) paid (omega arith) (omega arith)

-- For an amount of at least zero and shares of at most 10000 bps, the fee breakdown splits the
-- fee: no part is negative, the fee is within the amount, and platform and referrer share it.
pub compute_fee_result-IsSplit :
    (amount : ℤ) (cfg : Option FeeConfig)
    → pos 0 ≤ℤ amount
    → ((c : FeeConfig) → cfg ≡ some c → (c.fee_bps ≤ 10000) × (c.referrer_share ≤ 10000))
    → IsSplit amount (compute_fee_result amount cfg)
unfolding compute_fee_result
compute_fee_result-IsSplit amount none paid caps = no_fee-IsSplit amount paid
compute_fee_result-IsSplit amount (some c) paid caps = elim (Bool-cases (c.fee_bps == 0)) [
  | inl e ↦ rw e (no_fee-IsSplit amount paid)
  | inr e ↦ rw e (
      let total = mul_bps-within amount c.fee_bps paid (caps c refl).0 in
      let share =
        mul_bps-within (mul_bps amount c.fee_bps) c.referrer_share total.0 (caps c refl).1 in
      elim (Bool-cases (ltb 0 c.referrer_share && not (c.referrer == 0))) [
        | inl y ↦
            rw y (fee_of_parts amount _ _ c.referrer c.fee_bps total.0 total.1 share.0 share.1)
        | inr n ↦ rw n (
            fee_of_parts amount _ (pos 0) c.referrer c.fee_bps total.0 total.1 (omega arith)
              total.0)
      ])
]
