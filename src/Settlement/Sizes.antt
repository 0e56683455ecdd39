-- ===== src/Settlement/Sizes.antt =====
-- The remaining size of a position under the swaps of pkg/positionmanager/manager.go.
use dex_limit_order_manager.Prelude.{ℕ, ◌≤◌, ◌≡◌, arith, Bool-cases, inl, inr}
use dex_limit_order_manager.Prelude.Int.{
  ℤ, pos, pos_part, ◌≤ℤ◌, ◌+ℤ◌, ◌-ℤ◌, is_pos, -ℤ_parts, +ℤ_parts, eq_of_parts,
}
use dex_limit_order_manager.Types.{Position, Level, is_sl}
use dex_limit_order_manager.Errors.{ok, Result-cases}
use dex_limit_order_manager.Fees.Bounds.{mul_bps-within}
use dex_limit_order_manager.Settlement.{
  Settlement, compute_amount, remaining_after, settle, record_execution, cancel_listed,
}

-- Whatever the swapped amount, the remaining size does not go under zero.
remaining-nonneg : (size amount : ℤ) → pos 0 ≤ℤ remaining_after size amount
unfolding remaining_after
remaining-nonneg size amount = ground arith

remaining-sum : (size amount : ℤ) → amount ≤ℤ size → remaining_after size amount +ℤ amount ≡ size
unfolding remaining_after
remaining-sum size amount h = elim (Bool-cases (is_pos (size -ℤ amount))) [
  | inl y ↦ rw y (
      omega (
        arith,
        -ℤ_parts size amount,
        +ℤ_parts (size -ℤ amount) amount,
        eq_of_parts (size -ℤ amount +ℤ amount) size,
      ))
  | inr n ↦ rw n (
      let none_left : pos_part (size -ℤ amount) ≡ 0 = ground arith in
      omega
        (arith, -ℤ_parts size amount, +ℤ_parts (pos 0) amount, eq_of_parts (pos 0 +ℤ amount) size))
]

-- A settlement has the remaining size that the execution has left.
settle-remaining :
    (p : Position) (i : ℕ) (l : Level) (tx : ℕ) (price amount now : ℤ) (s : Settlement)
    → settle p i l tx price amount now ≡ ok s
    → s.position.remaining_size ≡ remaining_after p.remaining_size amount
unfolding settle
settle-remaining p i l tx price amount now s h = elim (Bool-cases (is_sl l.level_type)) [
  | inl y ↦ ground arith
  | inr n ↦
      elim (Result-cases
        (cancel_listed (record_execution p i l tx price amount now).levels l.cancel_on_fire)) [
          | inl (dropped, c) ↦ ground arith
          | inr (x, c) ↦ ground arith
        ]
]

-- For a position of size zero or more and a level of at most 10000 bps, the swapped amount and the
-- size that remains after it make up the size before, and neither is negative.
pub settle-size :
    (p : Position) (i : ℕ) (l : Level) (tx : ℕ) (price now : ℤ) (s : Settlement)
    → pos 0 ≤ℤ p.remaining_size
    → l.portion_bps ≤ 10000
    → settle p i l tx price (compute_amount p l) now ≡ ok s
    → (s.position.remaining_size +ℤ compute_amount p l ≡ p.remaining_size)
      × (pos 0 ≤ℤ s.position.remaining_size)
      × (pos 0 ≤ℤ compute_amount p l)
unfolding compute_amount
settle-size p i l tx price now s open_ portion h =
    let (least, most) = mul_bps-within p.remaining_size l.portion_bps open_ portion in
    let left = settle-remaining p i l tx price (compute_amount p l) now s h in
    rw left (
      remaining-sum p.remaining_size (compute_amount p l) most,
      remaining-nonneg p.remaining_size (compute_amount p l),
      least,
    )
