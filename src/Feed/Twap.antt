-- ===== src/Feed/Twap.antt =====
-- The mean tick of `readTWAP`, pkg/positionmanager/pricefeed_uniswapv3.go, over the ticks of a window.
use dex_limit_order_manager.Prelude.{
  ℕ, ◌+◌, ◌*◌, ◌/◌, ◌≤◌, ◌<◌, ◌≡◌, refl, List, [], ◌∷◌, arith, length, All, ne→==,
}
use dex_limit_order_manager.Prelude.Int.{
  ℤ, pos, negsuc, pos_part, neg_part, ◌+ℤ◌, ◌-ℤ◌, ◌/ℤ◌, ◌≤ℤ◌, +ℤ_parts, -ℤ_parts, eq_of_parts,
}
use dex_limit_order_manager.Errors.{ok}
use dex_limit_order_manager.Feed.Reads.{average_tick}

-- What the pool's cumulative tick gains in a window: the tick of each second.
unfoldable pub total : List ℤ → ℤ
total [] = pos 0
total (t ∷ ts) = t +ℤ total ts

-- `n` times an integer at most another, by their parts.
abbrev AtLeast : ℤ → ℕ → ℤ → Type 0
AtLeast lo n x = pos_part lo * n + neg_part x ≤ pos_part x + neg_part lo * n

abbrev AtMost : ℤ → ℕ → ℤ → Type 0
AtMost hi n x = pos_part x + neg_part hi * n ≤ pos_part hi * n + neg_part x

total-AtLeast : (lo : ℤ) (ts : List ℤ) → All (λ t. lo ≤ℤ t) ts → AtLeast lo (length ts) (total ts)
unfolding total
total-AtLeast lo [] h = omega arith
total-AtLeast lo (t ∷ ts) h = omega (arith, +ℤ_parts t (total ts), total-AtLeast lo ts h.1, h.0)

total-AtMost : (hi : ℤ) (ts : List ℤ) → All (λ t. t ≤ℤ hi) ts → AtMost hi (length ts) (total ts)
unfolding total
total-AtMost hi [] h = omega arith
total-AtMost hi (t ∷ ts) h = omega (arith, +ℤ_parts t (total ts), total-AtMost hi ts h.1, h.0)

le_quotient : (a n w : ℕ) → 0 < w → a * w ≤ n → a ≤ n / w
le_quotient a n w h k = grind arith

quotient_le : (a n w : ℕ) → 0 < w → n < a * w + w → n / w ≤ a
quotient_le a n w h k = grind arith

floor_ge : (lo x : ℤ) (w : ℕ) → 0 < w → AtLeast lo w x → lo ≤ℤ x /ℤ w
unfolding ◌/ℤ◌
floor_ge (pos a) (pos n) w h k = omega (arith, le_quotient a n w h (omega arith))
floor_ge (pos a) (negsuc n) w h k = absurd (omega arith)
floor_ge (negsuc b) (pos n) w h k = omega arith
floor_ge (negsuc b) (negsuc n) w h k = omega (arith, quotient_le b n w h (omega arith))

floor_le : (hi x : ℤ) (w : ℕ) → 0 < w → AtMost hi w x → x /ℤ w ≤ℤ hi
unfolding ◌/ℤ◌
floor_le (pos a) (pos n) w h k = omega (arith, quotient_le a n w h (omega arith))
floor_le (pos a) (negsuc n) w h k = omega arith
floor_le (negsuc b) (pos n) w h k = absurd (omega arith)
floor_le (negsuc b) (negsuc n) w h k = omega (arith, le_quotient b n w h (omega arith))

difference : (before x : ℤ) → (before +ℤ x) -ℤ before ≡ x
difference before x =
    eq_of_parts ((before +ℤ x) -ℤ before) x
      (omega (arith, +ℤ_parts before x, -ℤ_parts (before +ℤ x) before))

-- If the cumulative tick has gained the ticks of a window's seconds, all of which lie between two
-- bounds, then the mean tick that `readTWAP` prices lies between them too, for negative ticks as well.
pub average_tick-within :
    (before lo hi : ℤ) (ticks : List ℤ)
    → 0 < length ticks
    → All (λ t. lo ≤ℤ t) ticks
    → All (λ t. t ≤ℤ hi) ticks
    → (mean : ℤ) × (average_tick before (before +ℤ total ticks) (length ticks) ≡ ok mean)
      × (lo ≤ℤ mean)
      × (mean ≤ℤ hi)
unfolding average_tick
average_tick-within before lo hi ticks some_ above below = (
  total ticks /ℤ length ticks,
  rw (ne→== (length ticks) 0 (omega arith), difference before (total ticks)) refl,
  floor_ge lo (total ticks) (length ticks) some_ (total-AtLeast lo ticks above),
  floor_le hi (total ticks) (length ticks) some_ (total-AtMost hi ticks below),
)
