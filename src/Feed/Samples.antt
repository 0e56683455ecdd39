-- ===== src/Feed/Samples.antt =====
-- The reads of pkg/positionmanager/pricefeed_uniswapv3.go at small numbers.
use dex_limit_order_manager.Prelude.{ℕ, ◌*◌, ◌/◌, ◌≡◌, refl, true, some, List, [], ◌∷◌, arith, ◌==◌}
use dex_limit_order_manager.Prelude.Int.{ℤ, pos, negsuc, ◌+ℤ◌, ◌≤ℤ◌}
use dex_limit_order_manager.Errors.{ok}
use dex_limit_order_manager.Feed.Reads.{BigFloat, tick_to_price, average_tick}
use dex_limit_order_manager.Feed.Twap.{total, average_tick-within}

-- The numbers of math/big replaced by natural ones, with base two.
abbrev whole : BigFloat
whole = record {
  Float = ℕ;
  base = 2;
  one = 1;
  e8 = 100_000_000;
  of_int = λ n. n;
  mul = λ a b. a * b;
  quo = λ a b. a / b;
  is_zero = λ a. a == 0;
  truncate = λ a. some (pos a);
}

-- Two to the tenth, scaled.
tick_of_ten : tick_to_price whole (pos 10) 6 6 true ≡ some (some (pos 102_400_000_000))
unfolding tick_to_price
tick_of_ten = refl

-- Three seconds, with a mean that is rounded towards minus infinity.
abbrev ticks : List ℤ
ticks = negsuc 4 ∷ negsuc 4 ∷ negsuc 5 ∷ []

average_tick-within_example :
    (mean : ℤ) × (average_tick (pos 100) (pos 100 +ℤ total ticks) 3 ≡ ok mean)
    × (negsuc 5 ≤ℤ mean)
    × (mean ≤ℤ negsuc 4)
average_tick-within_example =
    average_tick-within (pos 100) (negsuc 5) (negsuc 4) ticks (omega arith) (omega arith)
      (omega arith)
