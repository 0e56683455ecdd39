-- ===== src/Feed/Reads.antt =====
-- How the feeds of pkg/positionmanager read a pool: `readSlot0`, and `readTWAP` with `tickToPrice`, of
-- pricefeed_uniswapv3.go. Calls of the chain and the packing of go-ethereum are parameters, and so are
-- the floating-point numbers of math/big, whose operations round.
use dex_limit_order_manager.Prelude.{
  ℕ, zero, suc, ◌+◌, ◌-◌, ◌/◌, ◌%◌, ◌^◌, Bool, true, false, Option, none, some, List, [], ◌∷◌, ◌==◌,
  if◌then◌else◌,
}
use dex_limit_order_manager.Prelude.Int.{ℤ, pos, negsuc, pos_part, neg_part, ◌-ℤ◌, ◌/ℤ◌}
use dex_limit_order_manager.Errors.{
  Result, ok, err, index_out_of_range, wrong_type, too_few_observations, division_by_zero, ◌>>=◌,
}
use dex_limit_order_manager.Permit.{to_int64}
use dex_limit_order_manager.Feed.{PoolConfig, sqrt_price_x96_to_price}

-- What `poolABI` packs and unpacks: an integer among the fields of slot0, and the two lists of
-- `observe`; `none` where a field is of another type.
pub record PoolAbi : Type 0 where
  pub pack_slot0 : Result (List ℕ)
  pub unpack_slot0 : List ℕ → Result (List (Option ℤ))
  pub pack_observe : List ℕ → Result (List ℕ)
  pub unpack_observe : List ℕ → Result (List (Option (List ℤ)))

-- `CallContract` of an address with some data.
abbrev pub ContractCall : Type 0
ContractCall = ℕ → List ℕ → Result (List ℕ)

-- `outputs[0].(T)`, which panics where there is no such field, or one of another type.
abbrev pub first_output : {A : Type 0} → List (Option A) → Result A
first_output [] = err index_out_of_range
first_output (none ∷ outputs) = err wrong_type
first_output (some x ∷ outputs) = ok x

-- The price of a `*big.Int`, of which only the square is used.
abbrev pub price_of_sqrt : PoolConfig → ℤ → Result ℤ
price_of_sqrt pool x =
    sqrt_price_x96_to_price (pos_part x + neg_part x) pool.token0_decimals pool.token1_decimals
      pool.token0_is_base

-- `readSlot0`, of both feeds.
unfoldable pub read_slot0 : PoolAbi → ContractCall → PoolConfig → Result ℤ
unfolding sqrt_price_x96_to_price
read_slot0 abi call_contract pool = do
  calldata ← abi.pack_slot0
  result ← call_contract pool.address calldata
  outputs ← abi.unpack_slot0 result
  sqrt_price ← first_output outputs
  price_of_sqrt pool sqrt_price

-- The numbers of math/big's `Float` with a precision of 256 bits, as `tickToPrice` uses them. It never
-- meets an operation without a result, such as the product of zero and infinity.
pub record BigFloat : Type 1 where
  pub Float : Type 0
  pub base : Float  -- SetFloat64(1.0001)
  pub one : Float
  pub e8 : Float
  pub of_int : ℕ → Float
  pub mul : Float → Float → Float
  pub quo : Float → Float → Float
  pub is_zero : Float → Bool
  -- `Int(nil)`: nil for an infinity.
  pub truncate : Float → Option ℤ

-- `-tick` for a negative int64, and the test `remaining > 0`: the least int64 is its own negation, and
-- the loop does not run for it.
abbrev pub remaining_of : ℤ → ℕ
remaining_of (pos n) = n
remaining_of (negsuc n) = pos_part (to_int64 (suc n))

module _ (fl : BigFloat) where
  open fl use {Float, base, one, e8, of_int, mul, quo, is_zero, truncate}

  -- The loop of `tickToPrice`, squaring and multiplying; `none` where the rounds given do not suffice.
  unfoldable pub power_loop : ℕ → Float → Float → ℕ → Option Float
  power_loop zero price temp remaining = none
  power_loop (suc rounds) price temp remaining = elim (remaining == 0) [
    | true ↦ some price
    | false ↦
        power_loop rounds (if remaining % 2 == 1 then mul price temp else price) (mul temp temp)
          (remaining / 2)
  ]

  scaled : Float → ℕ → ℕ → Bool → Option ℤ
  scaled price decimals0 decimals1 token0_is_base =
      let adjusted = quo (mul price (of_int (10 ^ decimals0))) (of_int (10 ^ decimals1)) in
      if token0_is_base
      then truncate (mul adjusted e8)
      else if is_zero adjusted
      then some (pos 0)
      else truncate (mul (quo one adjusted) e8)

  inverted : ℤ → Float → Float
  inverted (pos n) price = price
  inverted (negsuc n) price = quo one price

  unfoldable pub price_at : Float → ℤ → ℕ → ℕ → Bool → Option ℤ
  unfolding scaled inverted
  price_at price tick decimals0 decimals1 token0_is_base =
      scaled (inverted tick price) decimals0 decimals1 token0_is_base

  tick_price : Option Float → ℤ → ℕ → ℕ → Bool → Option (Option ℤ)
  unfolding price_at
  tick_price none tick decimals0 decimals1 token0_is_base = none
  tick_price (some price) tick decimals0 decimals1 token0_is_base =
      some (price_at price tick decimals0 decimals1 token0_is_base)

  -- `tickToPrice`, on as many rounds as an int64 has bits.
  unfoldable pub tick_to_price : ℤ → ℕ → ℕ → Bool → Option (Option ℤ)
  unfolding power_loop tick_price
  tick_to_price tick decimals0 decimals1 token0_is_base =
      tick_price (power_loop 64 one base (remaining_of tick)) tick decimals0 decimals1
        token0_is_base

-- `Int64()` of a `*big.Int`: its low 64 bits, read with a sign.
abbrev pub low_int64 : ℤ → ℤ
low_int64 (pos n) = to_int64 n
low_int64 (negsuc n) = to_int64 (2 ^ 64 - 1 - n % 2 ^ 64)

-- `(tickCumulatives[1] - tickCumulatives[0]) / windowSecs`.
unfoldable pub average_tick : ℤ → ℤ → ℕ → Result ℤ
unfolding ◌-ℤ◌ ◌/ℤ◌
average_tick before now window_secs =
    if window_secs == 0 then err division_by_zero else ok ((now -ℤ before) /ℤ window_secs)

abbrev pub tick_of : List ℤ → ℕ → Result ℤ
tick_of [] window_secs = err (too_few_observations 0)
tick_of (x ∷ []) window_secs = err (too_few_observations 1)
tick_of (x ∷ y ∷ rest) window_secs = average_tick x y window_secs

abbrev or_nil : Option (Option ℤ) → Option ℤ
or_nil none = none
or_nil (some price) = price

-- `readTWAP`; the price is nil where it is infinite.
unfoldable pub read_twap : BigFloat → PoolAbi → ContractCall → PoolConfig → ℕ → Result (Option ℤ)
unfolding average_tick to_int64
read_twap fl abi call_contract pool window_secs = do
  calldata ← abi.pack_observe (window_secs ∷ 0 ∷ [])
  result ← call_contract pool.address calldata
  outputs ← abi.unpack_observe result
  tick_cumulatives ← first_output outputs
  tick ← tick_of tick_cumulatives window_secs
  ok (
      or_nil (
        tick_to_price fl (low_int64 tick) pool.token0_decimals pool.token1_decimals
          pool.token0_is_base))
