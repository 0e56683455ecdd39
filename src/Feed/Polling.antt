-- ===== src/Feed/Polling.antt =====
-- The pools of a feed, a turn of `pollLoop` with its read of the chain, and `Shutdown`, of
-- pkg/positionmanager/pricefeed_uniswapv3.go.
use dex_limit_order_manager.Prelude.{
  ℕ, ◌≡◌, refl, Bool, Option, none, some, List, [], ◌∷◌, ltb, if◌then◌else◌,
}
use dex_limit_order_manager.Prelude.Int.{ℤ}
use dex_limit_order_manager.Types.{TokenPair}
use dex_limit_order_manager.Errors.{Result, ok, err, Error, nil_pointer, context_done, ◌>>=◌}
use dex_limit_order_manager.Feed.{Feed, PoolConfig, put, new_feed, close_feed}
use dex_limit_order_manager.Feed.Reads.{BigFloat, PoolAbi, ContractCall, read_slot0, read_twap}
use dex_limit_order_manager.Feed.Invariant.{Inv}
use dex_limit_order_manager.Feed.History.{round, round-Inv}

-- `UniswapV3PoolDef`.
pub record PoolDef : Type 0 where
  pub pair : TokenPair
  pub pool_address : ℕ
  pub token0_decimals : ℕ
  pub token1_decimals : ℕ
  pub token0_is_base : Bool

abbrev pub config_of : PoolDef → PoolConfig
config_of d = record {
  address = d.pool_address;
  token0_decimals = d.token0_decimals;
  token1_decimals = d.token1_decimals;
  token0_is_base = d.token0_is_base;
}

-- The loop of `NewUniswapV3PriceFeed` over the pools: of two with one pair the later stays.
unfoldable pub with_pools :
    (TokenPair → Option PoolConfig) → List PoolDef → TokenPair → Option PoolConfig
unfolding put
with_pools pools [] = pools
with_pools pools (d ∷ ds) = with_pools (put pools d.pair (some (config_of d))) ds

-- `NewUniswapV3PriceFeed`.
abbrev pub new_uniswap_v3_price_feed : List PoolDef → Feed
new_uniswap_v3_price_feed pools = new_feed (with_pools (λ p. none) pools)

abbrev pub spot_of : Result ℤ → Result (Option ℤ)
spot_of (err x) = err x
spot_of (ok price) = ok (some price)

-- The read of a turn of `pollLoop`: a mean over `twapSecs`, or the price of now.
unfoldable pub poll_read : BigFloat → PoolAbi → ContractCall → ℕ → PoolConfig → Result (Option ℤ)
unfolding read_slot0 read_twap
poll_read fl abi call_contract twap_secs pool =
    if ltb 0 twap_secs
    then read_twap fl abi call_contract pool twap_secs
    else spot_of (read_slot0 abi call_contract pool)

-- A turn of `pollLoop` after its read, with nothing between its sends: an error leaves all as it was. A
-- nil price panics where it is compared, here or in the trigger engine.
unfoldable pub poll_turn : Feed → TokenPair → Result (Option ℤ) → ℤ → Result Feed
unfolding round
poll_turn f p (err x) now = ok f
poll_turn f p (ok none) now = err nil_pointer
poll_turn f p (ok (some price)) now = round f p price now

-- A turn that reads a price, or fails to, keeps the feed in order.
poll_turn-Inv :
    (f : Feed) (p : TokenPair) (price : Result ℤ) (now : ℤ)
    → Inv f
    → (g : Feed) × (poll_turn f p (spot_of price) now ≡ ok g) × Inv g
unfolding poll_turn
poll_turn-Inv f p (err x) now inv = (f, refl, inv)
poll_turn-Inv f p (ok price) now inv = round-Inv f p price now inv

-- `Shutdown`: as `Close`, but the poll loops may outlast the context.
unfoldable pub shutdown : Feed → (finished : Bool) → Result (Feed × Option Error)
unfolding close_feed
shutdown f finished = do g ← close_feed f; ok (g, if finished then none else some context_done)
