-- ===== src/Dual.antt =====
-- The prices of pkg/positionmanager/pricefeed_dual.go: what each source does to the price of a pair
-- (Streams has its subscribers and listeners). Each function is what the code does under the mutex of the feed.
pub mod Streams
pub mod Settled
pub mod History
pub mod Okx
pub mod Tests
use dex_limit_order_manager.Prelude.{
  ℕ, ◌*◌, ◌≡◌, Bool, true, false, not, ◌&&◌, ◌||◌, Option, none, some, List, [], ◌∷◌, ◌==◌, ltb,
  if◌then◌else◌, length, get_elem?,
}
use dex_limit_order_manager.Prelude.Int.{ℤ, pos, pos_part, is_pos, ltb_ℤ, leb_ℤ, ◌-ℤ◌, ◌*ℤ◌}
use dex_limit_order_manager.Errors.{Result, ok, err, no_price}
use dex_limit_order_manager.Feed.{PoolConfig, CachedPrice, same_price, sqrt_price_x96_to_price}

-- The text in `source`; the deviation is in basis points.
pub data Source : Type 0 where
  unknown onchain onchain_poll onchain_stale_refresh okx_fallback onchain_okx : Source
  onchain_deviating : ℕ → Source

pub record DualPrice : Type 0 where
  pub on_chain : Option ℤ
  pub okx : Option ℤ
  pub price : Option ℤ
  pub timestamp : ℤ
  pub source : Source

-- What Go's map gives for a pair without an entry.
abbrev pub no_dual_price : DualPrice
no_dual_price = record {
  on_chain = none;
  okx = none;
  price = none;
  timestamp = pos 0;
  source = unknown;
}

abbrev pub is_same : Option ℤ → ℤ → Bool
is_same none price = false
is_same (some old) price = same_price old price

-- `publishPrice`, and whether the subscribers are told: an OKX price, too, is written as the price of
-- the chain.
unfoldable pub publish_price : ℤ → ℤ → Source → DualPrice → DualPrice × Bool
publish_price now price source dp = if is_same dp.price price then (dp, false) else (
  record dp { on_chain = some price; price = some price; timestamp = now; source = source },
  true,
)

-- `Latest`.
unfoldable pub dual_latest : DualPrice → Result CachedPrice
dual_latest dp = elim dp.price [
  | none ↦ err no_price
  | some price ↦ ok (record { price = price; timestamp = dp.timestamp })
]

abbrev is_zero_price : ℤ → Bool
is_zero_price a = same_price a (pos 0)

-- `computeDeviationBps`; `rounded` is the quotient of the difference in math/big's and the machine's
-- floating point, as a uint16.
unfoldable pub compute_deviation_bps : (ℤ → ℤ → ℕ) → ℤ → ℤ → ℕ
compute_deviation_bps rounded a b =
    if is_zero_price a || is_zero_price b then 10000 else rounded a b

cross_checked : (ℤ → ℤ → ℕ) → ℕ → ℤ → Source → Option ℤ → Source
unfolding compute_deviation_bps
cross_checked rounded max_deviation price source none = source
cross_checked rounded max_deviation price source (some chain_price) =
    let deviation = compute_deviation_bps rounded chain_price price in
    if not (is_pos chain_price && is_pos price)
    then source
    else if ltb max_deviation deviation
    then onchain_deviating deviation
    else onchain_okx

-- A round of `runOKXPoller` that has fetched a price: it never overrides the price of the chain.
unfoldable pub okx_round : (ℤ → ℤ → ℕ) → ℕ → ℤ → DualPrice → DualPrice
unfolding cross_checked
okx_round rounded max_deviation price dp = record dp {
  okx = some price;
  source = cross_checked rounded max_deviation price dp.source dp.on_chain;
}

-- `time.Since(...) > StaleThreshold`, in nanoseconds.
unfoldable pub is_stale : ℤ → ℤ → DualPrice → Bool
unfolding ◌-ℤ◌ ◌*ℤ◌
is_stale now threshold dp = ltb_ℤ threshold (now -ℤ dp.timestamp *ℤ pos 1_000_000_000)

fallback : Option ℤ → Option (ℤ × Source)
fallback none = none
fallback (some price) = if is_pos price then some (price, okx_fallback) else none

refreshed : Result ℤ → DualPrice → Option (ℤ × Source)
unfolding fallback
refreshed (ok price) later = some (price, onchain_stale_refresh)
refreshed (err x) later = fallback later.okx

-- A round of `runStaleWatchdog`: what it publishes. It reads the entry twice, and the chain between.
unfoldable pub watch : ℤ → ℤ → DualPrice → Result ℤ → DualPrice → Option (ℤ × Source)
unfolding is_stale refreshed
watch now threshold dp read later = if is_stale now threshold dp then refreshed read later else none

priced : PoolConfig → Option (Option ℤ) → Option (Result ℤ)
unfolding sqrt_price_x96_to_price
priced pool (some (some x)) =
    if is_pos x
    then some (
        sqrt_price_x96_to_price (pos_part x) pool.token0_decimals pool.token1_decimals
          pool.token0_is_base)
    else none
priced pool (some none) = none
priced pool none = none

unpacked : PoolConfig → Option (List (Option ℤ)) → Option (Result ℤ)
unfolding priced
unpacked pool none = none
unpacked pool (some outputs) = priced pool (get_elem? outputs 2)

-- `priceFromSwapLog`: `unpack` is go-ethereum's, and gives the integers among the fields.
unfoldable pub price_from_swap_log :
    (List ℕ → Option (List (Option ℤ))) → List ℕ → PoolConfig → Option (Result ℤ)
unfolding unpacked
price_from_swap_log unpack data_ pool =
    if ltb (length data_) 160 then none else unpacked pool (unpack data_)
