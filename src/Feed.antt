-- ===== src/Feed.antt =====
-- pkg/positionmanager/pricefeed.go and pricefeed_uniswapv3.go: pools, the price of a pool, and the
-- subscribers of a pair with their channels. Each function holds the feed's mutex, so it is one step;
-- a poll loop sends after it has let the mutex go, so its sends are steps of their own.
pub mod Tests
pub mod Channels
pub mod Invariant
pub mod Leaving
pub mod History
pub mod Rounds
pub mod Interleaving
pub mod Pools
pub mod Reads
pub mod Ticks
pub mod Twap
pub mod Polling
pub mod Prices
pub mod Samples
use dex_limit_order_manager.Prelude.{
  ℕ, ◌+◌, ◌*◌, ◌/◌, ◌^◌, ◌≡◌, refl, Bool, true, false, not, ◌&&◌, Option, none, some, List, [], ◌∷◌,
  ◌++◌, ◌==◌, ltb, tally, if◌then◌else◌, keep, any, length,
}
use dex_limit_order_manager.Prelude.Int.{ℤ, pos, leb_ℤ}
use dex_limit_order_manager.Types.{TokenPair, pair_eq}
use dex_limit_order_manager.Errors.{
  Result, ok, err, no_pool, no_price, division_by_zero, closed_channel, from_option, ◌>>=◌,
}

pub record PoolConfig : Type 0 where
  pub address : ℕ
  pub token0_decimals : ℕ  -- uint8
  pub token1_decimals : ℕ  -- uint8
  pub token0_is_base : Bool

pub record CachedPrice : Type 0 where
  pub price : ℤ
  pub timestamp : ℤ

pub record PriceUpdate : Type 0 where
  pub pair : TokenPair
  pub price : ℤ
  pub block : ℕ
  pub timestamp : ℤ

-- A buffered channel of updates.
pub record Channel : Type 0 where
  pub buffer : List PriceUpdate
  pub closed : Bool

abbrev pub capacity : ℕ
capacity = 16

-- What both price feeds keep: `pools`, `prices`, `subs`, `polling` or `active`, with prices of a type of
-- their own. The channels that subscribers hold are numbered as they are made; `polling` lists the pairs that
-- have a poll loop (listeners, in the dual feed), the newest first.
pub record Hub (P : Type 0) : Type 0 where
  pub pools : TokenPair → Option PoolConfig
  pub prices : TokenPair → Option P
  pub subs : TokenPair → List ℕ
  pub polling : List TokenPair
  pub channels : ℕ → Channel
  pub made : ℕ

-- `UniswapV3PriceFeed`.
abbrev pub Feed : Type 0
Feed = Hub CachedPrice

-- A map with one key written.
unfoldable pub put : {A : Type 0} → (TokenPair → A) → TokenPair → A → TokenPair → A
put m p x q = if pair_eq q p then x else m q

unfoldable pub put_channel : (ℕ → Channel) → ℕ → Channel → ℕ → Channel
put_channel m c x d = if d == c then x else m d

-- `NewUniswapV3PriceFeed`, given the pools as a map.
abbrev pub new_feed : {P : Type 0} → (TokenPair → Option PoolConfig) → Hub P
new_feed pools = record {
  pools = pools;
  prices = λ p. none;
  subs = λ p. [];
  polling = [];
  channels = λ c. record { buffer = []; closed = false };
  made = 0;
}

-- The configuration of a pool for the pair the other way round, as `LookupPool` makes it.
abbrev pub flipped : PoolConfig → PoolConfig
flipped c = record {
  address = c.address;
  token0_decimals = c.token1_decimals;
  token1_decimals = c.token0_decimals;
  token0_is_base = not c.token0_is_base;
}

looked_up : Option PoolConfig → Option PoolConfig → Result PoolConfig
looked_up (some c) other = ok c
looked_up none (some c) = ok (flipped c)
looked_up none none = err no_pool

-- `LookupPool`.
unfoldable pub lookup_pool : (TokenPair → Option PoolConfig) → ℕ → ℕ → ℕ → Result PoolConfig
unfolding looked_up
lookup_pool pools base quote chain_id =
    looked_up (pools (record { base = base; quote = quote; chain_id = chain_id }))
      (pools (record { base = quote; quote = base; chain_id = chain_id }))

-- `Div` of math/big panics on a zero divisor.
abbrev pub quotient : ℕ → ℕ → Result ℤ
quotient n d = if d == 0 then err division_by_zero else ok (pos (n / d))

-- `sqrtPriceX96ToPrice`: the price with 8 decimals.
unfoldable pub sqrt_price_x96_to_price : ℕ → ℕ → ℕ → Bool → Result ℤ
sqrt_price_x96_to_price x decimals0 decimals1 token0_is_base =
    let sq = x * x in
    if token0_is_base
    then quotient (sq * 10 ^ 8 * 10 ^ decimals0) (2 ^ 192 * 10 ^ decimals1)
    else quotient (2 ^ 192 * 10 ^ 8 * 10 ^ decimals1) (sq * 10 ^ decimals0)

subscribed : {P : Type 0} → Hub P → TokenPair → Option PoolConfig → Hub P × Result ℕ
unfolding put any
subscribed f p none = (f, err no_pool)
subscribed f p (some c) = (
  record f {
    subs = put f.subs p (f.subs p ++ (f.made ∷ []));
    polling = if any (pair_eq p) f.polling then f.polling else p ∷ f.polling;
    channels = put_channel f.channels f.made (record { buffer = []; closed = false });
    made = f.made + 1;
  },
  ok f.made,
)

-- `Subscribe`: the number of the new channel.
unfoldable pub subscribe : {P : Type 0} → Hub P → TokenPair → Hub P × Result ℕ
unfolding subscribed
subscribe f p = subscribed f p (f.pools p)

-- `close(ch)`, which panics on a closed channel.
unfoldable pub close_channel : {P : Type 0} → Hub P → ℕ → Result (Hub P)
unfolding put_channel
close_channel f c =
    if (f.channels c).closed
    then err closed_channel
    else ok
        (record f { channels = put_channel f.channels c (record (f.channels c) { closed = true }) })

-- The first occurrence of the channel is taken out.
unfoldable pub remove_first : ℕ → List ℕ → List ℕ
remove_first c [] = []
remove_first c (s ∷ ss) = let rest = remove_first c ss in if s == c then ss else s ∷ rest

-- No subscribers left: the poll loop is cancelled.
unfoldable pub stop_polling : {P : Type 0} → Hub P → TokenPair → Hub P
unfolding keep put
stop_polling f p =
    if length (f.subs p) == 0
    then record f { polling = keep (λ q. not (pair_eq p q)) f.polling; subs = put f.subs p [] }
    else f

-- `removeSub`.
unfoldable pub remove_sub : {P : Type 0} → Hub P → TokenPair → ℕ → Result (Hub P)
unfolding close_channel remove_first stop_polling put any
remove_sub f p c = do
  g ←
      (if any (λ s. s == c) (f.subs p)
        then close_channel (record f { subs = put f.subs p (remove_first c (f.subs p)) }) c
        else ok f)
  ok (stop_polling g p)

-- `Latest`.
unfoldable pub latest : Feed → TokenPair → Result CachedPrice
latest f p = from_option (f.prices p) no_price

-- `close(ch)` on each of the channels.
unfoldable pub close_channels : {P : Type 0} → Hub P → List ℕ → Result (Hub P)
unfolding close_channel
close_channels f [] = ok f
close_channels f (c ∷ cs) = do g ← close_channel f c; close_channels g cs

unfoldable pub close_pairs : {P : Type 0} → Hub P → List TokenPair → Result (Hub P)
unfolding close_channels put keep
close_pairs f [] = ok f
close_pairs f (p ∷ ps) = do
  g ← close_channels f (f.subs p)
  close_pairs
      (record g { subs = put g.subs p []; polling = keep (λ q. not (pair_eq p q)) g.polling }) ps

-- `Close`: every pair that has a poll loop.
unfoldable pub close_feed : {P : Type 0} → Hub P → Result (Hub P)
unfolding close_pairs
close_feed f = close_pairs f f.polling

-- `Cmp(...) == 0`.
abbrev pub same_price : ℤ → ℤ → Bool
same_price a b = leb_ℤ a b && leb_ℤ b a

-- The price is the one of before.
unfoldable pub unchanged : Option CachedPrice → ℤ → Bool
unchanged none price = false
unchanged (some c) price = same_price c.price price

-- A round of `pollLoop` whose read of the pool gave `price`, up to where the mutex is let go: the
-- subscribers to send to, none if the price has not changed.
unfoldable pub poll : Feed → TokenPair → ℤ → ℤ → Feed × List ℕ
unfolding unchanged put
poll f p price now = if unchanged (f.prices p) price then (f, []) else (
  record f { prices = put f.prices p (some (record { price = price; timestamp = now })) },
  f.subs p,
)

abbrev pub update_of : TokenPair → ℤ → ℤ → PriceUpdate
update_of p price now = record { pair = p; price = price; block = 0; timestamp = now }

-- The update is dropped where the buffer is full.
abbrev pub enqueue : Channel → PriceUpdate → Channel
enqueue c u =
    if ltb (length c.buffer) capacity then record c { buffer = c.buffer ++ (u ∷ []) } else c

-- `select { case ch <- update: default: }`, which panics where the channel is closed.
unfoldable pub send : {P : Type 0} → Hub P → ℕ → PriceUpdate → Result (Hub P)
unfolding put_channel
send f c u =
    if (f.channels c).closed
    then err closed_channel
    else ok (record f { channels = put_channel f.channels c (enqueue (f.channels c) u) })

-- The sends of a round, with nothing in between.
unfoldable pub send_all : {P : Type 0} → Hub P → List ℕ → PriceUpdate → Result (Hub P)
unfolding send
send_all f [] u = ok f
send_all f (c ∷ cs) u = do g ← send f c u; send_all g cs u
