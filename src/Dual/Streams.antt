-- ===== src/Dual/Streams.antt =====
-- The subscribers and listeners of the dual feed, pkg/positionmanager/pricefeed_dual.go. Its maps of
-- subscribers and of active listeners, `removeSub` and `Close` are those of the other feed, line by
-- line, over prices of its own.
use dex_limit_order_manager.Prelude.{
  ℕ, Bool, true, false, not, Option, none, some, List, [], ◌∷◌, ◌==◌, if◌then◌else◌, any, map,
}
use dex_limit_order_manager.Prelude.Int.{ℤ, pos}
use dex_limit_order_manager.Types.{TokenPair, pair_eq}
use dex_limit_order_manager.Errors.{
  Result, ok, err, no_pool, no_client, no_clients, no_pools, require, ◌>>=◌, ◌>>◌,
}
use dex_limit_order_manager.Feed.{
  Hub, PoolConfig, PriceUpdate, put, new_feed, subscribe, remove_sub, close_feed, same_price,
}
use dex_limit_order_manager.Feed.Polling.{PoolDef, with_pools}
use dex_limit_order_manager.Dual.{
  DualPrice, Source, onchain, onchain_poll, no_dual_price, publish_price, okx_round, watch,
}

-- `DualPriceFeedConfig`: the chains that have a client, nil if the map is nil; whether OKX is asked.
pub record DualConfig : Type 0 where
  pub ws_clients : Option (ℕ → Bool)
  pub pools : List PoolDef
  pub okx : Bool
  pub twap_seconds : ℕ
  pub max_deviation : ℕ  -- uint16
  pub stale_threshold : ℤ

-- `DualPriceFeed`: what its mutex guards, and the configuration with its defaults.
pub record DualFeed : Type 0 where
  pub hub : Hub DualPrice
  pub clients : ℕ → Bool
  pub max_deviation : ℕ
  pub stale_threshold : ℤ

abbrev pub has_no_pools : List PoolDef → Bool
has_no_pools [] = true
has_no_pools (d ∷ ds) = false

-- `NewDualPriceFeed` once the clients are there.
unfoldable pub dual_feed_of : DualConfig → (ℕ → Bool) → DualFeed
unfolding with_pools
dual_feed_of cfg clients = record {
  hub = new_feed (with_pools (λ p. none) cfg.pools);
  clients = clients;
  max_deviation = if cfg.max_deviation == 0 then 200 else cfg.max_deviation;
  stale_threshold =
      if same_price cfg.stale_threshold (pos 0) then pos 30_000_000_000 else cfg.stale_threshold;
}

abbrev pub clients_of : Option (ℕ → Bool) → Result (ℕ → Bool)
clients_of none = err no_clients
clients_of (some clients) = ok clients

-- `NewDualPriceFeed`.
unfoldable pub new_dual_price_feed : DualConfig → Result DualFeed
unfolding dual_feed_of
new_dual_price_feed cfg = do
  clients ← clients_of cfg.ws_clients
  require (not (has_no_pools cfg.pools)) no_pools
  ok (dual_feed_of cfg clients)

-- The entry of a pair, which Go's map gives as zero where there is none.
abbrev pub entry_or_zero : Option DualPrice → DualPrice
entry_or_zero none = no_dual_price
entry_or_zero (some dp) = dp

-- The first price of a pair, if `readSlot0` gives one: it replaces the entry.
unfoldable pub first_price : Hub DualPrice → TokenPair → Result ℤ → ℤ → Hub DualPrice
unfolding put
first_price h p (err x) now = h
first_price h p (ok price) now = record h {
  prices = put h.prices p (
      some (record {
        on_chain = some price;
        okx = none;
        price = some price;
        timestamp = now;
        source = onchain;
      }));
}

unfoldable pub dual_subscribed :
    Hub DualPrice
    → TokenPair
    → Result ℤ
    → ℤ
    → Option PoolConfig
    → (has_client : Bool) → (running : Bool) → Hub DualPrice × Result ℕ
unfolding subscribe first_price
dual_subscribed h p read now none has_client running = (h, err no_pool)
dual_subscribed h p read now (some pool) false running = (h, err no_client)
dual_subscribed h p read now (some pool) true true = subscribe h p
dual_subscribed h p read now (some pool) true false =
    (first_price (subscribe h p).0 p read now, (subscribe h p).1)

-- `Subscribe`, with what `readSlot0` gives in case the pair has no listeners yet.
unfoldable pub dual_subscribe :
    (ℕ → Bool) → Hub DualPrice → TokenPair → Result ℤ → ℤ → Hub DualPrice × Result ℕ
unfolding dual_subscribed any
dual_subscribe clients h p read now =
    dual_subscribed h p read now (h.pools p) (clients p.chain_id) (any (pair_eq p) h.polling)

-- `removeSub`.
unfoldable pub dual_remove_sub : Hub DualPrice → TokenPair → ℕ → Result (Hub DualPrice)
unfolding remove_sub
dual_remove_sub h p c = remove_sub h p c

-- `Close`.
unfoldable pub dual_close : Hub DualPrice → Result (Hub DualPrice)
unfolding close_feed
dual_close h = close_feed h

-- What `publishPrice` sends.
abbrev pub dual_update : TokenPair → ℤ → ℕ → ℤ → PriceUpdate
dual_update p price block now = record { pair = p; price = price; block = block; timestamp = now }

-- The price is stored if it has changed, and the copy of the subscribers is to be sent to.
unfoldable pub told :
    Hub DualPrice
    → TokenPair
    → DualPrice × Bool
    → PriceUpdate
    → Hub DualPrice × List (ℕ × PriceUpdate)
unfolding put
told h p (dp, false) u = (h, [])
told h p (dp, true) u =
    (record h { prices = put h.prices p (some dp) }, map (λ c. (c, u)) (h.subs p))

-- `publishPrice` up to where it lets the mutex go, with the sends that it has still to do.
unfoldable pub dual_publish :
    Hub DualPrice → TokenPair → ℤ → Source → ℕ → ℤ → Hub DualPrice × List (ℕ × PriceUpdate)
unfolding publish_price told
dual_publish h p price source block now =
    told h p (publish_price now price source (entry_or_zero (h.prices p)))
      (dual_update p price block now)

-- A log of `Swap`, in `listenSwapEvents`, given its price: reorganised logs are skipped.
unfoldable pub log_price :
    Hub DualPrice
    → TokenPair
    → (removed : Bool) → Option (Result ℤ)
    → ℕ
    → ℤ
    → Result (Hub DualPrice × List (ℕ × PriceUpdate))
unfolding dual_publish
log_price h p true price block now = ok (h, [])
log_price h p false none block now = ok (h, [])
log_price h p false (some (err x)) block now = err x
log_price h p false (some (ok price)) block now = ok (dual_publish h p price onchain block now)

-- A turn of `pollFallback`.
unfoldable pub fallback_turn :
    Hub DualPrice → TokenPair → Result ℤ → ℤ → Hub DualPrice × List (ℕ × PriceUpdate)
unfolding dual_publish
fallback_turn h p (err x) now = (h, [])
fallback_turn h p (ok price) now = dual_publish h p price onchain_poll 0 now

-- A turn of `runOKXPoller`.
unfoldable pub okx_turn : (ℤ → ℤ → ℕ) → ℕ → Hub DualPrice → TokenPair → Result ℤ → Hub DualPrice
unfolding okx_round put
okx_turn rounded max_deviation h p (err x) = h
okx_turn rounded max_deviation h p (ok price) = record h {
  prices =
      put h.prices p (some (okx_round rounded max_deviation price (entry_or_zero (h.prices p))));
}

unfoldable pub refreshing :
    Hub DualPrice → TokenPair → Option (ℤ × Source) → ℤ → Hub DualPrice × List (ℕ × PriceUpdate)
unfolding dual_publish
refreshing h p none now = (h, [])
refreshing h p (some (price, source)) now = dual_publish h p price source 0 now

-- A turn of `runStaleWatchdog`, which has seen the entry `seen` before it read the chain.
unfoldable pub watchdog_turn :
    ℤ
    → Hub DualPrice
    → TokenPair
    → DualPrice
    → Result ℤ
    → ℤ
    → Hub DualPrice × List (ℕ × PriceUpdate)
unfolding watch refreshing
watchdog_turn threshold h p seen read now =
    refreshing h p (watch now threshold seen read (entry_or_zero (h.prices p))) now
