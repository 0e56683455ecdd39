-- ===== src/Dual/Settled.antt =====
-- What the steps of the dual feed keep, pkg/positionmanager/pricefeed_dual.go: each writes prices only,
-- or is one of the other feed's.
use dex_limit_order_manager.Prelude.{ℕ, Bool, true, false, Option, none, some}
use dex_limit_order_manager.Prelude.Int.{ℤ}
use dex_limit_order_manager.Types.{TokenPair}
use dex_limit_order_manager.Errors.{Result, ok, err}
use dex_limit_order_manager.Feed.{Hub, PoolConfig, PriceUpdate, put, subscribe}
use dex_limit_order_manager.Feed.Invariant.{Inv, subscribe-Inv}
use dex_limit_order_manager.Feed.History.{same_open-Inv}
use dex_limit_order_manager.Dual.{DualPrice, Source, publish_price}
use dex_limit_order_manager.Dual.Streams.{
  entry_or_zero, first_price, dual_subscribed, told, dual_publish, dual_update, fallback_turn,
  okx_turn, refreshing,
}

prices-Inv :
    (h : Hub DualPrice) (prices : TokenPair → Option DualPrice)
    → Inv h
    → Inv (record h { prices = prices })
prices-Inv h prices i = same_open-Inv h prices h.channels (λ c e. e) i

told-Inv :
    (h : Hub DualPrice) (p : TokenPair) (r : DualPrice × Bool) (u : PriceUpdate)
    → Inv h
    → Inv (told h p r u).0
unfolding told
told-Inv h p (dp, false) u i = i
told-Inv h p (dp, true) u i = prices-Inv h (put h.prices p (some dp)) i

pub dual_publish-Inv :
    (h : Hub DualPrice) (p : TokenPair) (price : ℤ) (source : Source) (block : ℕ) (now : ℤ)
    → Inv h
    → Inv (dual_publish h p price source block now).0
unfolding dual_publish
dual_publish-Inv h p price source block now i =
    told-Inv h p (publish_price now price source (entry_or_zero (h.prices p)))
      (dual_update p price block now) i

pub fallback_turn-Inv :
    (h : Hub DualPrice) (p : TokenPair) (read : Result ℤ) (now : ℤ)
    → Inv h
    → Inv (fallback_turn h p read now).0
unfolding fallback_turn
fallback_turn-Inv h p (err x) now i = i
fallback_turn-Inv h p (ok price) now i = dual_publish-Inv h p price _ 0 now i

pub refreshing-Inv :
    (h : Hub DualPrice) (p : TokenPair) (o : Option (ℤ × Source)) (now : ℤ)
    → Inv h
    → Inv (refreshing h p o now).0
unfolding refreshing
refreshing-Inv h p none now i = i
refreshing-Inv h p (some (price, source)) now i = dual_publish-Inv h p price source 0 now i

pub okx_turn-Inv :
    (rounded : ℤ → ℤ → ℕ) (max_deviation : ℕ) (h : Hub DualPrice) (p : TokenPair)
    (fetched : Result ℤ)
    → Inv h
    → Inv (okx_turn rounded max_deviation h p fetched)
unfolding okx_turn
okx_turn-Inv rounded max_deviation h p (err x) i = i
okx_turn-Inv rounded max_deviation h p (ok price) i = prices-Inv h _ i

first_price-Inv :
    (h : Hub DualPrice) (p : TokenPair) (read : Result ℤ) (now : ℤ)
    → Inv h
    → Inv (first_price h p read now)
unfolding first_price
first_price-Inv h p (err x) now i = i
first_price-Inv h p (ok price) now i = prices-Inv h _ i

pub dual_subscribed-Inv :
    (h : Hub DualPrice) (p : TokenPair) (read : Result ℤ) (now : ℤ) (o : Option PoolConfig)
    (has_client running : Bool)
    → Inv h
    → Inv (dual_subscribed h p read now o has_client running).0
unfolding dual_subscribed
dual_subscribed-Inv h p read now none has_client running i = i
dual_subscribed-Inv h p read now (some pool) false running i = i
dual_subscribed-Inv h p read now (some pool) true true i = subscribe-Inv h p i
dual_subscribed-Inv h p read now (some pool) true false i =
    first_price-Inv (subscribe h p).0 p read now (subscribe-Inv h p i)
