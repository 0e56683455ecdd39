-- ===== src/Dual/Tests.antt =====
-- The dual feed of pkg/positionmanager/pricefeed_dual.go with one pool, and after an emergency.
use dex_limit_order_manager.Prelude.{◌≡◌, refl, none, some, List, [], ◌∷◌, ◌==◌, true, false}
use dex_limit_order_manager.Prelude.Int.{pos}
use dex_limit_order_manager.Types.{TokenPair}
use dex_limit_order_manager.Errors.{ok, err, context_done, no_clients}
use dex_limit_order_manager.Feed.Rounds.{Rounds}
use dex_limit_order_manager.Dual.{
  DualPrice, no_dual_price, publish_price, okx_round, okx_fallback, onchain_okx,
}
use dex_limit_order_manager.Dual.Streams.{DualConfig, DualFeed, new_dual_price_feed, dual_feed_of}
use dex_limit_order_manager.Dual.History.{
  Call, subscribing, leaving, swap_seen, okx_polled, watched, sending, closing,
}

-- No price of the chain, and 300 from OKX, which is published.
abbrev rescued : DualPrice
rescued =
    (publish_price (pos 60) (pos 300) okx_fallback
      (okx_round (λ a b. 0) 200 (pos 300) no_dual_price)).0

-- The next check then compares OKX with itself.
confirmed : (okx_round (λ a b. 0) 200 (pos 300) rescued).source ≡ onchain_okx
unfolding okx_round publish_price
confirmed = refl

abbrev pair : TokenPair
pair = record { base = 1; quote = 2; chain_id = 137 }

abbrev cfg : DualConfig
cfg = record {
  ws_clients = some (λ k. k == 137);
  pools =
      record {
        pair = pair;
        pool_address = 50;
        token0_decimals = 18;
        token1_decimals = 6;
        token0_is_base = true;
      }
      ∷ [];
  okx = true;
  twap_seconds = 0;
  max_deviation = 0;
  stale_threshold = pos 0;
}

without_clients : new_dual_price_feed (record cfg { ws_clients = none }) ≡ err no_clients
unfolding new_dual_price_feed
without_clients = refl

-- A subscriber, a swap that is sent, a check with OKX, a stale price that cannot be read, and the end.
abbrev calls : List Call
calls =
    subscribing pair (ok (pos 250)) (pos 1)
    ∷ swap_seen pair false (some (pos 260)) 7 (pos 2)
    ∷ sending 0
    ∷ okx_polled pair (ok (pos 300))
    ∷ watched pair no_dual_price (err context_done) (pos 100)
    ∷ leaving pair 0
    ∷ closing
    ∷ []

abbrev feed : DualFeed
feed = dual_feed_of cfg (λ k. k == 137)
