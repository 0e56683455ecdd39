-- ===== src/Feed/Tests.antt =====
-- The feed of pkg/positionmanager/pricefeed_uniswapv3.go with one pool and one subscriber.
use dex_limit_order_manager.Prelude.{
  ℕ, ◌+◌, ◌*◌, ◌^◌, ◌≤◌, ◌<◌, ◌≡◌, refl, true, false, ◌&&◌, [], ◌∷◌, ◌++◌, List, ◌⊎◌, arith, tally,
  length, ltb, if◌then◌else◌,
}
use dex_limit_order_manager.Prelude.Int.{pos}
use dex_limit_order_manager.Types.{TokenPair, pair_eq}
use dex_limit_order_manager.Errors.{ok, err, closed_channel}
use dex_limit_order_manager.Feed.{
  put_channel, Feed, CachedPrice, PoolConfig, new_feed, subscribe, poll, send, latest, update_of,
  unchanged, capacity, sqrt_price_x96_to_price, stop_polling,
}
use dex_limit_order_manager.Feed.Channels.{occurs}
use dex_limit_order_manager.Feed.Invariant.{Inv, new_feed-Inv, subscribe-Inv}
use dex_limit_order_manager.Feed.Leaving.{removed, remove_sub-member}
use dex_limit_order_manager.Feed.History.{round, round-delivers, send-late}
use dex_limit_order_manager.Feed.Rounds.{Rounds, IsLate, run}
use dex_limit_order_manager.Feed.Interleaving.{
  Call, subscribing, leaving, polling_once, sending, closing, step, new_rounds, run-keeps,
}
use dex_limit_order_manager.Feed.Pools.{single, prices-reciprocal}

abbrev pair : TokenPair
pair = record { base = 1; quote = 2; chain_id = 137 }

abbrev pool : PoolConfig
pool = record { address = 50; token0_decimals = 18; token1_decimals = 6; token0_is_base = true }

abbrev watched : Feed
watched = (subscribe (new_feed (single pair pool)) pair).0

watched-Inv : Inv watched
watched-Inv =
    subscribe-Inv (new_feed (single pair pool)) pair (new_feed-Inv CachedPrice (single pair pool))

-- The feed in the middle of a round, and after its only subscriber has left then.
abbrev halfway : Feed
halfway = (poll watched pair (pos 300) (pos 9)).0

abbrev deserted : Feed
deserted = stop_polling (removed halfway pair 0) pair

-- A round with its send, before the subscriber leaves.
abbrev calls : List Call
calls =
    subscribing pair
    ∷ polling_once pair (pos 300) (pos 9)
    ∷ sending 0
    ∷ leaving pair 0
    ∷ closing
    ∷ []

run-keeps_example :
    ((s : Rounds CachedPrice) × (run step sending (new_rounds (single pair pool)) calls ≡ ok s)
      × Inv s.feed)
    ⊎ ((before after : List Call) × (i : ℕ) × (s : Rounds CachedPrice) × (calls
          ≡ before ++ (sending i ∷ after))
        × (run step sending (new_rounds (single pair pool)) before ≡ ok s)
        × IsLate s i
        × (run step sending (new_rounds (single pair pool)) calls ≡ err closed_channel))
run-keeps_example = run-keeps (single pair pool) calls

round-delivers_example :
    (g : Feed) × (round watched pair (pos 300) (pos 9) ≡ ok g)
    × (latest g pair ≡ ok (record { price = pos 300; timestamp = pos 9 }))
    × ((c : ℕ)
        → g.channels c ≡ (
            if ltb 0 (occurs c (watched.subs pair))
              && ltb (length (watched.channels c).buffer) capacity
            then record (watched.channels c) {
              buffer = (watched.channels c).buffer ++ (update_of pair (pos 300) (pos 9) ∷ []);
            }
            else watched.channels c))
unfolding subscribe unchanged pair_eq
round-delivers_example = round-delivers watched pair (pos 300) (pos 9) watched-Inv refl

send-late_example :
    (0 < occurs 0 (poll watched pair (pos 300) (pos 9)).1)
    × (send deserted 0 (update_of pair (pos 300) (pos 9)) ≡ err closed_channel)
unfolding subscribe unchanged tally poll pair_eq put_channel
send-late_example =
    send-late watched deserted pair (pos 300) (pos 9) 0 watched-Inv refl (omega arith)
      (remove_sub-member halfway pair 0 refl (omega arith))

prices-reciprocal_example :
    (p : ℕ) × (r : ℕ) × (sqrt_price_x96_to_price (2 ^ 96) 18 6 true ≡ ok (pos p))
    × (sqrt_price_x96_to_price (2 ^ 96) 18 6 false ≡ ok (pos r))
    × (p * r ≤ 10 ^ 8 * 10 ^ 8)
    × (10 ^ 8 * 10 ^ 8 < (p + 1) * (r + 1))
prices-reciprocal_example = prices-reciprocal (2 ^ 96) 18 6 (omega arith)
