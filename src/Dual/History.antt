-- ===== src/Dual/History.antt =====
-- Histories of the dual feed, pkg/positionmanager/pricefeed_dual.go.
use dex_limit_order_manager.Prelude.{ℕ, Bool, Option, none, some, List, [], ◌++◌, get_elem?}
use dex_limit_order_manager.Prelude.Int.{ℤ}
use dex_limit_order_manager.Types.{TokenPair}
use dex_limit_order_manager.Errors.{Result, ok, ◌>>=◌}
use dex_limit_order_manager.Feed.{Hub, PriceUpdate}
use dex_limit_order_manager.Feed.Rounds.{Rounds, sent_one}
use dex_limit_order_manager.Dual.{DualPrice}
use dex_limit_order_manager.Dual.Streams.{
  DualFeed, dual_subscribe, dual_remove_sub, dual_close, log_price, fallback_turn, okx_turn,
  watchdog_turn,
}

-- What a caller, a listener or a ticker may do, and one send of those under way. The prices that the
-- chain and OKX give are arbitrary.
pub data Call : Type 0 where
  subscribing : TokenPair → (read : Result ℤ) → (now : ℤ) → Call
  leaving : TokenPair → ℕ → Call
  swap_seen : TokenPair → (removed : Bool) → (price : Option ℤ) → (block : ℕ) → (now : ℤ) → Call
  polled : TokenPair → (read : Result ℤ) → (now : ℤ) → Call
  okx_polled : TokenPair → (fetched : Result ℤ) → Call
  watched : TokenPair → (seen : DualPrice) → (read : Result ℤ) → (now : ℤ) → Call
  sending : ℕ → Call
  closing : Call

-- The price in a log, if there is one.
abbrev found : Option ℤ → Option (Result ℤ)
found none = none
found (some price) = some (ok price)

-- The feed after the mutex has been let go, with more sends to do.
abbrev publishing : Rounds DualPrice → Hub DualPrice × List (ℕ × PriceUpdate) → Rounds DualPrice
publishing s r = record { feed = r.0; under_way = s.under_way ++ r.1 }

module _ (rounded : ℤ → ℤ → ℕ) (clients : ℕ → Bool) (max_deviation : ℕ) (threshold : ℤ) where
  unfoldable pub step : Rounds DualPrice → Call → Result (Rounds DualPrice)
  unfolding dual_subscribe dual_remove_sub log_price fallback_turn okx_turn watchdog_turn dual_close
  step s (subscribing p read now) =
      ok (record s { feed = (dual_subscribe clients s.feed p read now).0 })
  step s (leaving p c) = do g ← dual_remove_sub s.feed p c; ok (record s { feed = g })
  step s (swap_seen p removed price block now) = do
    r ← log_price s.feed p removed (found price) block now
    ok (publishing s r)
  step s (polled p read now) = ok (publishing s (fallback_turn s.feed p read now))
  step s (okx_polled p fetched) =
      ok (record s { feed = okx_turn rounded max_deviation s.feed p fetched })
  step s (watched p seen read now) =
      ok (publishing s (watchdog_turn threshold s.feed p seen read now))
  step s (sending i) = sent_one s i (get_elem? s.under_way i)
  step s closing = do g ← dual_close s.feed; ok (record s { feed = g })

abbrev pub new_rounds : DualFeed → Rounds DualPrice
new_rounds f = record { feed = f.hub; under_way = [] }

-- A call on a feed with the configuration that it was made with.
abbrev pub step_of : (ℤ → ℤ → ℕ) → DualFeed → Rounds DualPrice → Call → Result (Rounds DualPrice)
step_of rounded f = step rounded f.clients f.max_deviation f.stale_threshold
