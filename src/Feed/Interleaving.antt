-- ===== src/Feed/Interleaving.antt =====
-- Calls on the feed of pkg/positionmanager/pricefeed_uniswapv3.go, with those that come between the
-- sends of a round.
use dex_limit_order_manager.Prelude.{
  ℕ, ◌≡◌, ◌⊎◌, refl, Option, List, [], ◌∷◌, ◌++◌, map, Bool-cases, inl, inr, get_elem?,
}
use dex_limit_order_manager.Prelude.Int.{ℤ}
use dex_limit_order_manager.Types.{TokenPair}
use dex_limit_order_manager.Errors.{Result, ok, err, closed_channel, ◌>>=◌}
use dex_limit_order_manager.Feed.{
  Feed, CachedPrice, PoolConfig, subscribe, remove_sub, close_feed, poll, unchanged, update_of,
  send, new_feed,
}
use dex_limit_order_manager.Feed.Invariant.{Inv, new_feed-Inv, subscribe-Inv}
use dex_limit_order_manager.Feed.Leaving.{remove_sub-Inv, close_pairs-Inv}
use dex_limit_order_manager.Feed.History.{same_open-Inv}
use dex_limit_order_manager.Feed.Rounds.{
  Rounds, sent_one, sent_one-Lands, IsLate, run, Steps, run-Keeps,
}

pub data Call : Type 0 where
  subscribing : TokenPair → Call
  leaving : TokenPair → ℕ → Call
  polling_once : (p : TokenPair) (price now : ℤ) → Call
  sending : ℕ → Call
  closing : Call

-- A round up to where it lets the mutex go: its copy of the subscribers is to be sent to.
abbrev pub polled : Rounds CachedPrice → TokenPair → ℤ → ℤ → Rounds CachedPrice
polled s p price now = record {
  feed = (poll s.feed p price now).0;
  under_way = s.under_way ++ map (λ c. (c, update_of p price now)) (poll s.feed p price now).1;
}

-- What happens under the mutex at once, or one send.
unfoldable pub step : Rounds CachedPrice → Call → Result (Rounds CachedPrice)
unfolding subscribe remove_sub poll send close_feed
step s (subscribing p) = ok (record s { feed = (subscribe s.feed p).0 })
step s (leaving p c) = do g ← remove_sub s.feed p c; ok (record s { feed = g })
step s (polling_once p price now) = ok (polled s p price now)
step s (sending i) = sent_one s i (get_elem? s.under_way i)
step s closing = do g ← close_feed s.feed; ok (record s { feed = g })

poll-Inv : (f : Feed) (p : TokenPair) (price now : ℤ) → Inv f → Inv (poll f p price now).0
unfolding poll
poll-Inv f p price now inv = elim (Bool-cases (unchanged (f.prices p) price)) [
  | inl y ↦ rw y inv
  | inr n ↦ rw n (same_open-Inv f _ f.channels (λ c h. h) inv)
]

step-Steps : (s : Rounds CachedPrice) (k : Call) → Inv s.feed → Steps step sending s k
unfolding step
step-Steps s (subscribing p) inv =
    inl (record s { feed = (subscribe s.feed p).0 }, refl, subscribe-Inv s.feed p inv)
step-Steps s (leaving p c) inv =
    let (g, leaves, kept) = remove_sub-Inv s.feed p inv c in
    inl (record s { feed = g }, rw leaves refl, kept)
step-Steps s (polling_once p price now) inv =
    inl (polled s p price now, refl, poll-Inv s.feed p price now inv)
step-Steps s (sending i) inv = elim (sent_one-Lands s i (get_elem? s.under_way i) refl inv) [
  | inl (t, h, kept) ↦ inl (t, h, kept)
  | inr (late, panics) ↦ inr (i, refl, late, panics)
]
step-Steps s closing inv =
    let (g, closes, kept) = close_pairs-Inv s.feed s.feed.polling inv in
    inl (record s { feed = g }, rw closes refl, kept)

abbrev pub new_rounds : (TokenPair → Option PoolConfig) → Rounds CachedPrice
new_rounds pools = record { feed = new_feed pools; under_way = [] }

-- A history of a new feed: subscriptions, cancellations (of any channel, also twice), polls that have
-- read some price, the sends of polls under way, each on its own, and closings. It goes through without
-- a panic, unless a send under way comes to a channel that has been closed meanwhile, which panics; no
-- other of these calls ever does. At the end, or when the panic comes, the channels that are subscribed
-- are distinct, open and made by the feed, none is in the lists of two pairs, and a pair has a poll
-- loop exactly if it has a subscriber.
pub run-keeps :
    (pools : TokenPair → Option PoolConfig) (ks : List Call)
    → ((s : Rounds CachedPrice) × (run step sending (new_rounds pools) ks ≡ ok s) × Inv s.feed)
      ⊎ ((before after : List Call) × (i : ℕ) × (s : Rounds CachedPrice) × (ks
            ≡ before ++ (sending i ∷ after))
          × (run step sending (new_rounds pools) before ≡ ok s)
          × IsLate s i
          × (run step sending (new_rounds pools) ks ≡ err closed_channel))
run-keeps pools ks =
    run-Keeps step sending step-Steps (new_rounds pools) ks (new_feed-Inv CachedPrice pools)
