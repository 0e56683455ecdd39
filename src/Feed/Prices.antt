-- ===== src/Feed/Prices.antt =====
-- Subscribing, leaving and closing do not touch the prices of a feed, pricefeed_uniswapv3.go and
-- pricefeed_dual.go of pkg/positionmanager.
use dex_limit_order_manager.Prelude.{
  ℕ, ◌≡◌, refl, sym, ap, ◌∙◌, Option, none, some, List, [], ◌∷◌, not, ◌==◌, if◌then◌else◌, length,
  keep, any, Bool-cases, inl, inr, Bool, true, false,
}
use dex_limit_order_manager.Types.{TokenPair, pair_eq}
use dex_limit_order_manager.Errors.{ok, ok-injective, succeeded}
use dex_limit_order_manager.Feed.{
  Hub, PoolConfig, put, subscribe, subscribed, close_channel, close_channels, close_pairs,
  close_feed, remove_sub, remove_first, stop_polling,
}

module _ {P : Type 0} where
  subscribed-prices :
      (f : Hub P) (p : TokenPair) (o : Option PoolConfig) → (subscribed f p o).0.prices ≡ f.prices
  unfolding subscribed
  subscribed-prices f p none = refl
  subscribed-prices f p (some pool) = refl

  pub subscribe-prices : (f : Hub P) (p : TokenPair) → (subscribe f p).0.prices ≡ f.prices
  unfolding subscribe
  subscribe-prices f p = subscribed-prices f p (f.pools p)

  close_channel-prices : (f g : Hub P) (c : ℕ) → close_channel f c ≡ ok g → g.prices ≡ f.prices
  unfolding close_channel
  close_channel-prices f g c h = elim (Bool-cases (f.channels c).closed) [
    | inl y ↦ cc (h, y)
    | inr n ↦ ap Hub.prices (sym (ok-injective (rw n at h)))
  ]

  close_channels-prices :
      (f g : Hub P) (cs : List ℕ) → close_channels f cs ≡ ok g → g.prices ≡ f.prices
  unfolding close_channels
  close_channels-prices f g [] h = ap Hub.prices (sym (ok-injective h))
  close_channels-prices f g (c ∷ cs) h =
      let (k, first, rest) = succeeded (close_channel f c) (λ x. close_channels x cs) h in
      close_channels-prices k g cs rest ∙ close_channel-prices f k c first

  close_pairs-prices :
      (f g : Hub P) (ps : List TokenPair) → close_pairs f ps ≡ ok g → g.prices ≡ f.prices
  unfolding close_pairs
  close_pairs-prices f g [] h = ap Hub.prices (sym (ok-injective h))
  close_pairs-prices f g (p ∷ ps) h =
      let (k, first, rest) = succeeded (close_channels f (f.subs p)) _ h in
      close_pairs-prices
        (record k { subs = put k.subs p []; polling = keep (λ q. not (pair_eq p q)) k.polling }) g
        ps rest
      ∙ close_channels-prices f k (f.subs p) first

  stop_polling-prices : (f : Hub P) (p : TokenPair) → (stop_polling f p).prices ≡ f.prices
  unfolding stop_polling
  stop_polling-prices f p = elim (Bool-cases (length (f.subs p) == 0)) [
    | inl y ↦ rw y refl
    | inr n ↦ rw n refl
  ]

  pub close_feed-prices : (f g : Hub P) → close_feed f ≡ ok g → g.prices ≡ f.prices
  unfolding close_feed
  close_feed-prices f g h = close_pairs-prices f g f.polling h

  left-prices :
      (b : Bool) (f without k : Hub P) (c : ℕ)
      → without.prices ≡ f.prices
      → (if b then close_channel without c else ok f) ≡ ok k
      → k.prices ≡ f.prices
  left-prices true f without k c same h = close_channel-prices without k c h ∙ same
  left-prices false f without k c same h = ap Hub.prices (sym (ok-injective h))

  pub remove_sub-prices :
      (f g : Hub P) (p : TokenPair) (c : ℕ) → remove_sub f p c ≡ ok g → g.prices ≡ f.prices
  unfolding remove_sub
  remove_sub-prices f g p c h =
      let (k, first, rest) = succeeded _ (λ x. ok (stop_polling x p)) h in
      ap Hub.prices (sym (ok-injective rest))
      ∙ stop_polling-prices k p
      ∙ left-prices (any (λ s. s == c) (f.subs p)) f
          (record f { subs = put f.subs p (remove_first c (f.subs p)) }) k c refl first
