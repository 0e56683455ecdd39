-- ===== src/Feed/History.antt =====
-- The delivery of a price by the feed of pkg/positionmanager/pricefeed_uniswapv3.go.
use dex_limit_order_manager.Prelude.{
  ℕ, ◌<◌, ◌≡◌, refl, sym, ap, subst, ◌∙◌, true, false, ◌&&◌, Option, some, List, [], ◌∷◌, ◌++◌,
  arith, ltb, if◌then◌else◌, Bool-cases, inl, inr, ==_refl, length,
}
use dex_limit_order_manager.Prelude.Int.{ℤ}
use dex_limit_order_manager.Types.{TokenPair, pair_eq_refl}
use dex_limit_order_manager.Errors.{
  Result, ok, err, closed_channel, from_option, no_price, ok-injective,
}
use dex_limit_order_manager.Feed.{
  Hub, Feed, Channel, PriceUpdate, put, put_channel, enqueue, capacity, unchanged, send, latest,
  remove_sub, stop_polling, poll, update_of, send_all,
}
use dex_limit_order_manager.Feed.Channels.{occurs, any-occurs, applied, shut, send_all-open}
use dex_limit_order_manager.Feed.Invariant.{Inv}
use dex_limit_order_manager.Feed.Leaving.{removed, remove_sub-member, stop_polling-channels}

-- A round of `pollLoop` with nothing between its sends.
unfoldable pub round : Feed → TokenPair → ℤ → ℤ → Result Feed
unfolding poll send_all
round f p price now = let (g, cs) = poll f p price now in send_all g cs (update_of p price now)

-- Prices do not matter, nor does what is in the buffers.
pub same_open-Inv :
    {P : Type 0} (f : Hub P) (prices : TokenPair → Option P) (channels : ℕ → Channel)
    → ((c : ℕ) → (f.channels c).closed ≡ false → (channels c).closed ≡ false)
    → Inv f
    → Inv (record f { prices = prices; channels = channels })
same_open-Inv f prices channels same inv = record {
  healthy = λ p. record {
    once = (inv.healthy p).once;
    open_ = λ c h. same c ((inv.healthy p).open_ c h);
    old = (inv.healthy p).old;
  };
  apart = inv.apart;
  polled = inv.polled;
}

pub delivered-Inv :
    {P : Type 0} (f : Hub P) (prices : TokenPair → Option P) (cs : List ℕ) (u : PriceUpdate)
    → Inv f
    → Inv (record f { prices = prices; channels = applied (λ c. enqueue c u) f.channels cs })
delivered-Inv f prices cs u inv =
    same_open-Inv f prices (applied (λ c. enqueue c u) f.channels cs) (λ c h. ground (arith, h)) inv

-- A round in which the price has changed reaches every subscriber, and the price is the latest.
round-changed :
    (f : Feed) (p : TokenPair) (price now : ℤ)
    → Inv f
    → unchanged (f.prices p) price ≡ false
    → round f p price now
      ≡ ok (record f {
        prices = put f.prices p (some (record { price = price; timestamp = now }));
        channels = applied (λ c. enqueue c (update_of p price now)) f.channels (f.subs p);
      })
unfolding round
round-changed f p price now inv new = rw new (
    send_all-open
      (record f { prices = put f.prices p (some (record { price = price; timestamp = now })) })
      (update_of p price now) (f.subs p) (inv.healthy p).once (inv.healthy p).open_)

pub round-Inv :
    (f : Feed) (p : TokenPair) (price now : ℤ)
    → Inv f
    → (g : Feed) × (round f p price now ≡ ok g) × Inv g
unfolding round
round-Inv f p price now inv = elim (Bool-cases (unchanged (f.prices p) price)) [
  | inl y ↦ (f, rw y refl, inv)
  | inr n ↦ (
    record f {
      prices = put f.prices p (some (record { price = price; timestamp = now }));
      channels = applied (λ c. enqueue c (update_of p price now)) f.channels (f.subs p);
    },
    round-changed f p price now inv n,
    delivered-Inv f (put f.prices p (some (record { price = price; timestamp = now }))) (f.subs p)
        (update_of p price now) inv,
  )
]

pub closed-send :
    {P : Type 0} (f : Hub P) (c : ℕ) (u : PriceUpdate)
    → (f.channels c).closed ≡ true
    → send f c u ≡ err closed_channel
unfolding send
closed-send f c u h =
    ap
      (λ b.
        if b
        then err closed_channel
        else ok (record f { channels = put_channel f.channels c (enqueue (f.channels c) u) }))
      h

pub put_self : {A : Type 0} (m : TokenPair → A) (p : TokenPair) (x : A) → put m p x p ≡ x
unfolding put
put_self m p x = rw (pair_eq_refl p) refl

-- A round in which the price of a pair has changed sends the update to every subscriber of the pair
-- whose buffer has room, and to nobody else, without a panic, and the price is the latest then.
pub round-delivers :
    (f : Feed) (p : TokenPair) (price now : ℤ)
    → Inv f
    → unchanged (f.prices p) price ≡ false
    → (g : Feed) × (round f p price now ≡ ok g)
      × (latest g p ≡ ok (record { price = price; timestamp = now }))
      × ((c : ℕ)
          → g.channels c ≡ (
              if ltb 0 (occurs c (f.subs p)) && ltb (length (f.channels c).buffer) capacity
              then record (f.channels c) {
                buffer = (f.channels c).buffer ++ (update_of p price now ∷ []);
              }
              else f.channels c))
unfolding latest put
round-delivers f p price now inv new = (
  record f {
    prices = put f.prices p (some (record { price = price; timestamp = now }));
    channels = applied (λ c. enqueue c (update_of p price now)) f.channels (f.subs p);
  },
  round-changed f p price now inv new,
  ap (λ o. from_option o no_price)
      (put_self f.prices p (some (record { price = price; timestamp = now }))),
  λ c. elim (Bool-cases (ltb 0 (occurs c (f.subs p)))) [
    | inl y ↦ rw (any-occurs c (f.subs p), y) refl
    | inr n ↦ rw (any-occurs c (f.subs p), n) refl
  ],
)

shut_self : (ch : ℕ → Channel) (c : ℕ) → (put_channel ch c (shut (ch c)) c).closed ≡ true
unfolding put_channel
shut_self ch c = rw (==_refl c) refl

-- A subscriber that leaves after the poll loop has copied the list, and before the loop sends to it:
-- the send panics, since the channel is closed.
pub send-late :
    (f g : Feed) (p : TokenPair) (price now : ℤ) (c : ℕ)
    → Inv f
    → unchanged (f.prices p) price ≡ false
    → 0 < occurs c (f.subs p)
    → remove_sub (poll f p price now).0 p c ≡ ok g
    → (0 < occurs c (poll f p price now).1)
      × (send g c (update_of p price now) ≡ err closed_channel)
unfolding poll
send-late f g p price now c inv new member leaves =
    let h : Feed = record f {
      prices = put f.prices p (some (record { price = price; timestamp = now }));
    } in
    let polls : poll f p price now ≡ (h, f.subs p) = rw new refl in
    let gone = stop_polling (removed h p c) p in
    let left : remove_sub (poll f p price now).0 p c ≡ ok gone =
      ap (λ (x : Feed × List ℕ). remove_sub x.0 p c) polls
      ∙ remove_sub-member h p c ((inv.healthy p).open_ c member) member in
    let same : gone ≡ g = ok-injective (sym left ∙ leaves) in
    (
      subst (λ (x : Feed × List ℕ). 0 < occurs c x.1) (sym polls) member,
      subst (λ x. send x c (update_of p price now) ≡ err closed_channel) same
          (closed-send gone c (update_of p price now) (
            ap (λ (x : ℕ → Channel). (x c).closed) (stop_polling-channels (removed h p c) p)
            ∙ shut_self f.channels c)),
    )
