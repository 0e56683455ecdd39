-- ===== src/Feed/Rounds.antt =====
-- Histories of a price feed whose rounds send outside of its mutex, for `pollLoop` of
-- pkg/positionmanager/pricefeed_uniswapv3.go and `publishPrice` of pricefeed_dual.go alike.
use dex_limit_order_manager.Prelude.{
  ℕ, suc, ◌≡◌, ◌⊎◌, refl, ap, ◌∙◌, true, false, Option, none, some, List, [], ◌∷◌, ◌++◌, arith,
  Bool-cases, inl, inr, get_elem?, take, drop,
}
use dex_limit_order_manager.Errors.{Result, ok, err, closed_channel, ◌>>=◌}
use dex_limit_order_manager.Feed.{Hub, PriceUpdate, put_channel, enqueue, send}
use dex_limit_order_manager.Feed.Invariant.{Inv}
use dex_limit_order_manager.Feed.History.{same_open-Inv, closed-send}

-- A feed with the sends that rounds under way have still to do. Each round sends in the order of its
-- copy of the list; here the sends may come in any order, between any other calls.
pub record Rounds (P : Type 0) : Type 0 where
  pub feed : Hub P
  pub under_way : List (ℕ × PriceUpdate)

-- One of the sends.
abbrev pub sent_one : {P : Type 0} → Rounds P → ℕ → Option (ℕ × PriceUpdate) → Result (Rounds P)
sent_one s i none = ok s
sent_one s i (some (c, u)) = do
  g ← send s.feed c u
  ok (record { feed = g; under_way = take i s.under_way ++ drop (suc i) s.under_way })

-- A send that is under way, to a channel that is closed by now.
pub record IsLate {P : Type 0} (s : Rounds P) (i : ℕ) : Type 0 where
  pub inv : Inv s.feed
  pub channel : ℕ
  pub news : PriceUpdate
  pub is_next : get_elem? s.under_way i ≡ some (channel, news)
  pub is_closed : (s.feed.channels channel).closed ≡ true

send-Inv :
    {P : Type 0} (f : Hub P) (c : ℕ) (u : PriceUpdate)
    → Inv f
    → (f.channels c).closed ≡ false
    → (g : Hub P) × (send f c u ≡ ok g) × Inv g
unfolding send put_channel
send-Inv f c u inv open_ = (
  record f { channels = put_channel f.channels c (enqueue (f.channels c) u) },
  rw open_ refl,
  same_open-Inv f f.prices (put_channel f.channels c (enqueue (f.channels c) u))
      (λ d h. ground (arith, h, open_)) inv,
)

-- What goes through keeps the invariant, and what panics is a late send.
abbrev pub Lands : {P : Type 0} → Rounds P → ℕ → Result (Rounds P) → Type 0
Lands {P} s i r =
    ((t : Rounds P) × (r ≡ ok t) × Inv t.feed) ⊎ (IsLate s i × (r ≡ err closed_channel))

pub sent_one-Lands :
    {P : Type 0} (s : Rounds P) (i : ℕ) (o : Option (ℕ × PriceUpdate))
    → get_elem? s.under_way i ≡ o
    → Inv s.feed
    → Lands s i (sent_one s i o)
sent_one-Lands s i none at inv = inl (s, refl, inv)
sent_one-Lands s i (some (c, u)) at inv = elim (Bool-cases (s.feed.channels c).closed) [
  | inr open_ ↦
      let (g, sends, kept) = send-Inv s.feed c u inv open_ in
      inl (
        record { feed = g; under_way = take i s.under_way ++ drop (suc i) s.under_way },
        rw sends refl,
        kept,
      )
  | inl shut_ ↦ inr (
    record { inv = inv; channel = c; news = u; is_next = at; is_closed = shut_ },
    rw (closed-send s.feed c u shut_) refl,
  )
]

-- The calls `C` of a feed, among them that for the send `i` of those under way.
module _ {P C : Type 0} (step : Rounds P → C → Result (Rounds P)) (sending : ℕ → C) where
  unfoldable pub run : Rounds P → List C → Result (Rounds P)
  run s [] = ok s
  run s (k ∷ ks) = do t ← step s k; run t ks

  -- The calls go through, or panic at a late send.
  abbrev pub Keeps : Rounds P → List C → Type 0
  Keeps s ks =
      ((t : Rounds P) × (run s ks ≡ ok t) × Inv t.feed)
      ⊎ ((before after : List C) × (i : ℕ) × (t : Rounds P) × (ks ≡ before ++ (sending i ∷ after))
          × (run s before ≡ ok t)
          × IsLate t i
          × (run s ks ≡ err closed_channel))

  -- A call goes through, or is a late send.
  abbrev pub Steps : Rounds P → C → Type 0
  Steps s k =
      ((t : Rounds P) × (step s k ≡ ok t) × Inv t.feed)
      ⊎ ((i : ℕ) × (k ≡ sending i) × IsLate s i × (step s k ≡ err closed_channel))

  next : (s t : Rounds P) (k : C) (ks : List C) → step s k ≡ ok t → Keeps t ks → Keeps s (k ∷ ks)
  unfolding run
  next s t k ks h (inl (u, runs, inv)) = inl (u, ap (λ r. r >>= λ x. run x ks) h ∙ runs, inv)
  next s t k ks h (inr (before, after, i, u, split, runs, late, panics)) = inr (
    k ∷ before,
    after,
    i,
    u,
    ap (λ xs. k ∷ xs) split,
    ap (λ r. r >>= λ x. run x before) h ∙ runs,
    late,
    ap (λ r. r >>= λ x. run x ks) h ∙ panics,
  )

  pub run-Keeps :
      ((s : Rounds P) (k : C) → Inv s.feed → Steps s k)
      → (s : Rounds P) (ks : List C) → Inv s.feed
      → Keeps s ks
  unfolding run
  run-Keeps steps s [] inv = inl (s, refl, inv)
  run-Keeps steps s (k ∷ ks) inv = elim (steps s k inv) [
    | inl (t, h, kept) ↦ next s t k ks h (run-Keeps steps t ks kept)
    | inr (i, is_send, late, panics) ↦
        inr
          ([], ks, i, s, ap (λ x. x ∷ ks) is_send, refl, late, ap (λ r. r >>= λ x. run x ks) panics)
  ]
