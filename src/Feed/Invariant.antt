-- ===== src/Feed/Invariant.antt =====
-- What the subscriptions of pkg/positionmanager/pricefeed_uniswapv3.go keep true, and that no channel
-- is closed twice.
use dex_limit_order_manager.Prelude.{
  ℕ, zero, suc, ◌+◌, ◌<◌, ◌≡◌, refl, sym, ap, subst, ◌∙◌, Bool, true, false, not, Option, List, [],
  ◌∷◌, ◌++◌, arith, ◌==◌, if◌then◌else◌, Bool-cases, Option-cases, inl, inr, any, tally,
  tally-append, ==→eq, ==→ne, ne→==, length,
}
use dex_limit_order_manager.Types.{TokenPair, pair_eq, pair_eq_iff, pair_eq_refl}
use dex_limit_order_manager.Feed.{
  Hub, Channel, PoolConfig, put, put_channel, subscribe, subscribed, new_feed,
}
use dex_limit_order_manager.Feed.Channels.{occurs, IsOnce}

pub pair_eq→eq : (p q : TokenPair) → pair_eq p q ≡ true → p ≡ q
pair_eq→eq p q h = (pair_eq_iff p q).0 h

pair_eq_sym : (p q : TokenPair) → pair_eq p q ≡ pair_eq q p
unfolding pair_eq
pair_eq_sym p q = ground arith

abbrev pub closed_in : {P : Type 0} → Hub P → ℕ → Bool
closed_in f c = (f.channels c).closed

-- The channels of a list are distinct, open, and were made by the feed.
pub record IsHealthy (closed : ℕ → Bool) (made : ℕ) (cs : List ℕ) : Type 0 where
  pub once : IsOnce cs
  pub open_ : (c : ℕ) → 0 < occurs c cs → closed c ≡ false
  pub old : (c : ℕ) → 0 < occurs c cs → c < made

-- A pair has a poll loop exactly if it has a subscriber.
abbrev pub IsPolled : List TokenPair → TokenPair → List ℕ → Type 0
IsPolled polling p cs = any (pair_eq p) polling ≡ not (length cs == 0)

-- A channel belongs to one pair.
abbrev pub IsApart : (TokenPair → List ℕ) → Type 0
IsApart subs = (p q : TokenPair) (c : ℕ) → 0 < occurs c (subs p) → 0 < occurs c (subs q) → p ≡ q

pub record Inv {P : Type 0} (f : Hub P) : Type 0 where
  pub healthy : (p : TokenPair) → IsHealthy (closed_in f) f.made (f.subs p)
  pub apart : IsApart f.subs
  pub polled : (p : TokenPair) → IsPolled f.polling p (f.subs p)

-- A property of the entries of a map, after a write.
pub put_lem :
    {A : Type 0} (R : TokenPair → A → Type 0) (m : TokenPair → A) (p : TokenPair) (x : A)
    → R p x
    → ((q : TokenPair) → pair_eq q p ≡ false → R q (m q))
    → (q : TokenPair) → R q (put m p x q)
unfolding put
put_lem R m p x here there q = elim (Bool-cases (pair_eq q p)) [
  | inl y ↦ rw y (subst (λ r. R r x) (sym (pair_eq→eq q p y)) here)
  | inr n ↦ rw n (there q n)
]

-- A list is written whose channels are in no other list.
pub put-IsApart :
    (subs : TokenPair → List ℕ) (p : TokenPair) (cs : List ℕ)
    → IsApart subs
    → ((q : TokenPair) (c : ℕ) → pair_eq q p ≡ false → 0 < occurs c cs → occurs c (subs q) ≡ 0)
    → IsApart (put subs p cs)
put-IsApart subs p cs apart new q r c =
    put_lem (λ q' xs. 0 < occurs c xs → 0 < occurs c (put subs p cs r) → q' ≡ r) subs p cs
      (put_lem (λ r' ys. 0 < occurs c cs → 0 < occurs c ys → p ≡ r') subs p cs (λ h k. refl)
        (λ r' n h k. absurd (omega (arith, k, new r' c n h))) r)
      (λ q' n.
        put_lem (λ r' ys. 0 < occurs c (subs q') → 0 < occurs c ys → q' ≡ r') subs p cs
          (λ h k. absurd (omega (arith, h, new q' c n k))) (λ r' n' h k. apart q' r' c h k) r)
      q

pub new_feed-Inv :
    (P : Type 0) (pools : TokenPair → Option PoolConfig) → Inv {P = P} (new_feed pools)
unfolding any tally
new_feed-Inv P pools = record {
  healthy = λ p. record {
    once = λ c. omega arith;
    open_ = λ c h. refl;
    old = λ c h. absurd (omega (arith, h));
  };
  apart = λ p q c h k. absurd (omega (arith, h));
  polled = λ p. refl;
}

occurs-snoc :
    (c d : ℕ) (cs : List ℕ) → occurs c (cs ++ (d ∷ [])) ≡ occurs c cs + (if d == c then 1 else 0)
unfolding tally
occurs-snoc c d cs = tally-append (λ s. s == c) cs (d ∷ []) ∙ ground arith

length-snoc : (d : ℕ) (cs : List ℕ) → (length (cs ++ (d ∷ [])) == 0) ≡ false
length-snoc d [] = refl
length-snoc d (c ∷ cs) = ground arith

pub is_zero : (n : ℕ) → (0 < n → ⊥) → n ≡ 0
is_zero zero h = refl
is_zero (suc n) h = absurd (h (omega arith))

-- A channel that is yet to be made is in no list.
made-occurs :
    (closed : ℕ → Bool) (made : ℕ) (cs : List ℕ) → IsHealthy closed made cs → occurs made cs ≡ 0
made-occurs closed made cs h = is_zero (occurs made cs) (λ k. omega (arith, h.old made k))

-- A new channel joins the list of a pair.
snoc-IsHealthy :
    (ch : ℕ → Channel) (made : ℕ) (cs : List ℕ) (new : Channel)
    → new.closed ≡ false
    → IsHealthy (λ c. (ch c).closed) made cs
    → IsHealthy (λ c. (put_channel ch made new c).closed) (made + 1) (cs ++ (made ∷ []))
unfolding put_channel
snoc-IsHealthy ch made cs new fresh h = record {
  once = λ c. rw (occurs-snoc c made cs) (elim (Bool-cases (made == c)) [
    | inl y ↦
        let none_ : occurs c cs ≡ 0 =
          subst (λ d. occurs d cs ≡ 0) (==→eq made c y)
            (made-occurs (λ d. (ch d).closed) made cs h) in
        rw (y, none_) (omega arith)
    | inr n ↦ rw n (omega (arith, h.once c))
  ]);
  open_ = λ c k. elim (Bool-cases (c == made)) [
    | inl y ↦ rw y fresh
    | inr n ↦ rw n (h.open_ c (before c n k))
  ];
  old = λ c k. elim (Bool-cases (c == made)) [
    | inl y ↦ omega (arith, ==→eq c made y)
    | inr n ↦ omega (arith, h.old c (before c n k))
  ];
}
  where
    before : (c : ℕ) → (c == made) ≡ false → 0 < occurs c (cs ++ (made ∷ [])) → 0 < occurs c cs
    before c n k =
        let other = ne→== made c (λ e. ==→ne c made n (sym e)) in
        let sum : occurs c (cs ++ (made ∷ [])) ≡ occurs c cs + 0 =
          occurs-snoc c made cs ∙ rw other in
        omega (arith, sum, k)

-- The lists of the other pairs, when a channel is made.
other-IsHealthy :
    (ch : ℕ → Channel) (made : ℕ) (cs : List ℕ) (new : Channel)
    → IsHealthy (λ c. (ch c).closed) made cs
    → IsHealthy (λ c. (put_channel ch made new c).closed) (made + 1) cs
unfolding put_channel
other-IsHealthy ch made cs new h = record {
  once = h.once;
  open_ = λ c k. rw (ne→== c made (λ e. omega (arith, h.old c k, e))) (h.open_ c k);
  old = λ c k. omega (arith, h.old c k);
}

abbrev polled_also : List TokenPair → TokenPair → List TokenPair
polled_also ps p = if any (pair_eq p) ps then ps else p ∷ ps

polled_also_self : (ps : List TokenPair) (p : TokenPair) → any (pair_eq p) (polled_also ps p) ≡ true
unfolding any
polled_also_self ps p = elim (Bool-cases (any (pair_eq p) ps)) [
  | inl y ↦ rw (y, y)
  | inr n ↦ rw (n, pair_eq_refl p)
]

polled_also-other :
    (ps : List TokenPair) (p q : TokenPair)
    → pair_eq q p ≡ false
    → any (pair_eq q) (polled_also ps p) ≡ any (pair_eq q) ps
unfolding any
polled_also-other ps p q h = elim (Bool-cases (any (pair_eq p) ps)) [
  | inl y ↦ rw y
  | inr n ↦ rw (n, h)
]

pub subscribe-Inv : {P : Type 0} (f : Hub P) (p : TokenPair) → Inv f → Inv (subscribe f p).0
unfolding subscribe subscribed
subscribe-Inv f p inv = elim (Option-cases (f.pools p)) [
  | inl missing ↦ rw missing inv
  | inr (pool, there) ↦ rw there (record {
    healthy =
        put_lem
          (λ q cs. IsHealthy (λ c. (put_channel f.channels f.made fresh c).closed) (f.made + 1) cs)
          f.subs p (f.subs p ++ (f.made ∷ []))
          (snoc-IsHealthy f.channels f.made (f.subs p) fresh refl (inv.healthy p))
          (λ q n. other-IsHealthy f.channels f.made (f.subs q) fresh (inv.healthy q));
    apart = put-IsApart f.subs p (f.subs p ++ (f.made ∷ [])) inv.apart new;
    polled =
        put_lem (λ q cs. IsPolled (polled_also f.polling p) q cs) f.subs p
          (f.subs p ++ (f.made ∷ []))
          (polled_also_self f.polling p ∙ sym (ap not (length-snoc f.made (f.subs p))))
          (λ q n. polled_also-other f.polling p q n ∙ inv.polled q);
  })
]
  where
    fresh : Channel
    fresh = record { buffer = []; closed = false }

    new :
        (q : TokenPair) (c : ℕ)
        → pair_eq q p ≡ false
        → 0 < occurs c (f.subs p ++ (f.made ∷ []))
        → occurs c (f.subs q) ≡ 0
    new q c n k = is_zero (occurs c (f.subs q)) (λ h. elim (Bool-cases (f.made == c)) [
      | inl y ↦
          let old : c < f.made = (inv.healthy q).old c h in omega (arith, ==→eq f.made c y, old)
      | inr other ↦
          let sum : occurs c (f.subs p ++ (f.made ∷ [])) ≡ occurs c (f.subs p) + 0 =
            occurs-snoc c f.made (f.subs p) ∙ rw other in
          let here : 0 < occurs c (f.subs p) = omega (arith, sum, k) in
          let same = inv.apart q p c h here in
          let yes_ : pair_eq q p ≡ true = (pair_eq_iff q p).1 same in cc
    ])
