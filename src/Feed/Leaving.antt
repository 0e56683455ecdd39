-- ===== src/Feed/Leaving.antt =====
-- Unsubscribing and closing, pkg/positionmanager/pricefeed_uniswapv3.go: the channels that are closed
-- are open until then.
use dex_limit_order_manager.Prelude.{
  ℕ, ◌-◌, ◌<◌, ◌≡◌, refl, sym, ap, subst, ◌∙◌, true, false, not, List, [], ◌∷◌, arith, ◌==◌,
  if◌then◌else◌, Bool-cases, inl, inr, any, keep, tally, ==→eq, length,
}
use dex_limit_order_manager.Types.{TokenPair, pair_eq, pair_eq_iff}
use dex_limit_order_manager.Errors.{ok, ◌>>=◌}
use dex_limit_order_manager.Feed.{
  Hub, Channel, put, put_channel, close_pairs, remove_first, remove_sub, stop_polling,
}
use dex_limit_order_manager.Feed.Channels.{
  occurs, any-occurs, occurs-remove_first, applied, shut, close-open, close_channels-open,
}
use dex_limit_order_manager.Feed.Invariant.{
  Inv, IsHealthy, IsApart, IsPolled, closed_in, put_lem, put-IsApart, is_zero, pair_eq→eq,
}

any-keep_self :
    (p : TokenPair) (ps : List TokenPair)
    → any (pair_eq p) (keep (λ q. not (pair_eq p q)) ps) ≡ false
unfolding any keep
any-keep_self p [] = refl
any-keep_self p (q ∷ ps) = elim (Bool-cases (pair_eq p q)) [
  | inl y ↦ rw y (any-keep_self p ps)
  | inr n ↦ rw (n, n) (any-keep_self p ps)
]

any-keep_other :
    (p q : TokenPair) (ps : List TokenPair)
    → pair_eq q p ≡ false
    → any (pair_eq q) (keep (λ r. not (pair_eq p r)) ps) ≡ any (pair_eq q) ps
unfolding any keep
any-keep_other p q [] h = refl
any-keep_other p q (r ∷ ps) h = elim (Bool-cases (pair_eq p r)) [
  | inl y ↦
      let other : pair_eq q r ≡ false = subst (λ x. pair_eq q x ≡ false) (pair_eq→eq p r y) h in
      rw (y, other) (any-keep_other p q ps h)
  | inr n ↦ rw n (ap (λ b. if pair_eq q r then true else b) (any-keep_other p q ps h))
]

-- The pair `p` has lost its subscribers and its poll loop.
dropped-Inv :
    {P : Type 0} (f : Hub P) (p : TokenPair)
    → ((q : TokenPair) → pair_eq q p ≡ false → IsHealthy (closed_in f) f.made (f.subs q))
    → IsApart f.subs
    → ((q : TokenPair) → pair_eq q p ≡ false → IsPolled f.polling q (f.subs q))
    → Inv (record f { polling = keep (λ q. not (pair_eq p q)) f.polling; subs = put f.subs p [] })
unfolding tally
dropped-Inv f p healthy apart polled = record {
  healthy =
      put_lem (λ q cs. IsHealthy (closed_in f) f.made cs) f.subs p []
        (record {
          once = λ c. omega arith;
          open_ = λ c h. absurd (omega (arith, h));
          old = λ c h. absurd (omega (arith, h));
        })
        healthy;
  apart = put-IsApart f.subs p [] apart (λ q c n h. absurd (omega (arith, h)));
  polled =
      put_lem (λ q cs. IsPolled (keep (λ r. not (pair_eq p r)) f.polling) q cs) f.subs p []
        (any-keep_self p f.polling) (λ q n. any-keep_other p q f.polling n ∙ polled q n);
}

stop_polling-Inv :
    {P : Type 0} (f : Hub P) (p : TokenPair)
    → ((q : TokenPair) → IsHealthy (closed_in f) f.made (f.subs q))
    → IsApart f.subs
    → ((q : TokenPair) → pair_eq q p ≡ false → IsPolled f.polling q (f.subs q))
    → ((length (f.subs p) == 0) ≡ false → any (pair_eq p) f.polling ≡ true)
    → Inv (stop_polling f p)
unfolding stop_polling
stop_polling-Inv f p healthy apart polled here = elim (Bool-cases (length (f.subs p) == 0)) [
  | inl y ↦ rw y (dropped-Inv f p (λ q n. healthy q) apart polled)
  | inr n ↦ rw n (record {
    healthy = healthy;
    apart = apart;
    polled = λ q. elim (Bool-cases (pair_eq q p)) [
      | inl same ↦
          subst (λ x. IsPolled f.polling x (f.subs x)) (sym (pair_eq→eq q p same))
            (here n ∙ sym (ap not n))
      | inr other ↦ polled q other
    ];
  })
]

occurs-length : (c : ℕ) (cs : List ℕ) → 0 < occurs c cs → (length cs == 0) ≡ false
unfolding tally
occurs-length c [] h = absurd (omega (arith, h))
occurs-length c (d ∷ cs) h = ground arith

removed-occurs : (c d : ℕ) (cs : List ℕ) → 0 < occurs d (remove_first c cs) → 0 < occurs d cs
removed-occurs c d cs h = omega (arith, occurs-remove_first c d cs, h)

-- The list without the closed channel.
removed-IsHealthy :
    (ch : ℕ → Channel) (made : ℕ) (cs : List ℕ) (c : ℕ)
    → IsHealthy (λ d. (ch d).closed) made cs
    → IsHealthy (λ d. (put_channel ch c (shut (ch c)) d).closed) made (remove_first c cs)
unfolding put_channel
removed-IsHealthy ch made cs c h = record {
  once = λ d. rw (occurs-remove_first c d cs) (omega (arith, h.once d));
  open_ = λ d k. elim (Bool-cases (d == c)) [
    | inl y ↦
        let at : occurs d (remove_first c cs) ≡ occurs d cs - 1 =
          occurs-remove_first c d cs ∙ rw y in
        absurd (omega (arith, h.once d, at, k))
    | inr n ↦ rw n (h.open_ d (less d k))
  ];
  old = λ d k. h.old d (less d k);
}
  where
    less : (d : ℕ) → 0 < occurs d (remove_first c cs) → 0 < occurs d cs
    less d k = removed-occurs c d cs k

-- The lists that do not have the closed channel.
spared-IsHealthy :
    (ch : ℕ → Channel) (made : ℕ) (cs : List ℕ) (c : ℕ)
    → occurs c cs ≡ 0
    → IsHealthy (λ d. (ch d).closed) made cs
    → IsHealthy (λ d. (put_channel ch c (shut (ch c)) d).closed) made cs
unfolding put_channel
spared-IsHealthy ch made cs c none_ h = record {
  once = h.once;
  open_ = λ d k. elim (Bool-cases (d == c)) [
    | inl y ↦
        let here : 0 < occurs c cs = subst (λ x. 0 < occurs x cs) (==→eq d c y) k in
        absurd (omega (arith, here, none_))
    | inr n ↦ rw n (h.open_ d k)
  ];
  old = h.old;
}

-- The feed without a subscriber, whose channel is closed.
abbrev pub removed : {P : Type 0} → Hub P → TokenPair → ℕ → Hub P
removed f p c = record f {
  subs = put f.subs p (remove_first c (f.subs p));
  channels = put_channel f.channels c (shut (f.channels c));
}

pub remove_sub-member :
    {P : Type 0} (f : Hub P) (p : TokenPair) (c : ℕ)
    → (f.channels c).closed ≡ false
    → 0 < occurs c (f.subs p)
    → remove_sub f p c ≡ ok (stop_polling (removed f p c) p)
unfolding remove_sub
remove_sub-member f p c is_open member =
    let found : any (λ s. s == c) (f.subs p) ≡ true =
      any-occurs c (f.subs p) ∙ ground (arith, member) in
    rw found (
      ap (λ r. r >>= λ x. ok (stop_polling x p))
        (close-open (record f { subs = put f.subs p (remove_first c (f.subs p)) }) c is_open))

pub stop_polling-channels :
    {P : Type 0} (f : Hub P) (p : TokenPair) → (stop_polling f p).channels ≡ f.channels
unfolding stop_polling
stop_polling-channels f p = elim (Bool-cases (length (f.subs p) == 0)) [
  | inl y ↦ rw y refl
  | inr n ↦ rw n refl
]

module _ {P : Type 0} (f : Hub P) (p : TokenPair) (inv : Inv f) where
  -- The channels of `p` are in no other list.
  elsewhere :
      (q : TokenPair) (c : ℕ)
      → pair_eq q p ≡ false
      → 0 < occurs c (f.subs p)
      → occurs c (f.subs q) ≡ 0
  elsewhere q c n k =
      is_zero (occurs c (f.subs q))
        (λ h. let same : pair_eq q p ≡ true = (pair_eq_iff q p).1 (inv.apart q p c h k) in cc)

  pub remove_sub-Inv : (c : ℕ) → (g : Hub P) × (remove_sub f p c ≡ ok g) × Inv g
  unfolding remove_sub put
  remove_sub-Inv c = elim (Bool-cases (any (λ s. s == c) (f.subs p))) [
    | inr n ↦ (
      stop_polling f p,
      rw n refl,
      stop_polling-Inv f p inv.healthy inv.apart (λ q o. inv.polled q)
          (λ some_. inv.polled p ∙ ap not some_),
    )
    | inl y ↦
        let member : 0 < occurs c (f.subs p) = ground (arith, any-occurs c (f.subs p)) in
        let g = removed f p c in
        (
          stop_polling g p,
          remove_sub-member f p c ((inv.healthy p).open_ c member) member,
          stop_polling-Inv g p
              (put_lem (λ q cs. IsHealthy (closed_in g) f.made cs) f.subs p
                (remove_first c (f.subs p))
                (removed-IsHealthy f.channels f.made (f.subs p) c (inv.healthy p))
                (λ q n.
                  spared-IsHealthy f.channels f.made (f.subs q) c (elsewhere q c n member)
                    (inv.healthy q)))
              (put-IsApart f.subs p (remove_first c (f.subs p)) inv.apart
                (λ q d n k. elsewhere q d n (removed-occurs c d (f.subs p) k)))
              (λ q n. rw n (inv.polled q))
              (λ some_. inv.polled p ∙ ap not (occurs-length c (f.subs p) member)),
        )
  ]

  -- The channels of `p` closed, the other lists are as healthy as before.
  shut-IsHealthy :
      (q : TokenPair)
      → pair_eq q p ≡ false
      → IsHealthy (λ c. (applied shut f.channels (f.subs p) c).closed) f.made (f.subs q)
  shut-IsHealthy q n = record {
    once = (inv.healthy q).once;
    open_ = λ c k.
        let not_here : occurs c (f.subs p) ≡ 0 =
          is_zero (occurs c (f.subs p)) (λ h. omega (arith, k, elsewhere q c n h)) in
        let out : any (λ s. s == c) (f.subs p) ≡ false = any-occurs c (f.subs p) ∙ rw not_here in
        rw out ((inv.healthy q).open_ c k);
    old = (inv.healthy q).old;
  }

  abbrev closed_pair : Hub P
  closed_pair = record f {
    channels = applied shut f.channels (f.subs p);
    subs = put f.subs p [];
    polling = keep (λ q. not (pair_eq p q)) f.polling;
  }

  closed_pair-Inv : Inv closed_pair
  closed_pair-Inv =
      dropped-Inv (record f { channels = applied shut f.channels (f.subs p) }) p shut-IsHealthy
        inv.apart (λ q n. inv.polled q)

-- Closing pairs, in any order and also more than once, never closes a channel twice.
pub close_pairs-Inv :
    {P : Type 0} (f : Hub P) (ps : List TokenPair)
    → Inv f
    → (g : Hub P) × (close_pairs f ps ≡ ok g) × Inv g
unfolding close_pairs
close_pairs-Inv f [] inv = (f, refl, inv)
close_pairs-Inv f (p ∷ ps) inv =
    let closes = close_channels-open f (f.subs p) (inv.healthy p).once (inv.healthy p).open_ in
    let (g, rest, kept) = close_pairs-Inv (closed_pair f p inv) ps (closed_pair-Inv f p inv) in
    (
      g,
      ap
            (λ r. r >>= λ x.
              close_pairs
                (record x {
                  subs = put x.subs p [];
                  polling = keep (λ q. not (pair_eq p q)) x.polling;
                })
                ps)
            closes
          ∙ rest,
      kept,
    )
