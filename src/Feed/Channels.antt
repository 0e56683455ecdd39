-- ===== src/Feed/Channels.antt =====
-- Sending to, and closing, the channels of a pair, pkg/positionmanager/pricefeed_uniswapv3.go.
use dex_limit_order_manager.Prelude.{
  ℕ, suc, ◌-◌, ◌≤◌, ◌<◌, ◌≡◌, refl, sym, ap, subst, ◌∙◌, fun_ext, Bool, true, false, List, [], ◌∷◌,
  arith, ◌==◌, ltb, if◌then◌else◌, Bool-cases, inl, inr, any, tally, ==→eq, ==→ne, ==_refl, ne→==,
}
use dex_limit_order_manager.Errors.{Result, ok, err, closed_channel, ◌>>=◌}
use dex_limit_order_manager.Feed.{
  Hub, Channel, PriceUpdate, put_channel, enqueue, close_channel, close_channels, send, send_all,
  remove_first,
}

-- How often the channel is among the subscribers.
abbrev pub occurs : ℕ → List ℕ → ℕ
occurs c cs = tally (λ s. s == c) cs

pub any-occurs : (c : ℕ) (cs : List ℕ) → any (λ s. s == c) cs ≡ ltb 0 (occurs c cs)
unfolding any tally
any-occurs c [] = refl
any-occurs c (s ∷ ss) = ground (arith, any-occurs c ss)

pub occurs-remove_first :
    (c d : ℕ) (cs : List ℕ) → occurs d (remove_first c cs) ≡ occurs d cs - (if d == c then 1 else 0)
unfolding remove_first tally
occurs-remove_first c d [] = ground arith
occurs-remove_first c d (s ∷ ss) = ground (arith, occurs-remove_first c d ss)

-- The channels with `h` applied to those of the list.
abbrev pub applied : (Channel → Channel) → (ℕ → Channel) → List ℕ → ℕ → Channel
applied h cs ds c = if any (λ s. s == c) ds then h (cs c) else cs c

applied-cons :
    (h : Channel → Channel) (cs : ℕ → Channel) (d : ℕ) (ds : List ℕ)
    → any (λ s. s == d) ds ≡ false
    → applied h (put_channel cs d (h (cs d))) ds ≡ applied h cs (d ∷ ds)
unfolding put_channel any
applied-cons h cs d ds once = fun_ext (λ c. elim (Bool-cases (c == d)) [
  | inl y ↦
      subst (λ x. applied h (put_channel cs d (h (cs d))) ds x ≡ applied h cs (d ∷ ds) x)
        (sym (==→eq c d y)) (rw (==_refl d, once) refl)
  | inr n ↦ rw (n, ne→== d c (λ e. ==→ne c d n (sym e))) refl
])

-- No channel is listed twice.
abbrev pub IsOnce : List ℕ → Type 0
IsOnce cs = (c : ℕ) → occurs c cs ≤ 1

module _ (closed : ℕ → Bool) (c : ℕ) (cs : List ℕ) (once : IsOnce (c ∷ cs))
    (open_ : (d : ℕ) → 0 < occurs d (c ∷ cs) → closed d ≡ false) where
  head-open : closed c ≡ false
  unfolding tally
  head-open = open_ c (rw (==_refl c) (omega arith))

  head-once : any (λ s. s == c) cs ≡ false
  unfolding tally
  head-once =
      let le : (if c == c then suc (occurs c cs) else occurs c cs) ≤ 1 = once c in
      let none_ : occurs c cs ≡ 0 = ground (arith, ==_refl c) in any-occurs c cs ∙ rw none_

  tail-once : IsOnce cs
  unfolding tally
  tail-once d = ground (arith, once d)

  tail-open : (d : ℕ) → 0 < occurs d cs → closed d ≡ false
  unfolding tally
  tail-open d h = open_ d (ground (arith, h))

  tail-ne : (d : ℕ) → 0 < occurs d cs → (d == c) ≡ false
  unfolding tally
  tail-ne d h = ne→== d c (λ e.
      let here : 0 < occurs c cs = subst (λ x. 0 < occurs x cs) e h in
      let le : (if c == c then suc (occurs c cs) else occurs c cs) ≤ 1 = once c in
      ground (arith, ==_refl c))

-- An operation on a channel that is open, done on each of a list in turn.
module _ {P : Type 0} (h : Channel → Channel) (op : Hub P → ℕ → Result (Hub P))
    (all : Hub P → List ℕ → Result (Hub P))
    (op_open : (f : Hub P) (c : ℕ)
      → (f.channels c).closed ≡ false
      → op f c ≡ ok (record f { channels = put_channel f.channels c (h (f.channels c)) }))
    (all_nil : (f : Hub P) → all f [] ≡ ok f)
    (all_cons : (f : Hub P) (c : ℕ) (cs : List ℕ)
      → all f (c ∷ cs) ≡ (op f c >>= λ g. all g cs)) where
  all-applied :
      (f : Hub P) (cs : List ℕ)
      → IsOnce cs
      → ((c : ℕ) → 0 < occurs c cs → (f.channels c).closed ≡ false)
      → all f cs ≡ ok (record f { channels = applied h f.channels cs })
  unfolding put_channel any
  all-applied f [] once open_ = all_nil f
  all-applied f (c ∷ cs) once open_ =
      let closed : ℕ → Bool = λ d. (f.channels d).closed in
      let g : Hub P = record f { channels = put_channel f.channels c (h (f.channels c)) } in
      let still : (d : ℕ) → 0 < occurs d cs → (g.channels d).closed ≡ false =
        λ d k. rw (tail-ne closed c cs once open_ d k) (tail-open closed c cs once open_ d k) in
      all_cons f c cs
      ∙ ap (λ r. r >>= λ x. all x cs) (op_open f c (head-open closed c cs once open_))
      ∙ all-applied g cs (tail-once closed c cs once open_) still
      ∙ ap (λ x. ok (record f { channels = x }))
          (applied-cons h f.channels c cs (head-once closed c cs once open_))

pub send-open :
    {P : Type 0} (f : Hub P) (u : PriceUpdate) (c : ℕ)
    → (f.channels c).closed ≡ false
    → send f c u ≡ ok (record f { channels = put_channel f.channels c (enqueue (f.channels c) u) })
unfolding send
send-open f u c h =
    ap
      (λ b.
        if b
        then err closed_channel
        else ok (record f { channels = put_channel f.channels c (enqueue (f.channels c) u) }))
      h

abbrev pub shut : Channel → Channel
shut c = record c { closed = true }

pub close-open :
    {P : Type 0} (f : Hub P) (c : ℕ)
    → (f.channels c).closed ≡ false
    → close_channel f c
      ≡ ok (record f { channels = put_channel f.channels c (shut (f.channels c)) })
unfolding close_channel
close-open f c h =
    ap
      (λ b.
        if b
        then err closed_channel
        else ok (record f { channels = put_channel f.channels c (shut (f.channels c)) }))
      h

pub send_all-open :
    {P : Type 0} (f : Hub P) (u : PriceUpdate) (cs : List ℕ)
    → IsOnce cs
    → ((c : ℕ) → 0 < occurs c cs → (f.channels c).closed ≡ false)
    → send_all f cs u ≡ ok (record f { channels = applied (λ c. enqueue c u) f.channels cs })
unfolding send_all
send_all-open f u =
    all-applied (λ c. enqueue c u) (λ g c. send g c u) (λ g cs. send_all g cs u)
      (λ g c. send-open g u c) (λ g. refl) (λ g c cs. refl) f

pub close_channels-open :
    {P : Type 0} (f : Hub P) (cs : List ℕ)
    → IsOnce cs
    → ((c : ℕ) → 0 < occurs c cs → (f.channels c).closed ≡ false)
    → close_channels f cs ≡ ok (record f { channels = applied shut f.channels cs })
unfolding close_channels
close_channels-open =
    all-applied shut close_channel close_channels close-open (λ g. refl) (λ g c cs. refl)
