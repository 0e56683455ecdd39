-- ===== src/Settlement/TakeProfit.antt =====
-- What a swapped take-profit makes of the levels of its position, pkg/positionmanager/manager.go: two
-- passes over the levels, instead of the code's loop over the indices and its pointer to the stop-loss.
use dex_limit_order_manager.Prelude.{
  ℕ, zero, suc, ◌+◌, ◌<◌, ◌≡◌, refl, sym, ap, subst, ◌∙◌, Bool, true, false, ◌&&◌, Option, none,
  some, List, [], ◌∷◌, arith, if◌then◌else◌, Bool-cases, Option-cases, inl, inr, any, get_elem?,
  set, ◌==◌, ne→==,
}
use dex_limit_order_manager.Prelude.Int.{ℤ, pos, negsuc, is_pos}
use dex_limit_order_manager.Types.{
  Position, Level, LevelStatus, is_active, is_active_sl, active_sl, find_active_sl,
}
use dex_limit_order_manager.Errors.{ok, succeeded, ok-injective}
use dex_limit_order_manager.Settlement.{cancel_at, cancel_listed, move_at, move_found, move_sl}

names : ℕ → ℤ → Bool
names k (pos i) = k == i
names k (negsuc i) = false

abbrev cancelled : Level → Level
cancelled l = record l { status = LevelStatus.cancelled }

-- Of the levels, counted from `k` on, the active ones that the list names are cancelled.
unfoldable pub without_listed : List ℤ → ℕ → List Level → List Level
unfolding any names
without_listed is k [] = []
without_listed is k (l ∷ ls) =
    let rest = without_listed is (k + 1) ls in
    (if any (names k) is && is_active l.status then cancelled l else l) ∷ rest

-- The first active stop-loss gets the price.
moved_first : ℤ → List Level → List Level
moved_first price [] = []
moved_first price (l ∷ ls) =
    let rest = moved_first price ls in
    if is_active_sl l then record l { trigger_price = price } ∷ ls else l ∷ rest

unfoldable pub with_stop : Option ℤ → List Level → List Level
unfolding moved_first
with_stop none ls = ls
with_stop (some price) ls = if is_pos price then moved_first price ls else ls

none_listed : (k : ℕ) (ls : List Level) → without_listed [] k ls ≡ ls
unfolding without_listed
none_listed k [] = refl
none_listed k (l ∷ ls) = ap (λ xs. l ∷ xs) (none_listed (k + 1) ls)

-- A name of an earlier level does nothing.
passed_name :
    (m : ℕ) (is : List ℤ) (k : ℕ) (ls : List Level)
    → m < k
    → without_listed (pos m ∷ is) k ls ≡ without_listed is k ls
unfolding without_listed
passed_name m is k [] h = refl
passed_name m is k (l ∷ ls) h =
    rw (ne→== k m (λ e. omega (arith, e)), passed_name m is (k + 1) ls (omega arith)) refl

cancel_at-suc :
    (l : Level) (ls : List Level) (n : ℕ)
    → (cancel_at (l ∷ ls) (suc n) (get_elem? ls n)).0 ≡ l ∷ (cancel_at ls n (get_elem? ls n)).0
unfolding cancel_at
cancel_at-suc l ls n = elim (Option-cases (get_elem? ls n)) [
  | inl missing ↦ rw missing refl
  | inr (x, at) ↦
      rw at (elim (Bool-cases (is_active x.status)) [ inl y ↦ rw y refl | inr no_ ↦ rw no_ refl ])
]

without-dead :
    (is : List ℤ) (k : ℕ) (l : Level) (ls : List Level)
    → is_active l.status ≡ false
    → without_listed is k (l ∷ ls) ≡ l ∷ without_listed is (k + 1) ls
unfolding without_listed
without-dead is k l ls dead = elim (Bool-cases (any (names k) is)) [
  | inl y ↦ rw (y, dead) refl
  | inr n ↦ rw n refl
]

-- One turn of the loop over `CancelOnFire`.
without-cancel_at :
    (is : List ℤ) (k : ℕ) (ls : List Level) (n m : ℕ)
    → m ≡ k + n
    → without_listed is k (cancel_at ls n (get_elem? ls n)).0 ≡ without_listed (pos m ∷ is) k ls
unfolding without_listed cancel_at
without-cancel_at is k [] n m e = refl
without-cancel_at is k (l ∷ ls) zero m e =
    let here : (k == m) ≡ true = ground (arith, e) in
    let skip = passed_name m is (k + 1) ls (omega (arith, e)) in
    elim (Bool-cases (is_active l.status)) [
      | inl y ↦ rw (y, here, skip) (without-dead is k (cancelled l) ls refl)
      | inr dead ↦ rw (dead, here, skip) (without-dead is k l ls dead)
    ]
without-cancel_at is k (l ∷ ls) (suc n) m e =
    ap (without_listed is k) (cancel_at-suc l ls n)
    ∙ rw
        (
          ne→== k m (λ q. omega (arith, e, q)),
          without-cancel_at is (k + 1) ls n m (omega (arith, e)),
        )
        refl

pub cancel_listed-without :
    (ls : List Level) (is : List ℤ) (r : List Level × List ℕ)
    → cancel_listed ls is ≡ ok r
    → r.0 ≡ without_listed is 0 ls
unfolding cancel_listed
cancel_listed-without ls [] r h =
    let same : (ls, []) ≡ r = cc in
    subst (λ (x : List Level × List ℕ). x.0 ≡ without_listed [] 0 ls) same (sym (none_listed 0 ls))
cancel_listed-without ls (negsuc i ∷ is) r h = cc
cancel_listed-without ls (pos i ∷ is) r h =
    let now = cancel_at ls i (get_elem? ls i) in
    let (later, worked, end) = succeeded (cancel_listed now.0 is) _ h in
    let same = ok-injective end in
    subst (λ (x : List Level × List ℕ). x.0 ≡ without_listed (pos i ∷ is) 0 ls) same
      (cancel_listed-without now.0 is later worked ∙ without-cancel_at is 0 ls i i (omega arith))

-- Where the first active stop-loss is found, counted from `k` on.
Found : ℤ → ℕ → List Level → Option ℕ → Type 0
Found price k ls none = moved_first price ls ≡ ls
Found price k ls (some n) =
    (m : ℕ) × (l : Level) × (n ≡ k + m)
    × (get_elem? ls m ≡ some l)
    × (set ls m (record l { trigger_price = price }) ≡ moved_first price ls)

Found-later :
    (price : ℤ) (k : ℕ) (l : Level) (ls : List Level) (o : Option ℕ)
    → is_active_sl l ≡ false
    → Found price (k + 1) ls o
    → Found price k (l ∷ ls) o
unfolding Found moved_first
Found-later price k l ls none no_ h = rw no_ (ap (λ xs. l ∷ xs) h)
Found-later price k l ls (some n) no_ (m, x, e, at, same) =
    (suc m, x, omega (arith, e), at, rw no_ (ap (λ xs. l ∷ xs) same))

find_active_sl-Found :
    (price : ℤ) (k : ℕ) (ls : List Level) → Found price k ls (find_active_sl k ls)
unfolding Found moved_first find_active_sl
find_active_sl-Found price k [] = refl
find_active_sl-Found price k (l ∷ ls) = elim (Bool-cases (is_active_sl l)) [
  | inl y ↦ rw y (0, l, omega arith, refl, rw y refl)
  | inr no_ ↦ rw no_ (
      Found-later price k l ls (find_active_sl (k + 1) ls) no_
        (find_active_sl-Found price (k + 1) ls))
]

move_found-first :
    (price : ℤ) (ls : List Level) (o : Option ℕ)
    → Found price 0 ls o
    → (move_found ls price o).0 ≡ moved_first price ls
unfolding move_found move_at Found
move_found-first price ls none h = sym h
move_found-first price ls (some n) (m, l, e, at, same) =
    let here : n ≡ m = omega (arith, e) in rw (here, at) same

pub move_sl-with_stop : (p : Position) (o : Option ℤ) → (move_sl p o).0 ≡ with_stop o p.levels
unfolding move_sl with_stop active_sl
move_sl-with_stop p none = refl
move_sl-with_stop p (some price) = elim (Bool-cases (is_pos price)) [
  | inr n ↦ rw n refl
  | inl y ↦ rw y (
      move_found-first price p.levels (find_active_sl 0 p.levels)
        (find_active_sl-Found price 0 p.levels))
]
