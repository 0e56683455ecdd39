-- ===== src/Settlement/Fired.antt =====
-- The fired level after `executeTrigger` of pkg/positionmanager/manager.go has settled its swap.
use dex_limit_order_manager.Prelude.{
  ℕ, zero, suc, ◌+◌, ◌<◌, ◌≡◌, refl, sym, subst, ◌∙◌, false, not, ◌&&◌, ◌++◌, Option, none, some,
  List, [], ◌∷◌, arith, ◌==◌, if◌then◌else◌, Bool-cases, Option-cases, inl, inr, get_elem?, set,
  get_elem?-set_self, get_elem?-set_ne, length, ==→eq, ==→ne,
}
use dex_limit_order_manager.Prelude.Int.{ℤ, pos, negsuc, is_pos}
use dex_limit_order_manager.Types.{Position, Level, LevelStatus, is_active, is_sl, active_sl}
use dex_limit_order_manager.Errors.{ok, succeeded, ok-injective}
use dex_limit_order_manager.Manager.Due.{get_elem?-lt}
use dex_limit_order_manager.Settlement.{
  Settlement, cancel_others, cancel_at, cancel_listed, move_sl, move_found, move_at, settle,
  settle_sl, settle_tp, record_execution, triggered_level,
}

-- The level at `i` is not active.
abbrev pub IsOver : List Level → ℕ → Type 0
IsOver ls i = (l : Level) → get_elem? ls i ≡ some l → is_active l.status ≡ false

-- Writing a level that is not active, or a level elsewhere.
set-IsOver :
    (ls : List Level) (n i : ℕ) (x : Level)
    → n < length ls
    → (n ≡ i → is_active x.status ≡ false)
    → IsOver ls i
    → IsOver (set ls n x) i
set-IsOver ls n i x inside off over l at = elim (Bool-cases (n == i)) [
  | inl y ↦
      let same = ==→eq n i y in
      let here =
        subst (λ m. get_elem? (set ls n x) m ≡ some x) same (get_elem?-set_self ls n x inside) in
      let is : x ≡ l = cc in subst (λ (z : Level). is_active z.status ≡ false) is (off same)
  | inr no_ ↦ over l (sym (get_elem?-set_ne ls n i x (==→ne n i no_)) ∙ at)
]

cancel_others-IsOver :
    (fired k : ℕ) (ls : List Level) (i : ℕ) → IsOver ls i → IsOver (cancel_others fired k ls).0 i
unfolding cancel_others
cancel_others-IsOver fired k [] i over l at = cc
cancel_others-IsOver fired k (x ∷ ls) (suc i) over l at =
    cancel_others-IsOver fired (k + 1) ls i (λ m h. over m h) l at
cancel_others-IsOver fired k (x ∷ ls) zero over l at =
    let off = over x refl in
    let miss : (not (k == fired) && is_active x.status) ≡ false = ground arith in
    let same : some x ≡ some l =
      subst (λ b. some (if b then record x { status = LevelStatus.cancelled } else x) ≡ some l) miss
        at in
    let is : x ≡ l = cc in subst (λ (z : Level). is_active z.status ≡ false) is off

cancel_at-IsOver :
    (ls : List Level) (n i : ℕ) → IsOver ls i → IsOver (cancel_at ls n (get_elem? ls n)).0 i
unfolding cancel_at
cancel_at-IsOver ls n i over = elim (Option-cases (get_elem? ls n)) [
  | inl missing ↦ rw missing over
  | inr (l, at) ↦ rw at (elim (Bool-cases (is_active l.status)) [
    | inr dead ↦ rw dead over
    | inl live ↦ rw live (
        set-IsOver ls n i (record l { status = LevelStatus.cancelled }) (get_elem?-lt ls n l at)
          (λ h. refl) over)
  ])
]

cancel_listed-IsOver :
    (ls : List Level) (is : List ℤ) (r : List Level × List ℕ) (i : ℕ)
    → cancel_listed ls is ≡ ok r
    → IsOver ls i
    → IsOver r.0 i
unfolding cancel_listed
cancel_listed-IsOver ls [] r i h over =
    let same : (ls, []) ≡ r = cc in subst (λ (x : List Level × List ℕ). IsOver x.0 i) same over
cancel_listed-IsOver ls (negsuc n ∷ is) r i h over = cc
cancel_listed-IsOver ls (pos n ∷ is) r i h over =
    let now = cancel_at ls n (get_elem? ls n) in
    let (later, worked, end) = succeeded (cancel_listed now.0 is) _ h in
    let same : (later.0, now.1 ++ later.1) ≡ r = cc in
    subst (λ (x : List Level × List ℕ). IsOver x.0 i) same
      (cancel_listed-IsOver now.0 is later i worked (cancel_at-IsOver ls n i over))

-- The stop-loss that moves keeps its status.
move_sl-IsOver :
    (p : Position) (price : Option ℤ) (i : ℕ) → IsOver p.levels i → IsOver (move_sl p price).0 i
unfolding move_sl move_found move_at
move_sl-IsOver p none i over = over
move_sl-IsOver p (some price) i over = elim (Bool-cases (is_pos price)) [
  | inr n ↦ rw n over
  | inl y ↦ rw y (elim (Option-cases (active_sl p)) [
    | inl missing ↦ rw missing over
    | inr (n, found) ↦ rw found (elim (Option-cases (get_elem? p.levels n)) [
      | inl missing ↦ rw missing over
      | inr (l, at) ↦ rw at (
          set-IsOver p.levels n i (record l { trigger_price = price })
            (get_elem?-lt p.levels n l at)
            (λ same. over l (subst (λ m. get_elem? p.levels m ≡ some l) same at)) over)
    ])
  ])
]

-- After its swap the fired level is not active.
pub settle-IsOver :
    (p : Position) (i : ℕ) (l : Level) (tx : ℕ) (price amount now : ℤ) (s : Settlement)
    → get_elem? p.levels i ≡ some l
    → settle p i l tx price amount now ≡ ok s
    → IsOver s.position.levels i × (s.position.id ≡ p.id)
unfolding settle record_execution settle_sl settle_tp
settle-IsOver p i l tx price amount now s at h = elim (Bool-cases (is_sl l.level_type)) [
  | inl stop ↦
      let taken : settle p i l tx price amount now ≡ ok (settle_sl done i) = rw stop in
      subst Right (ok-injective (sym taken ∙ h))
        (cancel_others-IsOver i 0 done.levels i written, refl)
  | inr take_ ↦
      let taken : settle p i l tx price amount now ≡ settle_tp done l = rw take_ in
      let (dropped, worked, end) =
        succeeded (cancel_listed done.levels l.cancel_on_fire) _ (sym taken ∙ h) in
      subst Right (ok-injective end) (
        move_sl-IsOver (record done { levels = dropped.0 }) l.move_sl_to i
            (cancel_listed-IsOver done.levels l.cancel_on_fire dropped i worked written),
        refl,
      )
]
  where
    done : Position
    done = record_execution p i l tx price amount now

    Right : Settlement → Type 0
    Right x = IsOver x.position.levels i × (x.position.id ≡ p.id)

    written : IsOver (record_execution p i l tx price amount now).levels i
    written x here =
        let inside = get_elem?-lt p.levels i l at in
        let same : triggered_level l tx price amount now ≡ x =
          cc (get_elem?-set_self p.levels i (triggered_level l tx price amount now) inside) in
        subst (λ (z : Level). is_active z.status ≡ false) same refl
