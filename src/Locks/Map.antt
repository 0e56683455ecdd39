-- ===== src/Locks/Map.antt =====
-- The map of mutexes and its cleanup, pkg/positionmanager/manager.go.
use dex_limit_order_manager.Prelude.{
  ℕ, ◌+◌, ◌<◌, ◌≡◌, ◌≢◌, refl, sym, ap, subst, ◌∙◌, false, not, some, List, [], ◌∷◌, arith, ◌==◌,
  if◌then◌else◌, Bool-cases, Option-cases, inl, inr, keep, any, All, All-keep, ==→eq, ==→ne,
  ==_refl, ne→==,
}
use dex_limit_order_manager.Locks.{write, find_lock, drop_lock, cleanup}

pub write_self : {A : Type 0} (f : ℕ → A) (i : ℕ) (x : A) → write f i x i ≡ x
unfolding write
write_self f i x = rw (==_refl i) refl

pub write_ne : {A : Type 0} (f : ℕ → A) (i : ℕ) (x : A) (j : ℕ) → j ≢ i → write f i x j ≡ f j
unfolding write
write_ne f i x j h = rw (ne→== j i h) refl

-- Positions that are not deleted keep their mutexes.
pub find-drop :
    (es : List (ℕ × ℕ)) (id id' : ℕ) → id ≢ id' → find_lock (drop_lock es id) id' ≡ find_lock es id'
unfolding find_lock keep
find-drop [] id id' h = refl
find-drop (e ∷ es) id id' h = elim (Bool-cases (e.0 == id)) [
  | inl y ↦
      let other = ne→== e.0 id' (λ q. h (sym (==→eq e.0 id y) ∙ q)) in
      rw (y, other) (find-drop es id id' h)
  | inr n ↦ rw n (ap (λ o. if e.0 == id' then some e.1 else o) (find-drop es id id' h))
]

pub find-cleanup :
    (es : List (ℕ × ℕ)) (ids : List ℕ) (id : ℕ)
    → any (λ x. x == id) ids ≡ false
    → find_lock (cleanup es ids).0 id ≡ find_lock es id
unfolding cleanup any
find-cleanup es [] id h = refl
find-cleanup es (x ∷ ids) id h =
    let ne : (x == id) ≡ false = ground arith in
    let rest : any (λ y. y == id) ids ≡ false = ground arith in
    elim (Option-cases (find_lock es x)) [
      | inl missing ↦ rw missing (find-cleanup es ids id rest)
      | inr (m, at) ↦
          rw at (find-cleanup (drop_lock es x) ids id rest ∙ find-drop es x id (==→ne x id ne))
    ]

pub cleanup-All :
    (made : ℕ) (es : List (ℕ × ℕ)) (ids : List ℕ)
    → All (λ e. e.1 < made) es
    → All (λ e. e.1 < made) (cleanup es ids).0
unfolding cleanup
cleanup-All made es [] h = h
cleanup-All made es (x ∷ ids) h = elim (Option-cases (find_lock es x)) [
  | inl missing ↦ rw missing (cleanup-All made es ids h)
  | inr (m, at) ↦ rw at (
      cleanup-All made (drop_lock es x) ids (All-keep (λ e. e.1 < made) (λ e. not (e.0 == x)) es h))
]

pub find-All :
    (made : ℕ) (es : List (ℕ × ℕ)) (id m : ℕ)
    → All (λ e. e.1 < made) es
    → find_lock es id ≡ some m
    → m < made
unfolding find_lock
find-All made [] id m h at = cc
find-All made (e ∷ es) id m h at = elim (Bool-cases (e.0 == id)) [
  | inl y ↦ let same : e.1 ≡ m = ground arith in omega (arith, h.0, same)
  | inr n ↦ find-All made es id m h.1 (ground arith)
]

pub more-All :
    (made : ℕ) (es : List (ℕ × ℕ)) → All (λ e. e.1 < made) es → All (λ e. e.1 < made + 1) es
more-All made [] h = tt
more-All made (e ∷ es) h = (omega (arith, h.0), more-All made es h.1)

-- A property of the places, after a write.
pub write_lem :
    {A : Type 0} (P : ℕ → A → Type 0) (f : ℕ → A) (i : ℕ) (x : A)
    → P i x
    → ((j : ℕ) → j ≢ i → P j (f j))
    → (j : ℕ) → P j (write f i x j)
unfolding write
write_lem P f i x here there j = elim (Bool-cases (j == i)) [
  | inl y ↦ rw y (subst (λ k. P k x) (sym (==→eq j i y)) here)
  | inr n ↦ rw n (there j (==→ne j i n))
]
