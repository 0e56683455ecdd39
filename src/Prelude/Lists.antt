-- ===== src/Prelude/Lists.antt =====
-- Slices as lists, measured and indexed by native numbers, under the library's names.
use dex_limit_order_manager.Prelude.Tests.{if◌then◌else◌, Bool-cases}
use Prim.Native.Nat.{ℕ, zero, suc, ◌+◌, ◌≤◌, ◌<◌}
use mathlib.Core.Path.{◌≡◌, refl, ap, fun_ext}
use mathlib.Core.Logic.{◌≢◌, inl, inr}
use mathlib.Core.Bool.{Bool, true, false, not, ◌&&◌}
use mathlib.Core.List.{List, [], ◌∷◌, ◌++◌, map}
use mathlib.Core.Option.{Option, none, some}
use native.Mathlib.Omega.{arith}

module _ {ℓ} {A : Type ℓ} where
  abbrev pub length : List A → ℕ
  length [] = 0
  length (x ∷ xs) = suc (length xs)

  abbrev pub get_elem? : List A → ℕ → Option A
  get_elem? [] i = none
  get_elem? (x ∷ xs) zero = some x
  get_elem? (x ∷ xs) (suc i) = get_elem? xs i

  -- A write out of bounds changes nothing.
  abbrev pub set : List A → ℕ → A → List A
  set [] i v = []
  set (x ∷ xs) zero v = v ∷ xs
  set (x ∷ xs) (suc i) v = x ∷ set xs i v

  abbrev pub take : ℕ → List A → List A
  take zero xs = []
  take (suc n) [] = []
  take (suc n) (x ∷ xs) = x ∷ take n xs

  abbrev pub drop : ℕ → List A → List A
  drop zero xs = xs
  drop (suc n) [] = []
  drop (suc n) (x ∷ xs) = drop n xs

  -- The entries that pass a Boolean test, in order.
  unfoldable pub keep : (A → Bool) → List A → List A
  keep q [] = []
  keep q (x ∷ xs) = let rest = keep q xs in if q x then x ∷ rest else rest

  unfoldable pub any : (A → Bool) → List A → Bool
  any q [] = false
  any q (x ∷ xs) = let rest = any q xs in if q x then true else rest

  -- Every entry has the property.
  abbrev pub All {κ} : (A → Type κ) → List A → Type κ
  All P [] = Unit
  All P (x ∷ xs) = P x × All P xs

module _ {ℓ} {A : Type ℓ} where
  pub length-append : (xs ys : List A) → length (xs ++ ys) ≡ length xs + length ys
  length-append [] ys = omega arith
  length-append (x ∷ xs) ys = omega (arith, length-append xs ys)

  pub length-set : (xs : List A) (i : ℕ) (v : A) → length (set xs i v) ≡ length xs
  length-set [] i v = refl
  length-set (x ∷ xs) zero v = refl
  length-set (x ∷ xs) (suc i) v = ap suc (length-set xs i v)

  pub get_elem?-set_self :
      (xs : List A) (i : ℕ) (v : A) → i < length xs → get_elem? (set xs i v) i ≡ some v
  get_elem?-set_self [] i v h = elim h [ ]
  get_elem?-set_self (x ∷ xs) zero v h = refl
  get_elem?-set_self (x ∷ xs) (suc i) v h = get_elem?-set_self xs i v (omega arith)

  pub get_elem?-set_ne :
      (xs : List A) (i j : ℕ) (v : A) → i ≢ j → get_elem? (set xs i v) j ≡ get_elem? xs j
  get_elem?-set_ne [] i j v h = refl
  get_elem?-set_ne (x ∷ xs) zero zero v h = absurd (h refl)
  get_elem?-set_ne (x ∷ xs) zero (suc j) v h = refl
  get_elem?-set_ne (x ∷ xs) (suc i) zero v h = refl
  get_elem?-set_ne (x ∷ xs) (suc i) (suc j) v h = get_elem?-set_ne xs i j v (λ e. h (ap suc e))

  pub take-append-drop : (n : ℕ) (xs : List A) → take n xs ++ drop n xs ≡ xs
  take-append-drop zero xs = refl
  take-append-drop (suc n) [] = refl
  take-append-drop (suc n) (x ∷ xs) = ap (◌∷◌ x) (take-append-drop n xs)

  pub length-map {κ} : {B : Type κ} (xs : List A) (f : A → B) → length (map f xs) ≡ length xs
  length-map [] f = refl
  length-map (x ∷ xs) f = ap suc (length-map xs f)

  pub All-append {κ} : (P : A → Type κ) (xs ys : List A) → All P xs → All P ys → All P (xs ++ ys)
  All-append P [] ys hx hy = hy
  All-append P (x ∷ xs) ys hx hy = (hx.0, All-append P xs ys hx.1 hy)

  pub All-map {κ} : (P Q : A → Type κ) (xs : List A) → ((x : A) → P x → Q x) → All P xs → All Q xs
  All-map P Q [] f h = tt
  All-map P Q (x ∷ xs) f h = (f x h.0, All-map P Q xs f h.1)

  pub keep-append : (q : A → Bool) (xs ys : List A) → keep q (xs ++ ys) ≡ keep q xs ++ keep q ys
  unfolding keep
  keep-append q [] ys = refl
  keep-append q (x ∷ xs) ys = ground (arith, keep-append q xs ys)

  pub length-keep-le : (q : A → Bool) (xs : List A) → length (keep q xs) ≤ length xs
  unfolding keep
  length-keep-le q [] = omega arith
  length-keep-le q (x ∷ xs) = ground (arith, length-keep-le q xs)

  pub All-keep {κ} : (P : A → Type κ) (q : A → Bool) (xs : List A) → All P xs → All P (keep q xs)
  unfolding keep
  All-keep P q [] h = tt
  All-keep P q (x ∷ xs) h = elim (Bool-cases (q x)) [
    | inl e ↦ rw e (h.0, All-keep P q xs h.1)
    | inr e ↦ rw e (All-keep P q xs h.1)
  ]

  -- What is kept passes the test.
  pub keep-All : (q : A → Bool) (xs : List A) → All (λ x. q x ≡ true) (keep q xs)
  unfolding keep
  keep-All q [] = tt
  keep-All q (x ∷ xs) = elim (Bool-cases (q x)) [
    | inl e ↦ rw e (e, keep-All q xs)
    | inr e ↦ rw e (keep-All q xs)
  ]

  pub keep-none : (q : A → Bool) (xs : List A) → All (λ x. q x ≡ false) xs → keep q xs ≡ []
  unfolding keep
  keep-none q [] h = refl
  keep-none q (x ∷ xs) h = rw h.0 (keep-none q xs h.1)

  pub keep_self : (q : A → Bool) (xs : List A) → All (λ x. q x ≡ true) xs → keep q xs ≡ xs
  unfolding keep
  keep_self q [] h = refl
  keep_self q (x ∷ xs) h = rw h.0 (ap (◌∷◌ x) (keep_self q xs h.1))

  pub keep-congr : (q r : A → Bool) (xs : List A) → ((x : A) → q x ≡ r x) → keep q xs ≡ keep r xs
  keep-congr q r xs h = ap (λ t. keep t xs) (fun_ext h)

  -- How many entries pass a test. Two lists with equal tallies hold the same entries, as often.
  unfoldable pub tally : (A → Bool) → List A → ℕ
  tally q [] = 0
  tally q (x ∷ xs) = let rest = tally q xs in if q x then suc rest else rest

  pub tally-append : (q : A → Bool) (xs ys : List A) → tally q (xs ++ ys) ≡ tally q xs + tally q ys
  unfolding tally
  tally-append q [] ys = omega arith
  tally-append q (x ∷ xs) ys = ground (arith, tally-append q xs ys)

  pub tally-cons :
      (q : A → Bool) (x : A) (xs : List A) → tally q (x ∷ xs) ≡ (if q x then 1 else 0) + tally q xs
  unfolding tally
  tally-cons q x xs = ground arith

  pub tally-keep : (q p : A → Bool) (xs : List A) → tally q (keep p xs) ≡ tally (λ x. p x && q x) xs
  unfolding tally keep
  tally-keep q p [] = refl
  tally-keep q p (x ∷ xs) = ground (arith, tally-keep q p xs)

  -- What a test keeps and what it drops make up the whole.
  pub tally-split :
      (q p : A → Bool) (xs : List A)
      → tally q (keep p xs) + tally q (keep (λ x. not (p x)) xs) ≡ tally q xs
  unfolding tally keep
  tally-split q p [] = omega arith
  tally-split q p (x ∷ xs) = ground (arith, tally-split q p xs)

module _ {ℓ} {A : Type ℓ} where
  pub tally-congr : (q r : A → Bool) (xs : List A) → ((x : A) → q x ≡ r x) → tally q xs ≡ tally r xs
  tally-congr q r xs h = ap (λ t. tally t xs) (fun_ext h)

  pub tally-nothing : (xs : List A) → tally (λ x. false) xs ≡ 0
  unfolding tally
  tally-nothing [] = refl
  tally-nothing (x ∷ xs) = tally-nothing xs

module _ {ℓ κ} {A : Type ℓ} {B : Type κ} where
  pub tally-map :
      (q : B → Bool) (f : A → B) (xs : List A) → tally q (map f xs) ≡ tally (λ x. q (f x)) xs
  unfolding tally
  tally-map q f [] = refl
  tally-map q f (x ∷ xs) = ground (arith, tally-map q f xs)

  pub keep-map :
      (q : B → Bool) (f : A → B) (xs : List A) → keep q (map f xs) ≡ map f (keep (λ x. q (f x)) xs)
  unfolding keep
  keep-map q f [] = refl
  keep-map q f (x ∷ xs) = ground (arith, keep-map q f xs)
