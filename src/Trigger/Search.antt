-- ===== src/Trigger/Search.antt =====
-- Go's `sort.Search`, with which pkg/positionmanager/trigger.go finds its cutoffs, and the cutoff
-- seen as the boundary between what a test keeps and what it drops.
use dex_limit_order_manager.Prelude.{
  ℕ, zero, suc, ◌+◌, ◌-◌, ◌/◌, ◌≤◌, ◌<◌, ◌≡◌, refl, ap, Bool, true, false, not, List, [], ◌∷◌,
  arith, ltb, if◌then◌else◌, Bool-cases, length, keep, take, drop, All, inl, inr, keep_self,
  keep-none, All-map, sym,
}

-- `for i < j { h := (i+j)/2; if !f(h) { i = h+1 } else { j = h } }`, on fuel.
search_loop : ℕ → (ℕ → Bool) → ℕ → ℕ → ℕ
search_loop zero f i j = i
search_loop (suc n) f i j =
    let h = (i + j) / 2 in
    let rest = search_loop n f (if f h then i else h + 1) (if f h then h else j) in
    if ltb i j then rest else i

-- `sort.Search(n, f)`. Each round shortens the range, so `n` rounds are enough.
unfoldable pub search_first : ℕ → (ℕ → Bool) → ℕ
unfolding search_loop
search_first n f = search_loop n f 0 n

-- `r` splits the range `[0, n)`: the test fails below it and passes from it on.
pub record Splits (f : ℕ → Bool) (n r : ℕ) : Type 0 where
  pub within : r ≤ n
  pub before : (k : ℕ) → k < r → f k ≡ false
  pub after : (k : ℕ) → r ≤ k → k < n → f k ≡ true

module _ (f : ℕ → Bool) (n : ℕ) (up : (k l : ℕ) → k ≤ l → l < n → f k ≡ true → f l ≡ true) where
  search_loop-Splits :
      (fuel i j : ℕ)
      → i ≤ j
      → j ≤ n
      → j - i ≤ fuel
      → ((k : ℕ) → k < i → f k ≡ false)
      → ((k : ℕ) → j ≤ k → k < n → f k ≡ true)
      → Splits f n (search_loop fuel f i j)
  unfolding search_loop
  search_loop-Splits zero i j ij jn small lo hi = record {
    within = omega arith;
    before = lo;
    after = λ k a b. hi k (omega arith) b;
  }
  search_loop-Splits (suc m) i j ij jn small lo hi = elim (Bool-cases (ltb i j)) [
    | inr e ↦
        rw e (record { within = omega arith; before = lo; after = λ k a b. hi k (ground arith) b })
    | inl e ↦ rw e (elim (Bool-cases (f ((i + j) / 2))) [
      | inl p ↦ rw p (
          search_loop-Splits m i ((i + j) / 2) (ground arith) (ground arith) (ground arith) lo
            (λ k a b. up ((i + j) / 2) k a b p))
      | inr p ↦ rw p (
          search_loop-Splits m ((i + j) / 2 + 1) j (ground arith) jn (ground arith)
            (below p (ground arith)) hi)
    ])
  ]
    where
      below :
          f ((i + j) / 2) ≡ false → (i + j) / 2 < n → (k : ℕ) → k < (i + j) / 2 + 1 → f k ≡ false
      below p h k a = elim (Bool-cases (f k)) [
        | inl t ↦ absurd (cc (up k ((i + j) / 2) (omega arith) h t))
        | inr t ↦ t
      ]

  -- For a test that stays true once it is true, `sort.Search` finds the first index that passes.
  pub search_first-Splits : Splits f n (search_first n f)
  unfolding search_first
  search_first-Splits =
      search_loop-Splits n 0 n (omega arith) (omega arith) (omega arith)
        (λ k h. absurd (omega arith)) (λ k a b. absurd (omega arith))

-- The test at the entry `i` of a slice. The loop reads inside the slice only.
abbrev pub holds_at {ℓ} : {A : Type ℓ} → (A → Bool) → List A → ℕ → Bool
holds_at q [] i = false
holds_at q (x ∷ xs) zero = q x
holds_at q (x ∷ xs) (suc i) = holds_at q xs i

-- Once an entry passes the test, all later ones do.
abbrev pub Rises {ℓ} : {A : Type ℓ} → (A → Bool) → List A → Type 0
Rises q [] = Unit
Rises q (x ∷ xs) = (q x ≡ true → All (λ y. q y ≡ true) xs) × Rises q xs

module _ {ℓ} {A : Type ℓ} (q : A → Bool) where
  holds_at-All :
      (xs : List A) (i : ℕ) → All (λ y. q y ≡ true) xs → i < length xs → holds_at q xs i ≡ true
  holds_at-All [] i h lt = elim lt [ ]
  holds_at-All (x ∷ xs) zero h lt = h.0
  holds_at-All (x ∷ xs) (suc i) h lt = holds_at-All xs i h.1 (omega arith)

  All-holds_at :
      (xs : List A) → ((i : ℕ) → i < length xs → holds_at q xs i ≡ true) → All (λ y. q y ≡ true) xs
  All-holds_at [] h = tt
  All-holds_at (x ∷ xs) h = (h 0 (omega arith), All-holds_at xs (λ i lt. h (suc i) (omega arith)))

  holds_at-up :
      (xs : List A)
      → Rises q xs
      → (k l : ℕ) → k ≤ l
      → l < length xs
      → holds_at q xs k ≡ true
      → holds_at q xs l ≡ true
  holds_at-up [] r k l kl lt h = elim lt [ ]
  holds_at-up (x ∷ xs) r zero zero kl lt h = h
  holds_at-up (x ∷ xs) r zero (suc l) kl lt h = holds_at-All xs l (r.0 h) (omega arith)
  holds_at-up (x ∷ xs) r (suc k) zero kl lt h = absurd (omega arith)
  holds_at-up (x ∷ xs) r (suc k) (suc l) kl lt h =
      holds_at-up xs r.1 k l (omega arith) (omega arith) h

  -- At a split the slice falls apart into what fails the test and what passes it.
  pub Splits-keep :
      (xs : List A) (r : ℕ)
      → Splits (holds_at q xs) (length xs) r
      → (take r xs ≡ keep (λ x. not (q x)) xs) × (drop r xs ≡ keep q xs)
  unfolding keep
  Splits-keep [] zero s = (refl, refl)
  Splits-keep [] (suc r) s = absurd (omega (arith, s.within))
  Splits-keep (x ∷ xs) zero s =
      let all : All (λ y. q y ≡ true) (x ∷ xs) =
        All-holds_at (x ∷ xs) (λ i lt. s.after i (omega arith) lt) in
      (
        sym (keep-none _ (x ∷ xs) (All-map _ _ (x ∷ xs) (λ y e. ap not e) all)),
        sym (keep_self q (x ∷ xs) all),
      )
  Splits-keep (x ∷ xs) (suc r) s =
      let ih = Splits-keep xs r (record {
        within = omega (arith, s.within);
        before = λ k h. s.before (suc k) (omega arith);
        after = λ k a b. s.after (suc k) (omega arith) (omega arith);
      }) in
      rw (s.before 0 (omega arith)) (ap (◌∷◌ x) ih.0, ih.1)

  -- The cutoff that the binary search finds in a slice.
  unfoldable pub cutoff : List A → ℕ
  unfolding search_first
  cutoff xs = search_first (length xs) (holds_at q xs)

  -- On a slice along which the test rises, the binary search cuts off exactly what fails it.
  pub cutoff-keep :
      (xs : List A)
      → Rises q xs
      → (take (cutoff xs) xs ≡ keep (λ x. not (q x)) xs) × (drop (cutoff xs) xs ≡ keep q xs)
  unfolding cutoff
  cutoff-keep xs r =
      Splits-keep xs _ (search_first-Splits (holds_at q xs) (length xs) (holds_at-up xs r))
