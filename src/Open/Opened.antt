-- ===== src/Open/Opened.antt =====
-- What `OpenPosition` of pkg/positionmanager/manager.go leaves in the engine and the store.
use dex_limit_order_manager.Prelude.{
  ℕ, ◌+◌, ◌≡◌, ◌⊎◌, refl, sym, subst, Bool, Option, none, some, List, [], ◌∷◌, inl, inr,
}
use dex_limit_order_manager.Prelude.Int.{ℤ}
use dex_limit_order_manager.Types.{Position, PositionState, Level, TokenPair, pair_of}
use dex_limit_order_manager.Errors.{
  Error, Result, ok, err, from_option, succeeded, given_option, Result-cases,
}
use dex_limit_order_manager.Permit.{Crypto}
use dex_limit_order_manager.Store.{Store, IsStore}
use dex_limit_order_manager.Chain.{ChainClient, Geth, ExecutorConfig}
use dex_limit_order_manager.Executor.{Executor}
use dex_limit_order_manager.Trigger.Book.{Order}
use dex_limit_order_manager.Manager.{Core, LevelParams, new_level}
use dex_limit_order_manager.Manager.Slots.{held}
use dex_limit_order_manager.Manager.Synced.{Synced}
use dex_limit_order_manager.Manager.Registered.{IsIndexed, register-Synced}
use dex_limit_order_manager.Open.{
  built, OpenParams, ChainInstance, build_levels, new_position, registered, save_and_register,
  relay, relayed, validated, validate_open, open_position,
}

build_levels-IsIndexed :
    (k : ℕ) (lps : List LevelParams) (ls : List Level) → build_levels k lps ≡ ok ls → IsIndexed k ls
unfolding build_levels IsIndexed
build_levels-IsIndexed k [] ls h = let same : [] ≡ ls = cc in subst (IsIndexed k) same tt
build_levels-IsIndexed k (lp ∷ lps) ls h =
    let (price, given, h') = succeeded (from_option lp.trigger_price _) _ h in
    let (rest, built_, h'') = succeeded (build_levels (k + 1) lps) _ h' in
    let same : new_level k lp price ∷ rest ≡ ls = cc in
    subst (IsIndexed k) same (refl, build_levels-IsIndexed (k + 1) lps rest built_)

IsNew : ℕ → OpenParams → Position → Type 0
IsNew id p x =
    (x.id ≡ id)
    × (x.state ≡ PositionState.active)
    × (p.size ≡ some x.remaining_size)
    × IsIndexed 0 x.levels

new_position-IsNew :
    (now : ℤ) (id : ℕ) (p : OpenParams) (x : Position)
    → new_position now (ok id) p ≡ ok x
    → IsNew id p x
unfolding new_position IsNew
new_position-IsNew now id p x h =
    let (size, given, h1) = succeeded (from_option p.size _) _ h in
    let (entry, entered, h2) = succeeded (from_option p.entry_price _) _ h1 in
    let (ls, built_, h3) = succeeded (build_levels 0 p.levels) _ h2 in
    let same : built now id p size entry ls ≡ x = cc in
    subst (IsNew id p) same
      (refl, refl, given_option p.size _ given, build_levels-IsIndexed 0 p.levels ls built_)

module _ {S C : Type 0} (db : Store S) (laws : IsStore db) (crypto : Crypto) (net : ChainClient C)
    (geth : Geth) (cfg : ExecutorConfig) (id : ℕ) (p : OpenParams) (c : Core S)
    (fresh : (q : Order → Bool) (pair : TokenPair) (j : ℕ) → held q c.trigger pair id j ≡ 0) where
  -- A failure that has not touched the engine, or a new position in engine and store.
  abbrev IsOutcome : Core S → Result Position → Type 0
  IsOutcome c' r =
      ((failure : Error) × (r ≡ err failure) × (c'.trigger ≡ c.trigger))
      ⊎ ((x : Position) × (r ≡ ok x)
          × (db.get c'.store id ≡ ok x)
          × Synced c'.trigger x
          × (x.state ≡ PositionState.active)
          × (p.size ≡ some x.remaining_size))

  registered-IsOutcome :
      (x : Position) (store : S) (failure : Option Error)
      → IsNew id p x
      → (failure ≡ none → db.get store x.id ≡ ok x)
      → let r = registered db (record c { store = store }) x failure in IsOutcome r.0 r.1
  unfolding registered IsNew
  registered-IsOutcome x store (some e) new_ saved = inl (e, refl, refl)
  registered-IsOutcome x store none new_ saved = inr (
    x,
    refl,
    subst (λ i. db.get store i ≡ ok x) new_.0 (saved refl),
    register-Synced x c.trigger new_.3 (λ q j.
        subst (λ i. held q c.trigger (pair_of x) i j ≡ 0) (sym new_.0) (fresh q (pair_of x) j)),
    new_.1,
    new_.2,
  )

  save-IsOutcome :
      (now : ℤ) → let r = save_and_register db c (new_position now (ok id) p) in IsOutcome r.0 r.1
  unfolding save_and_register
  save-IsOutcome now = elim (Result-cases (new_position now (ok id) p)) [
    | inr (e, failed) ↦ rw failed (inl (e, refl, refl))
    | inl (x, made) ↦
        rw made (
          registered-IsOutcome x _ _ (new_position-IsNew now id p x made) (laws.get-save c.store x))
  ]

  relayed-IsOutcome :
      (now : ℤ) (r : Result (Unit {0}) × Executor C)
      → let o = relayed db crypto net geth cfg now (ok id) p c r in IsOutcome o.0.0 o.1
  unfolding relayed
  relayed-IsOutcome now (err x, e) = inl (x, refl, refl)
  relayed-IsOutcome now (ok done, e) = save-IsOutcome now

  -- With a store that keeps what it saves, and an ID for which the trigger engine holds nothing:
  -- opening a position either returns an error and leaves the trigger engine as it was, or returns a
  -- position that is active and of the size asked for, that the store has under the ID, and of which
  -- the engine holds exactly the triggers of its active levels.
  pub open_position-outcome :
      (ticks : ℕ) (now : ℤ) (chain : Option ChainInstance) (e : Executor C)
      → let r = open_position db crypto net geth cfg ticks now (ok id) chain p c e in
        ((failure : Error) × (r.1 ≡ err failure) × (r.0.0.trigger ≡ c.trigger))
        ⊎ ((x : Position) × (r.1 ≡ ok x)
            × (db.get r.0.0.store id ≡ ok x)
            × Synced r.0.0.trigger x
            × (x.state ≡ PositionState.active)
            × (p.size ≡ some x.remaining_size))
  unfolding open_position validated
  open_position-outcome ticks now chain e = elim (Result-cases (validate_open crypto now p chain)) [
    | inr (x, refused) ↦ rw refused (inl (x, refl, refl))
    | inl (done, checked) ↦
        rw checked (relayed-IsOutcome now (relay db crypto net geth cfg ticks p e))
  ]
