-- ===== src/Manager/Operations.antt =====
-- The operations of pkg/positionmanager/manager.go on an open position keep engine and store in
-- step, and what happens where they fail.
use dex_limit_order_manager.Prelude.{
  ℕ, ◌≡◌, refl, subst, Option, none, some, List, ◌==◌, Bool-cases, inl, inr, get_elem?,
}
use dex_limit_order_manager.Prelude.Int.{ℤ, pos, negsuc, is_pos}
use dex_limit_order_manager.Types.{
  Position, PositionState, LevelStatus, Level, is_terminal, is_active,
}
use dex_limit_order_manager.Errors.{Error, ok, Result-cases}
use dex_limit_order_manager.Store.{Store, IsStore}
use dex_limit_order_manager.Manager.{
  Core, LevelParams, persist, on_open, cancel_position, update_level, add_level, remove_level,
  renew_permit, with_permit, reactivate, loaded, move_level, drop_level, append_level,
}
use dex_limit_order_manager.Manager.Synced.{
  Synced, cancel-Synced, update-Synced, add-Synced, remove-Synced, renew-Synced,
}

-- A request of the host, on one position.
pub data Request : Type 0 where
  cancels : Request
  updates : ℤ → Option ℤ → Request
  adds : LevelParams → Request
  removes : ℤ → Request
  renews :
      (owner : ℕ) (signature : List ℕ) (nonce : Option ℤ) (deadline : ℤ) (amount : Option ℤ)
      → Request

module _ {S : Type 0} (db : Store S) where
  unfoldable pub serve : ℤ → Core S → ℕ → Request → Core S × Option Error
  unfolding cancel_position update_level add_level remove_level renew_permit
  serve now c id cancels = cancel_position db now c id
  serve now c id (updates i price) = update_level db now c id i price
  serve now c id (adds lp) = add_level db now c id lp
  serve now c id (removes i) = remove_level db now c id i
  serve now c id (renews owner signature nonce deadline amount) =
      renew_permit db now c id owner signature nonce deadline amount

  -- Engine and store agree on a position, if it is stored.
  abbrev pub Agrees : Core S → ℕ → Type 0
  Agrees c id = (p : Position) → db.get c.store id ≡ ok p → Synced c.trigger p

  module _ (laws : IsStore db) where
    persist-Agrees :
        (c : Core S) (p : Position) (id : ℕ)
        → p.id ≡ id
        → Synced c.trigger p
        → (persist db c p).1 ≡ none
        → Agrees (persist db c p).0 id
    unfolding persist
    persist-Agrees c p id same s saved p' found =
        let back : db.get (db.update c.store p).0 id ≡ ok p =
          subst (λ i. db.get (db.update c.store p).0 i ≡ ok p) same
            (laws.get-update c.store p saved) in
        let stored : p ≡ p' = cc in subst (Synced c.trigger) stored s

    -- An outcome that, without an error, leaves engine and store in agreement.
    abbrev Keeps : ℕ → Core S × Option Error → Type 0
    Keeps id r = r.1 ≡ none → Agrees r.0 id

    loaded-Keeps :
        (c : Core S) (id : ℕ) (k : Position → Core S × Option Error)
        → ((p : Position) → db.get c.store id ≡ ok p → Keeps id (k p))
        → Keeps id (loaded db c (db.get c.store id) k)
    unfolding loaded
    loaded-Keeps c id k step = elim (Result-cases (db.get c.store id)) [
      | inl (p, found) ↦ rw (found, loaded) (step p found)
      | inr (x, missing) ↦ rw (missing, loaded) (λ h. cc)
    ]

    on_open-Keeps :
        (c : Core S) (id : ℕ) (k : Position → Core S × Option Error)
        → ((p : Position) → db.get c.store id ≡ ok p → Keeps id (k p))
        → Keeps id (on_open db c id k)
    unfolding on_open
    on_open-Keeps c id k step = loaded-Keeps c id _ (λ p found.
        elim (Bool-cases (is_terminal p.state)) [
          | inl over ↦ rw over (λ h. cc)
          | inr open_ ↦ rw open_ (step p found)
        ])

    module _ (now : ℤ) (c : Core S) (id : ℕ) (a : Agrees c id) where
      cancel-Keeps : Keeps id (cancel_position db now c id)
      unfolding cancel_position
      cancel-Keeps = on_open-Keeps c id _ (λ p found.
          persist-Agrees _ _ id (laws.get-id c.store id p found)
            (cancel-Synced c.trigger p (a p found) PositionState.cancelled now))

      move-Keeps :
          (p : Position) (i : ℕ) (price : ℤ) (o : Option Level)
          → db.get c.store id ≡ ok p
          → get_elem? p.levels i ≡ o
          → Keeps id (move_level db now c p i price o)
      unfolding move_level
      move-Keeps p i price none found at = λ h. cc
      move-Keeps p i price (some l) found at = elim (Bool-cases (is_active l.status)) [
        | inl live ↦ rw live (
            persist-Agrees _ _ id (laws.get-id c.store id p found)
              (update-Synced c.trigger p (a p found) i l at price now live))
        | inr dead ↦ rw dead (λ h. cc)
      ]

      drop-Keeps :
          (p : Position) (i : ℕ) (o : Option Level)
          → db.get c.store id ≡ ok p
          → get_elem? p.levels i ≡ o
          → Keeps id (drop_level db now c p i o)
      unfolding drop_level
      drop-Keeps p i none found at = λ h. cc
      drop-Keeps p i (some l) found at =
          persist-Agrees _ _ id (laws.get-id c.store id p found)
            (remove-Synced c.trigger p (a p found) i l at LevelStatus.cancelled now refl)

      update-Keeps : (i : ℤ) (price : Option ℤ) → Keeps id (update_level db now c id i price)
      unfolding update_level
      update-Keeps i none = λ h. cc
      update-Keeps (pos i) (some price) = elim (Bool-cases (is_pos price)) [
        | inl y ↦ rw y (on_open-Keeps c id _ (λ p found. move-Keeps p i price _ found refl))
        | inr n ↦ rw n (λ h. cc)
      ]
      update-Keeps (negsuc i) (some price) = elim (Bool-cases (is_pos price)) [
        | inl y ↦ rw y (on_open-Keeps c id _ (λ p found. unfold move_level in λ h. cc))
        | inr n ↦ rw n (λ h. cc)
      ]

      remove-Keeps : (i : ℤ) → Keeps id (remove_level db now c id i)
      unfolding remove_level
      remove-Keeps (pos i) = on_open-Keeps c id _ (λ p found. drop-Keeps p i _ found refl)
      remove-Keeps (negsuc i) = on_open-Keeps c id _ (λ p found. unfold drop_level in λ h. cc)

      append-Keeps :
          (p : Position) (lp : LevelParams) (o : Option ℤ)
          → db.get c.store id ≡ ok p
          → Keeps id (append_level db now c p lp o)
      unfolding append_level
      append-Keeps p lp none found = λ h. cc
      append-Keeps p lp (some price) found =
          persist-Agrees _ _ id (laws.get-id c.store id p found)
            (add-Synced c.trigger p (a p found) lp price now)

      renew-Keeps :
          (owner : ℕ) (signature : List ℕ) (nonce : Option ℤ) (deadline : ℤ) (amount : Option ℤ)
          → Keeps id (renew_permit db now c id owner signature nonce deadline amount)
      unfolding renew_permit
      renew-Keeps owner signature nonce deadline amount = loaded-Keeps c id _ (λ p found.
          elim (Bool-cases (p.owner == owner)) [
            | inr n ↦ rw n (λ h. cc)
            | inl y ↦ rw y (elim (Bool-cases (is_terminal p.state)) [
              | inl over ↦ rw over (λ h. cc)
              | inr open_ ↦ rw open_ (
                  persist-Agrees _ _ id (laws.get-id c.store id p found) (
                    renew-Synced c.trigger p (a p found)
                      (with_permit p signature nonce deadline amount now
                        (reactivate p 0 c.trigger p.levels).1)
                      refl refl refl refl))
            ])
          ])

    serve-Keeps :
        (now : ℤ) (c : Core S) (id : ℕ) (r : Request) → Agrees c id → Keeps id (serve now c id r)
    unfolding serve add_level
    serve-Keeps now c id cancels a = cancel-Keeps now c id a
    serve-Keeps now c id (updates i price) a = update-Keeps now c id a i price
    serve-Keeps now c id (adds lp) a =
        on_open-Keeps c id _ (λ p found. append-Keeps now c id a p lp lp.trigger_price found)
    serve-Keeps now c id (removes i) a = remove-Keeps now c id a i
    serve-Keeps now c id (renews owner signature nonce deadline amount) a =
        renew-Keeps now c id a owner signature nonce deadline amount

    -- With a store that keeps what it is given: where the trigger engine holds exactly the triggers
    -- of the stored position's active levels, and a request (to cancel the position, move, add or
    -- remove a level, or renew the permit) returns no error, the engine again holds exactly the
    -- triggers of the active levels of the position that is stored afterwards.
    pub serve-Agrees :
        (now : ℤ) (c : Core S) (id : ℕ) (r : Request) (p p' : Position)
        → db.get c.store id ≡ ok p
        → Synced c.trigger p
        → (serve now c id r).1 ≡ none
        → db.get (serve now c id r).0.store id ≡ ok p'
        → Synced (serve now c id r).0.trigger p'
    serve-Agrees now c id r p p' before s served after =
        serve-Keeps now c id r (λ x found. let same : p ≡ x = cc in subst (Synced c.trigger) same s)
          served p' after
