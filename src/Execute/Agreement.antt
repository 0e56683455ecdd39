-- ===== src/Execute/Agreement.antt =====
-- After `executeTrigger` of pkg/positionmanager/manager.go the trigger engine and the stored position
-- agree again, whether the level was swapped or is to be tried again.
use dex_limit_order_manager.Prelude.{
  ℕ, ◌≡◌, ◌≢◌, refl, sym, subst, ◌∙◌, Bool, true, Option, none, some, Option-cases, inl, inr,
  get_elem?,
}
use dex_limit_order_manager.Prelude.Int.{ℤ}
use dex_limit_order_manager.Types.{TokenPair, Direction, Position, Level, is_active, pair_of}
use dex_limit_order_manager.Errors.{Result, ok}
use dex_limit_order_manager.Fees.{FeeConfig}
use dex_limit_order_manager.Chain.{ChainClient, Geth}
use dex_limit_order_manager.Trigger.{TriggerEvent, TriggerEngine, register}
use dex_limit_order_manager.Store.{Store, IsStore, IsAtomic}
use dex_limit_order_manager.Manager.{Core, persist}
use dex_limit_order_manager.Manager.Registered.{IsIndexed}
use dex_limit_order_manager.Manager.Pointwise.{AgreesAt, HoldsNothing, register-AgreesAt}
use dex_limit_order_manager.Settlement.{Settlement, settle, update_triggers}
use dex_limit_order_manager.Settlement.Triggers.{Follows, settle-Follows}
use dex_limit_order_manager.Retry.{store_update_with_retry, retry_stores}
use dex_limit_order_manager.Execute.{World, Job, Timing, ChainSettings, Outcome}
use dex_limit_order_manager.Execute.Stages.{execute_trigger}
use dex_limit_order_manager.Execute.Walk.{Walk, is_kept, noted, execute-IsGood}

-- The same levels of the same position, to the trigger engine.
record IsLike (p' p : Position) : Type 0 where
  id : p'.id ≡ p.id
  pair : pair_of p' ≡ pair_of p
  direction : p'.direction ≡ p.direction
  levels : p'.levels ≡ p.levels

IsLike-self : (p p' : Position) → p ≡ p' → IsLike p' p
IsLike-self p p' same =
    subst (λ x. IsLike x p) same
      (record { id = refl; pair = refl; direction = refl; levels = refl })

IsLike-AgreesAt :
    (p' p : Position) (e : TriggerEngine) (j : ℕ)
    → IsLike p' p
    → AgreesAt (pair_of p) p.id p.direction e p.levels j
    → AgreesAt (pair_of p') p'.id p'.direction e p'.levels j
IsLike-AgreesAt p' p e j like agrees q =
    rw (like.pair, like.id, like.direction, like.levels) (agrees q)

-- The levels of `p'`, told of a position with the same id, pair and direction.
renamed-AgreesAt :
    (pair : TokenPair) (id : ℕ) (d : Direction) (p' : Position) (e : TriggerEngine) (j : ℕ)
    → p'.id ≡ id
    → pair_of p' ≡ pair
    → p'.direction ≡ d
    → AgreesAt pair id d e p'.levels j
    → AgreesAt (pair_of p') p'.id p'.direction e p'.levels j
renamed-AgreesAt pair id d p' e j same_id same_pair same_direction agrees =
    subst (λ x. AgreesAt x p'.id p'.direction e p'.levels j) (sym same_pair)
      (subst (λ x. AgreesAt pair x p'.direction e p'.levels j) (sym same_id)
        (subst (λ x. AgreesAt pair id x e p'.levels j) (sym same_direction) agrees))

module _ {S : Type 0} (db : Store S) (id j : ℕ) where
  -- What an execution starts from: the store has the job's position, whose fired level is active, the
  -- engine has given up its trigger, and at `j`, if that is another level, they agree.
  record IsReady (c : Core S) (k : Job) : Type 0 where
    stored : (p' : Position) → db.get c.store id ≡ ok p' → IsLike p' k.position
    same_id : k.position.id ≡ id
    at : get_elem? k.position.levels k.event.level_index ≡ some k.level
    live : is_active k.level.status ≡ true
    indexed : IsIndexed 0 k.position.levels
    taken :
        HoldsNothing
          (pair_of k.position)
          k.position.id
          k.position.direction
          c.trigger
          k.event.level_index
    other :
        k.event.level_index ≢ j
        → AgreesAt
            (pair_of k.position)
            k.position.id
            k.position.direction
            c.trigger
            k.position.levels
            j

  -- Engine and store agree at `j`.
  abbrev IsFine : Core S → Type 0
  IsFine c =
      (p' : Position)
      → db.get c.store id ≡ ok p'
      → AgreesAt (pair_of p') p'.id p'.direction c.trigger p'.levels j

  module _ (laws : IsStore db) (atomic : IsAtomic db) (t : Timing) where
    done-IsFine :
        (c : Core S) (k : Job) (tx : ℕ) (price amount now : ℤ) (s : Settlement)
        → IsReady c k
        → settle k.position k.event.level_index k.level tx price amount now ≡ ok s
        → (store_update_with_retry db s.position t.stopped 0 3 c.store).1 ≡ none
        → IsFine (record {
          trigger = update_triggers c.trigger s;
          store = (store_update_with_retry db s.position t.stopped 0 3 c.store).0;
        })
    done-IsFine c k tx price amount now s ready made worked p' found =
        let store = (store_update_with_retry db s.position t.stopped 0 3 c.store).0 in
        let follows : Follows k.position c.trigger j s =
          settle-Follows k.position k.event.level_index k.level tx price amount now s c.trigger j
            ready.at ready.indexed ready.taken ready.other made in
        let there : db.get store id ≡ ok s.position =
          subst (λ i. db.get store i ≡ ok s.position) (follows.1 ∙ ready.same_id)
            (retry_stores db s.position laws t.stopped 0 3 c.store worked) in
        let same : s.position ≡ p' = cc in
        subst
          (λ (x : Position).
            AgreesAt (pair_of x) x.id x.direction (update_triggers c.trigger s) x.levels j)
          same
          (renamed-AgreesAt (pair_of k.position) k.position.id k.position.direction s.position
            (update_triggers c.trigger s) j follows.1 follows.2 follows.3 follows.0)

    again-IsFine :
        (c : Core S) (k : Job)
        → IsReady c k
        → IsFine (record c {
          trigger =
              register c.trigger
                (pair_of k.position)
                k.position.id
                k.event.level_index
                k.level.level_type
                k.position.direction
                k.level.trigger_price;
        })
    again-IsFine c k ready p' found = IsLike-AgreesAt p' k.position _ j (ready.stored p' found) (
        register-AgreesAt (pair_of k.position) k.position.id k.position.direction c.trigger
          k.position.levels k.event.level_index k.level j ready.at ready.live ready.taken
          ready.other)

    activated-IsReady :
        (c : Core S) (k : Job)
        → IsReady c k
        → let p = noted t k.position in IsReady (persist db c p).0 (record k { position = p })
    unfolding persist
    activated-IsReady c k ready = record {
      stored = stored;
      same_id = ready.same_id;
      at = ready.at;
      live = ready.live;
      indexed = ready.indexed;
      taken = ready.taken;
      other = ready.other;
    }
      where
        p : Position
        p = noted t k.position

        here :
            {x : Result Position}
            → db.get (db.update c.store p).0 p.id ≡ x
            → db.get (db.update c.store p).0 id ≡ x
        here {x} h = subst (λ i. db.get (db.update c.store p).0 i ≡ x) ready.same_id h

        written :
            (p' : Position)
            → db.get (db.update c.store p).0 id ≡ ok p'
            → db.get (db.update c.store p).0 p.id ≡ ok p
            → IsLike p' p
        written p' found there = let there' = here there in IsLike-self p p' (cc)

        same_as_before :
            (p' : Position)
            → db.get (db.update c.store p).0 p.id ≡ db.get c.store p.id
            → db.get (db.update c.store p).0 id ≡ ok p'
            → IsLike p' p
        same_as_before p' as_before found =
            let found' =
              subst (λ i. db.get (db.update c.store p).0 i ≡ ok p') (sym ready.same_id) found in
            let before =
              subst (λ i. db.get c.store i ≡ ok p') ready.same_id (sym as_before ∙ found') in
            let like = ready.stored p' before in
            record {
              id = like.id;
              pair = like.pair;
              direction = like.direction;
              levels = like.levels;
            }

        stored : (p' : Position) → db.get (db.update c.store p).0 id ≡ ok p' → IsLike p' p
        stored p' found = elim (Option-cases (db.update c.store p).1) [
          | inl worked ↦ written p' found (laws.get-update c.store p worked)
          | inr (x, broke) ↦ elim (atomic.get-failed c.store p x broke) [
            | inr there ↦ written p' found there
            | inl as_before ↦ same_as_before p' as_before found
          ]
        ]

    agreement-Walk : Walk db t IsReady IsFine is_kept
    agreement-Walk = record {
      dull = λ o h. h;
      again = λ c k x ready kept. again-IsFine c k ready;
      done = done-IsFine;
      noting = activated-IsReady;
    }

module _ {S C : Type 0} (db : Store S) (laws : IsStore db) (atomic : IsAtomic db)
    (net : ChainClient C) (geth : Geth) (chains : ℕ → Option ChainSettings)
    (fees : ℕ → Result (Option FeeConfig)) (says : ℕ → Bool) (t : Timing) (j : ℕ) where
  -- An execution of a trigger that the engine has given up, with the engine and the stored position in
  -- agreement at every other index: if the level is swapped and recorded, or an error is reported that
  -- can be retried, then at each index `j` the engine holds exactly what the position stored then asks
  -- for. The store obeys its laws, and an update that fails writes nothing or the whole position.
  pub execute-agrees :
      (w w' : World S C) (evt : TriggerEvent) (p p' : Position) (l : Level) (outcome : Outcome)
      → db.get w.core.store evt.position_id ≡ ok p
      → get_elem? p.levels evt.level_index ≡ some l
      → IsIndexed 0 p.levels
      → HoldsNothing (pair_of p) p.id p.direction w.core.trigger evt.level_index
      → (evt.level_index ≢ j → AgreesAt (pair_of p) p.id p.direction w.core.trigger p.levels j)
      → execute_trigger db net geth chains fees says t w evt ≡ (w', outcome)
      → is_kept outcome ≡ true
      → db.get w'.core.store evt.position_id ≡ ok p'
      → AgreesAt (pair_of p') p'.id p'.direction w'.core.trigger p'.levels j
  execute-agrees w w' evt p p' l outcome stored at indexed taken other runs kept found =
      let good =
        execute-IsGood db net geth chains fees says t (IsReady db evt.position_id j)
          (IsFine db evt.position_id j) is_kept (agreement-Walk db evt.position_id j laws atomic t)
          w evt p l stored at
          (λ live s fee. record {
            stored = λ p' found. IsLike-self p p' cc;
            same_id = laws.get-id w.core.store evt.position_id p stored;
            at = at;
            live = live;
            indexed = indexed;
            taken = taken;
            other = other;
          }) in
      subst (λ r. is_kept r.1 ≡ true → IsFine db evt.position_id j r.0.core) runs good kept p' found
