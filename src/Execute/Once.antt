-- ===== src/Execute/Once.antt =====
-- `executeTrigger` of pkg/positionmanager/manager.go reads the position again from the store, so an
-- event that comes twice is executed once.
use dex_limit_order_manager.Prelude.{
  ℕ, ◌≡◌, ◌≢◌, refl, sym, ap, subst, ◌∙◌, Bool, true, false, Option, none, some, [], ◌∷◌,
  Bool-cases, Option-cases, inl, inr, get_elem?,
}
use dex_limit_order_manager.Prelude.Int.{ℤ}
use dex_limit_order_manager.Types.{Position, is_terminal}
use dex_limit_order_manager.Errors.{Result, Result-cases, ok, err}
use dex_limit_order_manager.Fees.{FeeConfig}
use dex_limit_order_manager.Chain.{ChainClient, Geth}
use dex_limit_order_manager.Trigger.{TriggerEvent}
use dex_limit_order_manager.Store.{Store, IsStore}
use dex_limit_order_manager.Manager.{Core}
use dex_limit_order_manager.Settlement.{Settlement, settle, update_triggers}
use dex_limit_order_manager.Settlement.Fired.{IsOver, settle-IsOver}
use dex_limit_order_manager.Retry.{store_update_with_retry, retry_stores}
use dex_limit_order_manager.Execute.{
  World, Job, Timing, ChainSettings, Outcome, ignored, failed, executed, panicked, ExecutionEvent,
  error_event,
}
use dex_limit_order_manager.Execute.Stages.{execute_trigger, run_get, run_level}
use dex_limit_order_manager.Execute.Walk.{Walk, is_kept, execute-IsGood}

abbrev is_executed : Outcome → Bool
is_executed (executed x) = true
is_executed x = false

module _ {S : Type 0} (db : Store S) (laws : IsStore db) (t : Timing) (id i : ℕ) where
  -- The job is of the position `id` and its level `i`.
  record IsOf (c : Core S) (k : Job) : Type 0 where
    same_id : k.position.id ≡ id
    same_index : k.event.level_index ≡ i
    at : get_elem? k.position.levels k.event.level_index ≡ some k.level

  -- The position is stored with the level no longer active.
  abbrev IsSpent : Core S → Type 0
  IsSpent c = (p : Position) × (db.get c.store id ≡ ok p) × IsOver p.levels i

  once-Walk : Walk db t IsOf IsSpent is_executed
  once-Walk = record {
    dull = dull;
    again = λ c k x of_ on. cc;
    done = done;
    noting = λ c k of_. record { same_id = of_.same_id; same_index = of_.same_index; at = of_.at };
  }
    where
      dull : (o : Outcome) → is_kept o ≡ false → is_executed o ≡ false
      dull ignored h = refl
      dull (failed xs) h = refl
      dull (executed x) h = cc
      dull (panicked x) h = refl

      done :
          (c : Core S) (k : Job) (tx : ℕ) (price amount now : ℤ) (s : Settlement)
          → IsOf c k
          → settle k.position k.event.level_index k.level tx price amount now ≡ ok s
          → (store_update_with_retry db s.position t.stopped 0 3 c.store).1 ≡ none
          → IsSpent (record {
            trigger = update_triggers c.trigger s;
            store = (store_update_with_retry db s.position t.stopped 0 3 c.store).0;
          })
      done c k tx price amount now s of_ made worked =
          let (over, same) =
            settle-IsOver k.position k.event.level_index k.level tx price amount now s of_.at
              made in
          let store = (store_update_with_retry db s.position t.stopped 0 3 c.store).0 in
          (
            s.position,
            subst (λ n. db.get store n ≡ ok s.position) (same ∙ of_.same_id)
                (retry_stores db s.position laws t.stopped 0 3 c.store worked),
            subst (IsOver s.position.levels) of_.same_index over,
          )

module _ {S C : Type 0} (db : Store S) (laws : IsStore db) (net : ChainClient C) (geth : Geth)
    (chains : ℕ → Option ChainSettings) (fees : ℕ → Result (Option FeeConfig))
    (says : ℕ → Bool) where
  -- An event for a position that is stored with the level no longer active.
  spent-ignored :
      (t : Timing) (w : World S C) (evt : TriggerEvent)
      → IsSpent db laws t evt.position_id evt.level_index w.core
      → execute_trigger db net geth chains fees says t w evt ≡ (w, ignored)
  unfolding execute_trigger run_get run_level
  spent-ignored t w evt (p, stored, over) = rw stored (elim (Bool-cases (is_terminal p.state)) [
    | inl y ↦ rw y
    | inr n ↦ rw n (elim (Option-cases (get_elem? p.levels evt.level_index)) [
      | inl missing ↦ rw missing
      | inr (l, at) ↦ rw (at, over l at)
    ])
  ])

  not_executed :
      (r : World S C × Outcome) (w' : World S C) (x : ExecutionEvent)
      → is_executed r.1 ≡ false
      → r ≢ (w', executed x)
  not_executed r w' x off same =
      let on = ap (λ (r : World S C × Outcome). is_executed r.1) same in cc

  -- What was executed had its position and its level.
  executed-IsSpent :
      (t : Timing) (w w' : World S C) (evt : TriggerEvent) (x : ExecutionEvent)
      → execute_trigger db net geth chains fees says t w evt ≡ (w', executed x)
      → IsSpent db laws t evt.position_id evt.level_index w'.core
  unfolding execute_trigger run_get run_level
  executed-IsSpent t w w' evt x runs = elim (Result-cases (db.get w.core.store evt.position_id)) [
    | inr (e, broke) ↦
        let ends : run_get db net geth chains fees says t w evt (err e) ≡ (w', executed x) =
          subst (λ r. run_get db net geth chains fees says t w evt r ≡ (w', executed x)) broke
            runs in
        absurd (not_executed (w, failed (error_event evt e false ∷ [])) w' x refl ends)
    | inl (p, stored) ↦ elim (Option-cases (get_elem? p.levels evt.level_index)) [
      | inl missing ↦
          let ends = spent-ignored t w evt (p, stored, λ l at. cc) in
          absurd (not_executed (w, ignored) w' x refl (sym ends ∙ runs))
      | inr (l, at) ↦
          let good =
            execute-IsGood db net geth chains fees says t
              (IsOf db laws t evt.position_id evt.level_index)
              (IsSpent db laws t evt.position_id evt.level_index) is_executed
              (once-Walk db laws t evt.position_id evt.level_index) w evt p l stored at
              (λ live s fee. record {
                same_id = laws.get-id w.core.store evt.position_id p stored;
                same_index = refl;
                at = at;
              }) in
          subst
            (λ r.
              is_executed r.1 ≡ true → IsSpent db laws t evt.position_id evt.level_index r.0.core)
            runs good refl
    ]
  ]

  -- An event that has been executed, and comes again before anything else is done, is ignored and
  -- changes nothing, whatever the clock says then: a level is swapped once. The store obeys its laws.
  pub execute_twice :
      (t t' : Timing) (w w' : World S C) (evt : TriggerEvent) (x : ExecutionEvent)
      → execute_trigger db net geth chains fees says t w evt ≡ (w', executed x)
      → execute_trigger db net geth chains fees says t' w' evt ≡ (w', ignored)
  execute_twice t t' w w' evt x runs = spent-ignored t' w' evt (executed-IsSpent t w w' evt x runs)
