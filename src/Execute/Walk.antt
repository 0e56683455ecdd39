-- ===== src/Execute/Walk.antt =====
-- A way through `executeTrigger` of pkg/positionmanager/manager.go: what holds after each of its ends,
-- shown once for all its branches.
use dex_limit_order_manager.Prelude.{
  ℕ, ◌≡◌, refl, Bool, true, false, Option, none, some, [], ◌∷◌, if◌then◌else◌, inl, inr, get_elem?,
}
use dex_limit_order_manager.Prelude.Int.{ℤ}
use dex_limit_order_manager.Types.{Position, Level, is_terminal, is_active, pair_of}
use dex_limit_order_manager.Errors.{
  Error, circuit_open, nil_pointer, no_executor, permit_expired, Result, ok, err, Result-cases,
}
use dex_limit_order_manager.Fees.{FeeConfig}
use dex_limit_order_manager.CircuitBreaker.{
  CircuitBreaker, Verdict, allowed, err_circuit_open, allow, record_success, record_failure,
}
use dex_limit_order_manager.Chain.{
  ExecutionMode, permit2_allowance, legacy, Receipt, ChainClient, Geth,
}
use dex_limit_order_manager.Executor.{Executor, execute_swap, activate_permit}
use dex_limit_order_manager.Trigger.{TriggerEvent, register}
use dex_limit_order_manager.Store.{Store}
use dex_limit_order_manager.Manager.{Core, persist, suspend_position_levels}
use dex_limit_order_manager.Open.{is_empty}
use dex_limit_order_manager.Settlement.{Settlement, compute_amount, settle, update_triggers}
use dex_limit_order_manager.Retry.{store_update_with_retry}
use dex_limit_order_manager.Execute.{
  World, Job, Timing, ChainSettings, Outcome, ignored, failed, executed, panicked, position_event,
  error_event, swap_params, activation_params, has_expired,
}
use dex_limit_order_manager.Execute.Stages.{
  put_core, put_exec, exec_of, resynced, retry, recorded, settled, swapped, run_swap, activated,
  run_activation, run_permit, run_suspension, store_errors, run_breaker, run_fee, run_chain,
  run_level, run_get, execute_trigger,
}

-- The level has been swapped and recorded, or the host is told that it will be tried again.
abbrev pub is_kept : Outcome → Bool
is_kept ignored = false
is_kept (failed []) = false
is_kept (failed (x ∷ xs)) = x.retryable
is_kept (executed x) = true
is_kept (panicked x) = false

-- The position of a job whose permit has been activated.
abbrev pub noted : Timing → Position → Position
noted t p = record p { permit_activated = true; updated_at = t.activated_at }

-- From a job that is `Ready`, each end whose outcome is `wanted` leaves a core that is `Fine`.
pub record Walk {S : Type 0} (db : Store S) (t : Timing) (Ready : Core S → Job → Type 0)
    (Fine : Core S → Type 0) (wanted : Outcome → Bool) : Type 0 where
  pub dull : (o : Outcome) → is_kept o ≡ false → wanted o ≡ false
  pub again :
      (c : Core S) (k : Job) (x : Error)
      → Ready c k
      → wanted (failed (error_event k.event x true ∷ [])) ≡ true
      → Fine (record c {
        trigger =
            register c.trigger
              (pair_of k.position)
              k.position.id
              k.event.level_index
              k.level.level_type
              k.position.direction
              k.level.trigger_price;
      })
  pub done :
      (c : Core S) (k : Job) (tx : ℕ) (price amount now : ℤ) (s : Settlement)
      → Ready c k
      → settle k.position k.event.level_index k.level tx price amount now ≡ ok s
      → (store_update_with_retry db s.position t.stopped 0 3 c.store).1 ≡ none
      → Fine (record {
        trigger = update_triggers c.trigger s;
        store = (store_update_with_retry db s.position t.stopped 0 3 c.store).0;
      })
  pub noting :
      (c : Core S) (k : Job)
      → Ready c k
      → Ready (persist db c (noted t k.position)).0 (record k { position = noted t k.position })

module _ {S C : Type 0} (db : Store S) (net : ChainClient C) (geth : Geth)
    (chains : ℕ → Option ChainSettings) (fees : ℕ → Result (Option FeeConfig)) (says : ℕ → Bool)
    (t : Timing) (Ready : Core S → Job → Type 0) (Fine : Core S → Type 0) (wanted : Outcome → Bool)
    (walk : Walk db t Ready Fine wanted) where
  abbrev pub IsGood : World S C × Outcome → Type 0
  IsGood r = wanted r.1 ≡ true → Fine r.0.core

  dull-IsGood : (w : World S C) (o : Outcome) → is_kept o ≡ false → IsGood (w, o)
  dull-IsGood w o off on = let no_ = walk.dull o off in cc

  retry-IsGood : (w : World S C) (k : Job) (x : Error) → Ready w.core k → IsGood (retry w k x)
  unfolding retry
  retry-IsGood w k x ready = walk.again w.core k x ready

  recorded-IsGood :
      (w : World S C) (k : Job) (tx : ℕ) (receipt : Receipt) (s : Settlement) (r : S × Option Error)
      → (r.1 ≡ none → Fine (record { trigger = update_triggers w.core.trigger s; store = r.0 }))
      → IsGood (recorded db net geth chains fees says t w k tx receipt s r)
  unfolding recorded
  recorded-IsGood w k tx receipt s (store, some x) fine =
      dull-IsGood (put_core w (record w.core { store = store }))
        (failed (position_event k.position.id k.position.chain_id x ∷ [])) refl
  recorded-IsGood w k tx receipt s (store, none) fine = λ on. fine refl

  settled-IsGood :
      (w : World S C) (k : Job) (tx : ℕ) (receipt : Receipt) (price amount now : ℤ)
      → Ready w.core k
      → IsGood (
          settled db net geth chains fees says t w k tx receipt
            (settle k.position k.event.level_index k.level tx price amount now))
  unfolding settled
  settled-IsGood w k tx receipt price amount now ready =
      elim (Result-cases (settle k.position k.event.level_index k.level tx price amount now)) [
        | inr (x, panic) ↦ rw panic (dull-IsGood w (panicked x) refl)
        | inl (s, made) ↦ rw made (
            recorded-IsGood w k tx receipt s
              (store_update_with_retry db s.position t.stopped 0 3 w.core.store)
              (walk.done w.core k tx price amount now s ready made))
      ]

  swapped-IsGood :
      (w : World S C) (k : Job) (r : Result (ℕ × Receipt) × Executor C)
      → Ready w.core k
      → IsGood (swapped db net geth chains fees says t w k r)
  unfolding swapped
  swapped-IsGood w k (err x, e) ready =
      let e' = record e { circuit_breaker = record_failure e.circuit_breaker t.failed_at } in
      let w' = put_exec w k.position.chain_id (resynced db net geth chains fees says t k x e') in
      retry-IsGood w' k x ready
  swapped-IsGood w k (ok (tx, receipt), e) ready =
      let e' = record e { circuit_breaker = record_success e.circuit_breaker } in
      settled-IsGood (put_exec w k.position.chain_id e') k tx receipt k.event.price
        (compute_amount k.position k.level) t.settled_at ready

  run_swap-IsGood :
      (w : World S C) (k : Job) (mode : ExecutionMode)
      → Ready w.core k
      → IsGood (run_swap db net geth chains fees says t w k mode)
  unfolding run_swap
  run_swap-IsGood w k mode ready =
      swapped-IsGood w k
        (execute_swap net geth k.settings.executor t.swap_ticks (swap_params k mode) (exec_of w k))
        ready

  activated-IsGood :
      (w : World S C) (k : Job) (r : Result (ℕ × Receipt) × Executor C)
      → Ready w.core k
      → IsGood (activated db net geth chains fees says t w k r)
  unfolding activated
  activated-IsGood w k (err x, e) ready = retry-IsGood (put_exec w k.position.chain_id e) k x ready
  activated-IsGood w k (ok done, e) ready =
      let p = noted t k.position in
      run_swap-IsGood (put_core (put_exec w k.position.chain_id e) (persist db w.core p).0)
        (record k { position = p }) permit2_allowance (walk.noting w.core k ready)

  run_activation-IsGood :
      (w : World S C) (k : Job) (nonce : Option ℤ)
      → Ready w.core k
      → IsGood (run_activation db net geth chains fees says t w k nonce)
  unfolding run_activation
  run_activation-IsGood w k none ready = dull-IsGood w (panicked nil_pointer) refl
  run_activation-IsGood w k (some nonce) ready =
      activated-IsGood w k
        (activate_permit net geth k.settings.executor t.activation_ticks (activation_params k)
          (exec_of w k))
        ready

  not_kept :
      (k : Job) (failure : Option Error)
      → is_kept (failed (store_errors k failure (error_event k.event permit_expired false ∷ [])))
        ≡ false
  not_kept k none = refl
  not_kept k (some x) = refl

  run_suspension-IsGood :
      (w : World S C) (k : Job) → IsGood (run_suspension db net geth chains fees says t w k)
  unfolding run_suspension
  run_suspension-IsGood w k =
      let (trigger, p) = suspend_position_levels t.suspended_at k.position w.core.trigger in
      let (c, failure) = persist db (record w.core { trigger = trigger }) p in
      dull-IsGood (put_core w c)
        (failed (store_errors k failure (error_event k.event permit_expired false ∷ [])))
        (not_kept k failure)

  if-IsGood :
      (b : Bool) (x y : World S C × Outcome)
      → (b ≡ true → IsGood x)
      → (b ≡ false → IsGood y)
      → IsGood (if b then x else y)
  if-IsGood true x y hx hy = hx refl
  if-IsGood false x y hx hy = hy refl

  run_permit-IsGood :
      (w : World S C) (k : Job)
      → Ready w.core k
      → IsGood (run_permit db net geth chains fees says t w k)
  unfolding run_permit
  run_permit-IsGood w k ready =
      let swap = run_swap-IsGood w k in
      if-IsGood (is_empty k.position.permit_signature) _ _ (λ y. swap legacy ready)
        (λ n.
          if-IsGood (has_expired k.position t.checked_at) _ _ (λ y. run_suspension-IsGood w k)
            (λ n'.
              if-IsGood k.position.permit_activated _ _ (λ y. swap permit2_allowance ready)
                (λ n''. run_activation-IsGood w k k.position.permit_nonce ready)))

  run_breaker-IsGood :
      (w : World S C) (k : Job) (v : CircuitBreaker × Verdict)
      → Ready w.core k
      → IsGood (run_breaker db net geth chains fees says t w k v)
  unfolding run_breaker
  run_breaker-IsGood w k (cb, err_circuit_open) ready =
      retry-IsGood (put_exec w k.position.chain_id (record (exec_of w k) { circuit_breaker = cb }))
        k circuit_open ready
  run_breaker-IsGood w k (cb, allowed) ready =
      run_permit-IsGood
        (put_exec w k.position.chain_id (record (exec_of w k) { circuit_breaker = cb })) k ready

  run_chain-IsGood :
      (w : World S C) (evt : TriggerEvent) (p : Position) (l : Level) (o : Option ChainSettings)
      → ((s : ChainSettings) (fee : Option FeeConfig)
          → Ready w.core (record { position = p; level = l; event = evt; settings = s; fee = fee }))
      → IsGood (run_chain db net geth chains fees says t w evt p l o)
  unfolding run_chain run_fee
  run_chain-IsGood w evt p l none ready =
      dull-IsGood w (failed (position_event evt.position_id evt.chain_id no_executor ∷ [])) refl
  run_chain-IsGood w evt p l (some s) ready = elim (Result-cases (fees p.owner)) [
    | inr (x, broke) ↦ rw broke (dull-IsGood w (failed (error_event evt x false ∷ [])) refl)
    | inl (fee, known) ↦ rw known (
        run_breaker-IsGood w
          (record { position = p; level = l; event = evt; settings = s; fee = fee })
          (allow (w.execs p.chain_id).circuit_breaker t.asked_at) (ready s fee))
  ]

  run_level-IsGood :
      (w : World S C) (evt : TriggerEvent) (p : Position) (l : Level) (o : Option Level)
      → o ≡ some l
      → (is_active l.status ≡ true
          → (s : ChainSettings) (fee : Option FeeConfig)
          → Ready w.core (record { position = p; level = l; event = evt; settings = s; fee = fee }))
      → IsGood (run_level db net geth chains fees says t w evt p o)
  unfolding run_level
  run_level-IsGood w evt p l o at ready = rw at (
      if-IsGood (is_active l.status) _ _
        (λ live. run_chain-IsGood w evt p l (chains p.chain_id) (ready live))
        (λ off. dull-IsGood w ignored refl))

  pub execute-IsGood :
      (w : World S C) (evt : TriggerEvent) (p : Position) (l : Level)
      → db.get w.core.store evt.position_id ≡ ok p
      → get_elem? p.levels evt.level_index ≡ some l
      → (is_active l.status ≡ true
          → (s : ChainSettings) (fee : Option FeeConfig)
          → Ready w.core (record { position = p; level = l; event = evt; settings = s; fee = fee }))
      → IsGood (execute_trigger db net geth chains fees says t w evt)
  unfolding execute_trigger run_get
  execute-IsGood w evt p l stored at ready = rw stored (
      if-IsGood (is_terminal p.state) _ _ (λ over. dull-IsGood w ignored refl)
        (λ open_. run_level-IsGood w evt p l (get_elem? p.levels evt.level_index) at ready))
