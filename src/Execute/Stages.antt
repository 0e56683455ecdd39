-- ===== src/Execute/Stages.antt =====
-- The stages of `executeTrigger` of pkg/positionmanager/manager.go, in the order of the code; each
-- goes on to the next unless it returns.
use dex_limit_order_manager.Prelude.{
  ℕ, Bool, true, false, Option, none, some, List, [], ◌∷◌, ◌==◌, if◌then◌else◌, get_elem?,
}
use dex_limit_order_manager.Prelude.Int.{ℤ}
use dex_limit_order_manager.Types.{Position, Level, is_terminal, is_active, pair_of}
use dex_limit_order_manager.Errors.{
  Error, Result, ok, err, nil_pointer, no_executor, circuit_open, permit_expired,
}
use dex_limit_order_manager.Fees.{FeeConfig}
use dex_limit_order_manager.CircuitBreaker.{
  CircuitBreaker, Verdict, allowed, err_circuit_open, allow, record_success, record_failure,
}
use dex_limit_order_manager.Chain.{
  ExecutionMode, legacy, permit2_allowance, Receipt, ChainClient, Geth,
}
use dex_limit_order_manager.Executor.{Executor, execute_swap, activate_permit, resync_nonce}
use dex_limit_order_manager.Trigger.{TriggerEvent, register}
use dex_limit_order_manager.Store.{Store}
use dex_limit_order_manager.Manager.{Core, persist, suspend_position_levels}
use dex_limit_order_manager.Open.{is_empty}
use dex_limit_order_manager.Settlement.{Settlement, compute_amount, settle, update_triggers}
use dex_limit_order_manager.Retry.{store_update_with_retry}
use dex_limit_order_manager.Execute.{
  World, Job, Timing, ChainSettings, Outcome, ignored, failed, executed, panicked, ErrorEvent,
  error_event, position_event, execution_event, mentions_nonce, swap_params, activation_params,
  has_expired,
}

abbrev pub put_core : {S C : Type 0} → World S C → Core S → World S C
put_core w c = record w { core = c }

abbrev pub put_exec : {S C : Type 0} → World S C → ℕ → Executor C → World S C
put_exec w id e = record w { execs = λ k. if k == id then e else w.execs k }

-- The executor of the job's chain.
abbrev pub exec_of : {S C : Type 0} → World S C → Job → Executor C
exec_of w j = w.execs j.position.chain_id

-- Register the trigger of the fired level again, and report an error that can be retried.
unfoldable pub retry : {S C : Type 0} → World S C → Job → Error → World S C × Outcome
unfolding register
retry w j x = (
  record w {
    core = record w.core {
      trigger =
          register w.core.trigger (pair_of j.position) j.position.id j.event.level_index
            j.level.level_type j.position.direction j.level.trigger_price;
    };
  },
  failed (error_event j.event x true ∷ []),
)

abbrev pub store_errors : Job → Option Error → List ErrorEvent → List ErrorEvent
store_errors j none rest = rest
store_errors j (some x) rest = position_event j.position.id j.position.chain_id x ∷ rest

module _ {S C : Type 0} (db : Store S) (net : ChainClient C) (geth : Geth)
    (chains : ℕ → Option ChainSettings) (fees : ℕ → Result (Option FeeConfig)) (says : ℕ → Bool)
    (t : Timing) where
  -- After the store has answered.
  unfoldable pub recorded :
      World S C → Job → ℕ → Receipt → Settlement → S × Option Error → World S C × Outcome
  unfolding update_triggers execution_event
  recorded w j tx_hash receipt s (store, some x) = (
    put_core w (record w.core { store = store }),
    failed (position_event j.position.id j.position.chain_id x ∷ []),
  )
  recorded w j tx_hash receipt s (store, none) = (
    put_core w (record { trigger = update_triggers w.core.trigger s; store = store }),
    executed (execution_event geth j tx_hash receipt s),
  )

  unfoldable pub settled : World S C → Job → ℕ → Receipt → Result Settlement → World S C × Outcome
  unfolding recorded store_update_with_retry
  settled w j tx_hash receipt (err x) = (w, panicked x)
  settled w j tx_hash receipt (ok s) =
      recorded w j tx_hash receipt s
        (store_update_with_retry db s.position t.stopped 0 3 w.core.store)

  unfoldable pub resynced : Job → Error → Executor C → Executor C
  unfolding resync_nonce
  resynced j x e =
      if mentions_nonce says x then (resync_nonce net geth j.settings.executor e).1 else e

  unfoldable pub swapped : World S C → Job → Result (ℕ × Receipt) × Executor C → World S C × Outcome
  unfolding resynced retry settled settle compute_amount record_failure record_success
  swapped w j (err x, e) =
      let e' = record e { circuit_breaker = record_failure e.circuit_breaker t.failed_at } in
      retry (put_exec w j.position.chain_id (resynced j x e')) j x
  swapped w j (ok (tx_hash, receipt), e) =
      let e' = record e { circuit_breaker = record_success e.circuit_breaker } in
      settled (put_exec w j.position.chain_id e') j tx_hash receipt (
        settle j.position j.event.level_index j.level tx_hash j.event.price
          (compute_amount j.position j.level) t.settled_at)

  unfoldable pub run_swap : World S C → Job → ExecutionMode → World S C × Outcome
  unfolding swapped execute_swap swap_params
  run_swap w j mode =
      swapped w j
        (execute_swap net geth j.settings.executor t.swap_ticks (swap_params j mode) (exec_of w j))

  -- The allowance is set on the chain: note it on the position, and go on also where that fails.
  unfoldable pub activated :
      World S C → Job → Result (ℕ × Receipt) × Executor C → World S C × Outcome
  unfolding retry persist run_swap
  activated w j (err x, e) = retry (put_exec w j.position.chain_id e) j x
  activated w j (ok done, e) =
      let p = record j.position { permit_activated = true; updated_at = t.activated_at } in
      run_swap (put_core (put_exec w j.position.chain_id e) (persist db w.core p).0)
        (record j { position = p }) permit2_allowance

  -- `pos.PermitNonce.Uint64()` panics where the nonce is nil.
  unfoldable pub run_activation : World S C → Job → Option ℤ → World S C × Outcome
  unfolding activated activate_permit activation_params
  run_activation w j none = (w, panicked nil_pointer)
  run_activation w j (some nonce) = activated w j (
      activate_permit net geth j.settings.executor t.activation_ticks (activation_params j)
        (exec_of w j))

  -- The permit has expired: the levels are suspended.
  unfoldable pub run_suspension : World S C → Job → World S C × Outcome
  unfolding suspend_position_levels persist
  run_suspension w j =
      let (trigger, p) = suspend_position_levels t.suspended_at j.position w.core.trigger in
      let (c, failure) = persist db (record w.core { trigger = trigger }) p in
      (
        put_core w c,
        failed (store_errors j failure (error_event j.event permit_expired false ∷ [])),
      )

  unfoldable pub run_permit : World S C → Job → World S C × Outcome
  unfolding run_swap run_suspension run_activation
  run_permit w j =
      if is_empty j.position.permit_signature
      then run_swap w j legacy
      else if has_expired j.position t.checked_at
      then run_suspension w j
      else if j.position.permit_activated
      then run_swap w j permit2_allowance
      else run_activation w j j.position.permit_nonce

  unfoldable pub run_breaker : World S C → Job → CircuitBreaker × Verdict → World S C × Outcome
  unfolding retry run_permit
  run_breaker w j (cb, err_circuit_open) =
      retry (put_exec w j.position.chain_id (record (exec_of w j) { circuit_breaker = cb })) j
        circuit_open
  run_breaker w j (cb, allowed) =
      run_permit (put_exec w j.position.chain_id (record (exec_of w j) { circuit_breaker = cb })) j

  unfoldable pub run_fee :
      World S C
      → TriggerEvent
      → Position
      → Level
      → ChainSettings
      → Result (Option FeeConfig)
      → World S C × Outcome
  unfolding run_breaker allow
  run_fee w evt p l s (err x) = (w, failed (error_event evt x false ∷ []))
  run_fee w evt p l s (ok fee) =
      run_breaker w (record { position = p; level = l; event = evt; settings = s; fee = fee })
        (allow (w.execs p.chain_id).circuit_breaker t.asked_at)

  unfoldable pub run_chain :
      World S C → TriggerEvent → Position → Level → Option ChainSettings → World S C × Outcome
  unfolding run_fee
  run_chain w evt p l none =
      (w, failed (position_event evt.position_id evt.chain_id no_executor ∷ []))
  run_chain w evt p l (some s) = run_fee w evt p l s (fees p.owner)

  unfoldable pub run_level :
      World S C → TriggerEvent → Position → Option Level → World S C × Outcome
  unfolding run_chain
  run_level w evt p none = (w, ignored)
  run_level w evt p (some l) =
      if is_active l.status then run_chain w evt p l (chains p.chain_id) else (w, ignored)

  unfoldable pub run_get : World S C → TriggerEvent → Result Position → World S C × Outcome
  unfolding run_level
  run_get w evt (err x) = (w, failed (error_event evt x false ∷ []))
  run_get w evt (ok p) =
      if is_terminal p.state
      then (w, ignored)
      else run_level w evt p (get_elem? p.levels evt.level_index)

  -- `executeTrigger`.
  unfoldable pub execute_trigger : World S C → TriggerEvent → World S C × Outcome
  unfolding run_get
  execute_trigger w evt = run_get w evt (db.get w.core.store evt.position_id)
