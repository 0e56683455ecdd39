-- ===== src/Retry/Tests.antt =====
-- `storeUpdateWithRetry` of pkg/positionmanager/manager.go on a store whose first update fails.
use dex_limit_order_manager.Prelude.{
  ℕ, zero, suc, ◌+◌, ◌≡◌, ◌<◌, refl, false, none, some, ◌==◌, if◌then◌else◌, arith,
}
use dex_limit_order_manager.Errors.{Error, err, external}
use dex_limit_order_manager.Store.{Store}
use dex_limit_order_manager.Settlement.Tests.{position}
use dex_limit_order_manager.Retry.{store_update_with_retry, attempted, retry-succeeds}

-- The state counts the updates.
abbrev flaky : Store ℕ
flaky = record {
  save = λ s p. (s, none);
  get = λ s id. err (external 0);
  list_active = λ s chain_id. err (external 0);
  update = λ s p. (s + 1, if s == 0 then some (external 1) else none);
}

first_fails :
    (k : ℕ)
    → k < 1
    → (x : Error) × ((flaky.update (attempted flaky position k 0) position).1 ≡ some x)
unfolding attempted
first_fails zero h = (external 1, refl)
first_fails (suc k) h = absurd (omega (arith, h))

retry-succeeds_example :
    store_update_with_retry flaky position (λ k. false) 0 3 0 ≡ (attempted flaky position 2 0, none)
unfolding attempted
retry-succeeds_example =
    retry-succeeds flaky position (λ k. false) 0 3 1 0 (λ k. refl) (omega arith) first_fails refl
