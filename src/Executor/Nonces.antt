-- ===== src/Executor/Nonces.antt =====
-- The nonce counter of pkg/positionmanager/executor.go: exact when one worker submits at a time,
-- and handed out twice when a worker rolls back behind another.
use dex_limit_order_manager.Prelude.{
  ℕ, zero, suc, ◌+◌, ◌^◌, ◌<◌, ◌≡◌, ◌⊎◌, inl, inr, sym, ap, ◌∙◌, true, List, arith,
}
use dex_limit_order_manager.Types.{Priority}
use dex_limit_order_manager.Prelude.Int.{ℤ}
use dex_limit_order_manager.Errors.{Error, Result, ok, err, Result-cases, ok-injective}
use dex_limit_order_manager.Chain.{ChainClient, Geth, ExecutorConfig, Tx, SignedTx}
use dex_limit_order_manager.Executor.{
  Executor, Action, u64, acquire_nonce, rollback_nonce, confirm, sign_and_send, transaction,
  and_then, ◌>>=◌, estimate, submit_at, wait_for_receipt, submit, suggest_gas_fees,
}

and_then-ok :
    {C A B : Type 0} (m : Result A × Executor C) (f : A → Action C B) {a : A}
    → m.0 ≡ ok a
    → and_then m f ≡ f a m.1
and_then-ok (ok b, e) f h = ap (λ a. f a e) (ok-injective h)
and_then-ok (err x, e) f h = cc

module _ {C : Type 0} (net : ChainClient C) (geth : Geth) (cfg : ExecutorConfig) where
  -- Polling and the fee queries leave the counter alone.
  wait-nonce :
      (ticks hash : ℕ) (e : Executor C)
      → ((wait_for_receipt net geth cfg ticks hash e).1.next_nonce ≡ e.next_nonce)
  unfolding wait_for_receipt
  wait-nonce zero hash e = ground arith
  wait-nonce (suc ticks) hash e = ground (
    arith,
    wait-nonce ticks hash (record e { client = (net.transaction_receipt e.client hash).1 }),
  )

  confirm-nonce :
      (ticks hash : ℕ) (e : Executor C)
      → (confirm net geth cfg ticks hash e).1.next_nonce ≡ e.next_nonce
  unfolding confirm
  confirm-nonce ticks hash e = ground (arith, wait-nonce ticks hash e)

  -- On an executor whose counter is set: either the transaction is signed with the counter's nonce
  -- and sent, and the counter moves up by one (modulo 2 ^ 64), or signing or sending fails, and the
  -- counter is as before.
  pub sign_and_send-nonce :
      (tx_with : ℕ → Tx) (e : Executor C)
      → e.nonce_init ≡ true
      → let r = sign_and_send net geth cfg tx_with e in
        ((signed : SignedTx) × (geth.sign_tx (tx_with e.next_nonce) ≡ ok signed)
          × ((net.send_transaction e.client signed).0 ≡ ok tt)
          × (r.0 ≡ ok signed.hash)
          × (r.1.next_nonce ≡ u64 (e.next_nonce + 1)))
        ⊎ ((x : Error) × (r.0 ≡ err x) × (r.1.next_nonce ≡ e.next_nonce))
  unfolding sign_and_send
  sign_and_send-nonce tx_with e set = elim (Result-cases (geth.sign_tx (tx_with e.next_nonce))) [
    | inr (x, refused) ↦ inr (x, ground arith, ground arith)
    | inl (signed, made) ↦ elim (Result-cases (net.send_transaction e.client signed).0) [
      | inl (done, sent) ↦ inl (signed, made, ground arith, ground arith, ground arith)
      | inr (x, lost) ↦ inr (x, ground arith, ground arith)
    ]
  ]

  estimate-nonce :
      (calldata : List ℕ) (tip fee : ℤ) (priority : Priority) (e : Executor C)
      → ((estimate net geth cfg calldata tip fee priority e).1.next_nonce ≡ e.next_nonce)
        × ((estimate net geth cfg calldata tip fee priority e).1.nonce_init ≡ e.nonce_init)
  unfolding estimate
  estimate-nonce calldata tip fee priority e = ground arith

  -- The fee queries leave the counter alone.
  fees-nonce :
      (priority : Priority) (e : Executor C)
      → ((suggest_gas_fees net geth cfg priority e).1.next_nonce ≡ e.next_nonce)
        × ((suggest_gas_fees net geth cfg priority e).1.nonce_init ≡ e.nonce_init)
  unfolding suggest_gas_fees
  fees-nonce priority e = ground arith

  -- The executor and the outcome once the fees are queried, and once the gas is estimated.
  abbrev pub priced : Priority → Executor C → Result (ℤ × ℤ) × Executor C
  priced priority e = suggest_gas_fees net geth cfg priority e

  abbrev pub estimated : List ℕ → Priority → ℤ × ℤ → Executor C → Result ℕ × Executor C
  estimated calldata priority fees e =
      estimate net geth cfg calldata fees.0 fees.1 priority (priced priority e).1

  submit-told :
      (ticks : ℕ) (calldata : List ℕ) (priority : Priority) (e : Executor C) (fees : ℤ × ℤ)
      (gas : ℕ)
      → (priced priority e).0 ≡ ok fees
      → (estimated calldata priority fees e).0 ≡ ok gas
      → submit net geth cfg ticks calldata priority e
        ≡ (sign_and_send net geth cfg (transaction net geth cfg calldata fees.0 fees.1 gas)
              >>= confirm net geth cfg ticks)
            (estimated calldata priority fees e).1
  unfolding submit submit_at
  submit-told ticks calldata priority e fees gas told guessed =
      and_then-ok (priced priority e) (submit_at net geth cfg ticks calldata priority) told
      ∙ and_then-ok (estimated calldata priority fees e)
          (λ g.
            sign_and_send net geth cfg (transaction net geth cfg calldata fees.0 fees.1 g)
            >>= confirm net geth cfg ticks)
          guessed

  sent-nonce :
      (ticks : ℕ) (tx_with : ℕ → Tx) (e : Executor C)
      → e.nonce_init ≡ true
      → let r = (sign_and_send net geth cfg tx_with >>= confirm net geth cfg ticks) e in
        ((x : Error) × (r.0 ≡ err x) × (r.1.next_nonce ≡ e.next_nonce))
        ⊎ ((signed : SignedTx) × (geth.sign_tx (tx_with e.next_nonce) ≡ ok signed)
            × ((net.send_transaction e.client signed).0 ≡ ok tt)
            × (r.1.next_nonce ≡ u64 (e.next_nonce + 1)))
  sent-nonce ticks tx_with e set = elim (sign_and_send-nonce tx_with e set) [
    | inr (x, failed, same) ↦ inl (x, ground arith, ground arith)
    | inl (signed, made, taken, done, moved) ↦ inr (
      signed,
      made,
      taken,
      ground (arith, confirm-nonce ticks signed.hash (sign_and_send net geth cfg tx_with e).1),
    )
  ]

  -- The node has taken a transaction with the counter's nonce, and the counter has moved.
  abbrev pub Sends : ℕ → List ℕ → Priority → Executor C → ℤ × ℤ → ℕ → SignedTx → Type 0
  Sends ticks calldata priority e fees gas signed =
      ((priced priority e).0 ≡ ok fees)
      × ((estimated calldata priority fees e).0 ≡ ok gas)
      × (geth.sign_tx (transaction net geth cfg calldata fees.0 fees.1 gas e.next_nonce)
          ≡ ok signed)
      × ((net.send_transaction (estimated calldata priority fees e).1.client signed).0 ≡ ok tt)
      × ((submit net geth cfg ticks calldata priority e).1.next_nonce ≡ u64 (e.next_nonce + 1))

  -- On an executor whose counter is set, a submission either fails and leaves the counter as it was, or
  -- it has signed a transaction with the counter's nonce, with the fees and the gas that it was told,
  -- the node has taken this transaction, and the counter has moved up by one (modulo 2 ^ 64): a sending
  -- that fails never moves it.
  pub submit-nonce :
      (ticks : ℕ) (calldata : List ℕ) (priority : Priority) (e : Executor C)
      → e.nonce_init ≡ true
      → ((x : Error) × ((submit net geth cfg ticks calldata priority e).0 ≡ err x)
          × ((submit net geth cfg ticks calldata priority e).1.next_nonce ≡ e.next_nonce))
        ⊎ ((fees : ℤ × ℤ) × (gas : ℕ) × (signed : SignedTx) × Sends ticks calldata priority e fees
              gas signed)
  unfolding submit submit_at
  submit-nonce ticks calldata priority e set =
      let (kept, set') = fees-nonce priority e in
      elim (Result-cases (priced priority e).0) [
        | inr (x, failed) ↦ inl (x, ground arith, ground arith)
        | inl (fees, told) ↦
            let (kept₂, set₂) =
              estimate-nonce calldata fees.0 fees.1 priority (priced priority e).1 in
            elim (Result-cases (estimated calldata priority fees e).0) [
              | inr (x, failed) ↦ inl (x, ground arith, ground arith)
              | inl (gas, guessed) ↦
                  let after = (estimated calldata priority fees e).1 in
                  let at : after.next_nonce ≡ e.next_nonce = kept₂ ∙ kept in
                  let whole = submit-told ticks calldata priority e fees gas told guessed in
                  let tx_with = transaction net geth cfg calldata fees.0 fees.1 gas in
                  elim (sent-nonce ticks tx_with after (set₂ ∙ set' ∙ set)) [
                    | inr (signed, made, taken, moved) ↦ inr (
                      fees,
                      gas,
                      signed,
                      (
                        told,
                        guessed,
                        ap (λ n. geth.sign_tx (tx_with n)) (sym at) ∙ made,
                        taken,
                        ap (λ r. r.1.next_nonce) whole ∙ moved ∙ ap (λ n. u64 (n + 1)) at,
                      ),
                    )
                    | inl (x, failed, same) ↦ inl (
                      x,
                      ap (λ r. r.0) whole ∙ failed,
                      ap (λ r. r.1.next_nonce) whole ∙ same ∙ at,
                    )
                  ]
            ]
      ]

-- A failed submission that rolls the counter back to its own nonce `n` while another worker has
-- taken and used `n + 1`: the next two submissions are given `n` and, once more, `n + 1`.
pub rollback-reuses :
    {C : Type 0} (net : ChainClient C) (geth : Geth) (cfg : ExecutorConfig) (e : Executor C) (n : ℕ)
    → e.nonce_init ≡ true
    → e.next_nonce ≡ n
    → n + 2 < 2 ^ 64
    → let acquire = acquire_nonce net geth cfg in
      let first = acquire e in
      let second = acquire first.1 in
      let retried = acquire (rollback_nonce n second.1) in
      let reused = acquire retried.1 in
      (first.0 ≡ ok n) × (second.0 ≡ ok (n + 1)) × (retried.0 ≡ ok n) × (reused.0 ≡ ok (n + 1))
unfolding acquire_nonce rollback_nonce
rollback-reuses net geth cfg e n set at small = ground arith
