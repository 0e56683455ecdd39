-- ===== src/Executor/Approve.antt =====
-- What the keeper broadcasts for a user: `broadcastSignedApproveTx`, pkg/positionmanager/executor.go.
use dex_limit_order_manager.Prelude.{
  ℕ, ◌≤◌, ◌≡◌, ◌≢◌, ◌⊎◌, ◌↔◌, inl, inr, none, List, arith, length, take, drop,
}
use dex_limit_order_manager.Prelude.Int.{◌≤ℤ◌, pos}
use dex_limit_order_manager.Errors.{Error, ok, err, Result-cases}
use dex_limit_order_manager.Permit.{set_bytes}
use dex_limit_order_manager.Chain.{ChainClient, Geth, ExecutorConfig, SignedTx}
use dex_limit_order_manager.Executor.{Executor, check_approve, broadcast_signed_approve_tx}

-- A call of `approve` on some contract, for Permit2 as the spender, that sends no ether.
pub record IsApprove (cfg : ExecutorConfig) (t : SignedTx) : Type 0 where
  pub is_call : t.tx.to ≢ none
  pub long_enough : 68 ≤ length t.tx.payload
  pub selector : set_bytes (take 4 t.tx.payload) ≡ 0x095ea7b3
  pub spender : set_bytes (take 20 (drop 16 t.tx.payload)) ≡ cfg.permit2_address
  pub no_value : t.tx.value ≤ℤ pos 0

module _ {C : Type 0} (net : ChainClient C) (geth : Geth) (cfg : ExecutorConfig) where
  -- The checks pass exactly for an approval of Permit2.
  pub check_approve_iff : (t : SignedTx) → (check_approve net geth cfg t ≡ ok tt) ↔ IsApprove cfg t
  unfolding check_approve
  check_approve_iff t = ((λ h. ground arith), λ h. ground arith)

  -- Whatever bytes a user hands in, either they decode to an approval of Permit2 that sends no
  -- ether, or the call fails and leaves executor and chain as they were: nothing is sent.
  pub broadcast-checked :
      (ticks : ℕ) (bytes : List ℕ) (e : Executor C)
      → ((t : SignedTx) × (geth.unmarshal_binary bytes ≡ ok t) × IsApprove cfg t)
        ⊎ ((x : Error) × (broadcast_signed_approve_tx net geth cfg ticks bytes e ≡ (err x, e)))
  unfolding broadcast_signed_approve_tx
  broadcast-checked ticks bytes e = elim (Result-cases (geth.unmarshal_binary bytes)) [
    | inr (x, bad) ↦ inr (x, ground arith)
    | inl (t, decoded) ↦ elim (Result-cases (check_approve net geth cfg t)) [
      | inl (u, passed) ↦ inl (t, decoded, (check_approve_iff t).0 passed)
      | inr (x, refused) ↦ inr (x, ground arith)
    ]
  ]
