-- ===== src/Permit/Validate.antt =====
-- What a validated permit authorises, pkg/positionmanager/permit.go.
use dex_limit_order_manager.Prelude.{
  ℕ, ◌-◌, ◌*◌, ◌^◌, ◌≤◌, ◌<◌, ◌≡◌, ◌≢◌, Option, List, arith, length, take, drop,
}
use dex_limit_order_manager.Prelude.Int.{ℤ, pos, ◌-ℤ◌, ◌≤ℤ◌, ◌<ℤ◌}
use dex_limit_order_manager.Fees.Bounds.{pos-*ℤ}
use dex_limit_order_manager.Errors.{ok}
use dex_limit_order_manager.Permit.{
  Crypto, PermitSingleData, set_bytes, normalise_v, secp256k1_half_n, duration_seconds, to_int64,
  wrap64, recover_permit_signer, validate_permit_for_position,
}

wrap64-small : (n : ℕ) → n < 2 ^ 63 → wrap64 (pos n) ≡ pos n
unfolding wrap64
wrap64-small n h = ground arith

module _ (crypto : Crypto) (owner : ℕ) (size : ℤ) (token_in : ℕ) (d : PermitSingleData)
    (amount sig_deadline : ℤ) (chain_id permit2 executor : ℕ) (signature : List ℕ)
    (min_lifetime : ℤ) (now : ℕ) where
  -- The permit is signed by the owner, covers the size in the right token for the right spender,
  -- and lives long enough. A lifetime is in nanoseconds, all other times in seconds.
  pub record Authorises : Type 0 where
    pub size_pos : pos 0 <ℤ size
    pub signed :
        recover_permit_signer crypto d amount sig_deadline chain_id permit2 signature ≡ ok owner
    pub covers : size ≤ℤ amount
    pub unexpired : now < d.expiration
    pub lives : min_lifetime ≤ℤ pos ((d.expiration - now) * 1_000_000_000)
    pub same_token : d.token ≡ token_in
    pub same_spender : d.spender ≡ executor
    pub deadline_ahead : pos now <ℤ sig_deadline

wrap64-high : (n : ℕ) → 2 ^ 63 ≤ n → n < 2 ^ 64 → wrap64 (pos n) <ℤ pos 0
unfolding wrap64
wrap64-high n a b = ground arith

pub duration-negative :
    (s : ℕ) → 9223372037 ≤ s → s ≤ 18446744073 → duration_seconds (pos s) <ℤ pos 0
unfolding duration_seconds
duration-negative s lo hi =
    rw (wrap64-small s (omega arith), pos-*ℤ s 1_000_000_000)
      (wrap64-high (s * 1_000_000_000) (omega arith) (omega arith))

-- `time.Duration` counts nanoseconds in an int64. A permit that expires between about 292 and 584
-- years ahead (9223372037 to 18446744073 seconds) has a negative lifetime there, and is refused
-- whatever else it says, unless the configured minimum is negative.
pub validate-far_future :
    (crypto : Crypto) (owner : ℕ) (size : Option ℤ) (token_in : ℕ) (d : PermitSingleData)
    (chain_id permit2 executor : ℕ) (signature : List ℕ) (min_lifetime now : ℤ) (s : ℕ)
    → to_int64 d.expiration -ℤ now ≡ pos s
    → 9223372037 ≤ s
    → s ≤ 18446744073
    → pos 0 ≤ℤ min_lifetime
    → validate_permit_for_position crypto owner size token_in d chain_id permit2 executor signature
        min_lifetime now
      ≢ ok tt
unfolding validate_permit_for_position
validate-far_future crypto owner size token_in d chain_id permit2 executor signature min_lifetime
      now s e lo hi least accepted =
    ground (arith, duration-negative s lo hi)

-- Where a signer is recovered, the signature has 65 bytes and its `s` is in the lower half of the
-- curve's order.
pub recover-canonical :
    (crypto : Crypto) (d : PermitSingleData) (amount sig_deadline : ℤ) (chain_id permit2 : ℕ)
    (signature : List ℕ) (signer : ℕ)
    → recover_permit_signer crypto d amount sig_deadline chain_id permit2 signature ≡ ok signer
    → (length signature ≡ 65)
      × (set_bytes (take 32 (drop 32 (normalise_v crypto signature))) ≤ secp256k1_half_n)
unfolding recover_permit_signer
recover-canonical crypto d amount sig_deadline chain_id permit2 signature signer h = ground arith
