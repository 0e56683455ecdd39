-- ===== src/Permit/Tests.antt =====
-- The checks on a permit, pkg/positionmanager/permit.go, on a concrete permit, with stand-ins for the
-- hash and the curve.
use dex_limit_order_manager.Prelude.{
  ℕ, zero, suc, ◌≡◌, ◌≤◌, refl, some, List, [], ◌∷◌, length, take, drop,
}
use dex_limit_order_manager.Prelude.Int.{pos}
use dex_limit_order_manager.Permit.{
  Crypto, PermitSingleData, set_bytes, normalise_v, secp256k1_half_n, recover_permit_signer,
  permit2_eip712_hash,
}
use dex_limit_order_manager.Permit.TypedData.{build_permit_single_typed_data}
use dex_limit_order_manager.Permit.Signing.{eip712_hash, typed_data-hash}
use dex_limit_order_manager.Permit.Validate.{recover-canonical}

-- Every signature is of the address 7.
abbrev pub crypto : Crypto
crypto = record {
  keccak256 = λ bytes. 0;
  ecrecover = λ hash signature. some [];
  unmarshal_pubkey = λ key. some 7;
  pubkey_to_address = λ point. point;
}

abbrev permit : PermitSingleData
permit = record {
  token = 1;
  amount = some (pos 500);
  expiration = 5000;
  nonce = 0;
  spender = 3;
  sig_deadline = some (pos 6000);
}

ones : ℕ → List ℕ
ones zero = []
ones (suc n) = 1 ∷ ones n

abbrev signature : List ℕ
signature = ones 65

recover-canonical_example :
    (length signature ≡ 65)
    × (set_bytes (take 32 (drop 32 (normalise_v crypto signature))) ≤ secp256k1_half_n)
unfolding recover_permit_signer ones
recover-canonical_example =
    recover-canonical crypto permit (pos 500) (pos 6000) 137 4 signature 7 refl

-- The document for the permit.
typed_data-hash_example :
    eip712_hash (λ bytes. 0) (build_permit_single_typed_data 1 (pos 500) 5000 0 3 (pos 6000) 137 9)
    ≡ permit2_eip712_hash crypto permit (pos 500) (pos 6000) 137 9
typed_data-hash_example = typed_data-hash crypto permit (pos 500) (pos 6000) 137 9
