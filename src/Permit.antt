-- ===== src/Permit.antt =====
-- pkg/positionmanager/permit.go: the EIP-712 hash of a Permit2 permit, the recovery of its signer
-- and the checks on a permit. Keccak, secp256k1 and the address of a key are go-ethereum's, and are
-- parameters; bytes are numbers under 256.
pub mod Tests
pub mod Validate
pub mod TypedData
pub mod Signing
use dex_limit_order_manager.Prelude.{
  ℕ, zero, suc, ◌+◌, ◌-◌, ◌*◌, ◌/◌, ◌%◌, ◌^◌, ◌≡◌, Bool, true, false, not, Option, none, some, List,
  [], ◌∷◌, ◌++◌, ◌==◌, ltb, leb, if◌then◌else◌, length, take, drop, set, get_elem?,
}
use dex_limit_order_manager.Prelude.Int.{ℤ, pos, negsuc, pos_part, ltb_ℤ, leb_ℤ, is_pos, ◌-ℤ◌, ◌*ℤ◌}
use Prim.Native.Char.{code}
use Prim.Native.String.{String}
use dex_limit_order_manager.Errors.{
  ◌>>=◌, ◌>>◌, require, from_option, Error, Result, ok, err, signature_length, malleable_signature,
  ecrecover_failed, unmarshal_pubkey, permit_size_nil, permit_amount_nil, permit_sig_deadline_nil,
  permit_signer_mismatch, permit_amount_too_low, err_permit_expired, permit_lifetime_too_short,
  permit_token_mismatch, permit_spender_mismatch, permit_sig_deadline_passed,
}

-- What the code calls of go-ethereum's crypto package.
pub record Crypto : Type 0 where
  pub keccak256 : List ℕ → ℕ
  pub ecrecover : ℕ → List ℕ → Option (List ℕ)
  pub unmarshal_pubkey : List ℕ → Option ℕ
  pub pubkey_to_address : ℕ → ℕ

pub record PermitSingleData : Type 0 where
  pub token : ℕ
  pub amount : Option ℤ
  pub expiration : ℕ  -- uint64
  pub nonce : ℕ  -- uint64
  pub spender : ℕ
  pub sig_deadline : Option ℤ

-- The last `k` bytes of a number, big-endian: `LeftPadBytes`, `Hash.Bytes` and, at 32, `U256Bytes`.
unfoldable pub be_bytes : ℕ → ℕ → List ℕ
be_bytes zero n = []
be_bytes (suc k) n = be_bytes k (n / 256) ++ (n % 256 ∷ [])

be_value : ℕ → List ℕ → ℕ
be_value acc [] = acc
be_value acc (b ∷ bs) = be_value (acc * 256 + b) bs

-- `SetBytes`.
unfoldable pub set_bytes : List ℕ → ℕ
unfolding be_value
set_bytes bs = be_value 0 bs

-- A `*big.Int` in 256 bits, in two's complement as `U256Bytes` has it.
abbrev pub u256 : ℤ → ℕ
u256 (pos n) = n % 2 ^ 256
u256 (negsuc n) = 2 ^ 256 - 1 - n % 2 ^ 256

-- An int64: the bits of a uint64 read with a sign.
unfoldable pub to_int64 : ℕ → ℤ
to_int64 n =
    if ltb (n % 2 ^ 64) (2 ^ 63) then pos (n % 2 ^ 64) else negsuc (2 ^ 64 - 1 - n % 2 ^ 64)

-- An integer computed in int64, whose result wraps.
unfoldable pub wrap64 : ℤ → ℤ
unfolding to_int64
wrap64 (pos n) = to_int64 n
wrap64 (negsuc n) = to_int64 (2 ^ 64 - 1 - n % 2 ^ 64)

-- `Int64()` and `Uint64()` of a `*big.Int`: the low bits of its magnitude, with the sign.
unfoldable pub int64_of : ℤ → ℤ
unfolding wrap64
int64_of a = wrap64 a

-- `time.Duration(seconds) * time.Second`, in nanoseconds.
unfoldable pub duration_seconds : ℤ → ℤ
unfolding wrap64 ◌*ℤ◌
duration_seconds s = wrap64 (wrap64 s *ℤ pos 1_000_000_000)

-- The order of secp256k1, halved.
abbrev pub secp256k1_half_n : ℕ
secp256k1_half_n = 0xfffffffffffffffffffffffffffffffebaaedce6af48a03bbfd25e8cd0364141 / 2

-- The bytes of an ASCII text.
abbrev pub codes : String → List ℕ
codes String.[] = []
codes (String.◌∷◌ c s) = code c ∷ codes s

module _ (crypto : Crypto) where
  open crypto use {keccak256, ecrecover}

  -- `permit2DomainSeparator`.
  unfoldable pub permit2_domain_separator : ℕ → ℕ → ℕ
  unfolding be_bytes
  permit2_domain_separator chain_id permit2_address = keccak256 (
      be_bytes 32
        (keccak256 (codes "EIP712Domain(string name,uint256 chainId,address verifyingContract)"))
      ++ (be_bytes 32 (keccak256 (codes "Permit2"))
          ++ (be_bytes 32 chain_id ++ be_bytes 32 permit2_address)))

  -- `hashPermitDetails`.
  unfoldable pub hash_permit_details : ℕ → ℤ → ℕ → ℕ → ℕ
  unfolding be_bytes
  hash_permit_details token amount expiration nonce = keccak256 (
      be_bytes 32 (
        keccak256
          (codes "PermitDetails(address token,uint160 amount,uint48 expiration,uint48 nonce)"))
      ++ (be_bytes 32 token
          ++ (be_bytes 32 (u256 amount) ++ (be_bytes 32 expiration ++ be_bytes 32 nonce))))

  -- `hashPermitSingle`; its callers have checked that neither pointer is nil.
  unfoldable pub hash_permit_single : PermitSingleData → ℤ → ℤ → ℕ
  unfolding be_bytes hash_permit_details
  hash_permit_single d amount sig_deadline = keccak256 (
      be_bytes 32 (
        keccak256 (
          codes
            "PermitSingle(PermitDetails details,address spender,uint256 sigDeadline)PermitDetails(address token,uint160 amount,uint48 expiration,uint48 nonce)"))
      ++ (be_bytes 32 (hash_permit_details d.token amount d.expiration d.nonce)
          ++ (be_bytes 32 d.spender ++ be_bytes 32 (u256 sig_deadline))))

  -- `Permit2EIP712Hash`.
  unfoldable pub permit2_eip712_hash : PermitSingleData → ℤ → ℤ → ℕ → ℕ → ℕ
  unfolding be_bytes permit2_domain_separator hash_permit_single
  permit2_eip712_hash d amount sig_deadline chain_id permit2_address = keccak256 (
      0x19
      ∷ 0x01
      ∷ (be_bytes 32 (permit2_domain_separator chain_id permit2_address)
          ++ be_bytes 32 (hash_permit_single d amount sig_deadline)))

  -- The byte `v` is 27 or 28 in a signature, and 0 or 1 for `Ecrecover`.
  unfoldable pub normalise_v : List ℕ → List ℕ
  normalise_v sig = elim (get_elem? sig 64) [
    | none ↦ sig
    | some v ↦ if leb 27 v then set sig 64 (v - 27) else sig
  ]

  recover_key : ℕ → List ℕ → Result ℕ
  recover_key hash sig = do
    key ← from_option (ecrecover hash sig) ecrecover_failed
    point ← from_option (crypto.unmarshal_pubkey key) unmarshal_pubkey
    ok (crypto.pubkey_to_address point)

  -- `RecoverPermitSigner`.
  unfoldable pub recover_permit_signer : PermitSingleData → ℤ → ℤ → ℕ → ℕ → List ℕ → Result ℕ
  unfolding permit2_eip712_hash normalise_v recover_key set_bytes
  recover_permit_signer d amount sig_deadline chain_id permit2_address signature = do
    require (length signature == 65) signature_length
    let sig = normalise_v signature
    require (leb (set_bytes (take 32 (drop 32 sig))) secp256k1_half_n) malleable_signature
    recover_key (permit2_eip712_hash d amount sig_deadline chain_id permit2_address) sig

  -- The checks of `ValidatePermitForPosition` behind those for nil.
  validate_fields :
      (owner : ℕ) (size : ℤ) (expected_token_in : ℕ) (d : PermitSingleData)
      (amount sig_deadline : ℤ) (chain_id permit2_address executor_address : ℕ) (signature : List ℕ)
      (min_lifetime now : ℤ)
      → Result (Unit {0})
  validate_fields owner size expected_token_in d amount sig_deadline chain_id permit2_address
        executor_address signature min_lifetime now =
      do
        signer ← recover_permit_signer d amount sig_deadline chain_id permit2_address signature
        require (signer == owner) permit_signer_mismatch
        require (leb_ℤ size amount) permit_amount_too_low
        require (ltb_ℤ now (to_int64 d.expiration)) err_permit_expired
        let remaining = duration_seconds (to_int64 d.expiration -ℤ now)
        require (leb_ℤ min_lifetime remaining) permit_lifetime_too_short
        require (d.token == expected_token_in) permit_token_mismatch
        require (d.spender == executor_address) permit_spender_mismatch
        require (ltb_ℤ now (int64_of sig_deadline)) permit_sig_deadline_passed

  -- `ValidatePermitForPosition`; `now` is what `time.Now().Unix()` returns.
  unfoldable pub validate_permit_for_position :
      (owner : ℕ) (size : Option ℤ) (expected_token_in : ℕ) (d : PermitSingleData)
      (chain_id permit2_address executor_address : ℕ) (signature : List ℕ) (min_lifetime now : ℤ)
      → Result (Unit {0})
  unfolding validate_fields
  validate_permit_for_position owner size expected_token_in d chain_id permit2_address
        executor_address signature min_lifetime now =
      do
        n ← from_option size permit_size_nil
        require (is_pos n) permit_size_nil
        amount ← from_option d.amount permit_amount_nil
        sig_deadline ← from_option d.sig_deadline permit_sig_deadline_nil
        validate_fields owner n expected_token_in d amount sig_deadline chain_id permit2_address
            executor_address signature min_lifetime now
