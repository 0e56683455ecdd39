-- ===== src/Errors.antt =====
-- The errors that pkg/positionmanager returns, and Go's `(value, error)` as a result. Wrapping by
-- `%w` keeps the inner error. A dereferenced nil pointer, which panics in Go, is an error here too.
use dex_limit_order_manager.Prelude.{
  ℕ, ◌≡◌, ◌⊎◌, inl, inr, refl, Bool, true, false, Option, none, some,
}
use dex_limit_order_manager.Types.{PositionState, LevelStatus}

pub data Error : Type 0 where
  -- Of the host, a library or the chain: not this program's.
  external : ℕ → Error
  nil_pointer index_out_of_range context_done : Error
  invalid_size no_levels : Error
  unsupported_chain : ℕ → Error
  invalid_trigger_price invalid_portion : ℕ → Error
  cancel_on_fire_out_of_range : ℕ → Error
  total_portion_exceeds : ℕ → Error
  update_trigger_price_invalid : Error
  position_is : PositionState → Error
  invalid_level_index : Error
  level_not_active : LevelStatus → Error
  not_position_owner : Error
  circuit_open no_executor permit_expired : Error
  signature_length malleable_signature ecrecover_failed unmarshal_pubkey : Error
  permit_size_nil permit_amount_nil permit_sig_deadline_nil : Error
  permit_signer_mismatch permit_amount_too_low err_permit_expired permit_lifetime_too_short : Error
  permit_token_mismatch permit_spender_mismatch permit_sig_deadline_passed : Error
  amount_exceeds_uint160 expiration_exceeds_uint48 nonce_exceeds_uint48 : Error
  tx_reverted : Error
  -- `acquire nonce: %w`.
  acquiring_nonce : Error → Error
  no_price no_pool no_client no_clients no_pools : Error
  okx_error no_okx_price invalid_price : Error
  -- Of `New`, what is missing in its configuration.
  store_required price_feed_required fee_provider_required chains_required : Error
  client_required keeper_key_required : ℕ → Error
  too_few_observations : ℕ → Error
  -- Go panics on these, too.
  division_by_zero closed_channel unlocked_mutex wrong_type : Error
  approve_no_to approve_too_short approve_selector approve_spender approve_value : Error

-- Go's pair of a value and an error, of which one is set.
pub data Result {ℓ} (Value : Type ℓ) : Type ℓ where
  err : (failure : Error) → Result Value
  ok : (value : Value) → Result Value

-- `if !test { return failure }`.
abbrev pub require : (test : Bool) (failure : Error) → Result (Unit {0})
require false failure = err failure
require true failure = ok tt

abbrev pub from_option {ℓ} : {A : Type ℓ} → Option A → Error → Result A
from_option none x = err x
from_option (some a) x = ok a

-- The error of a call that returns only an error.
abbrev pub error_of {ℓ} : {A : Type ℓ} → Result A → Option Error
error_of (ok a) = none
error_of (err x) = some x

-- `if err != nil { return err }` between two calls.
infixl 5 ◌>>=◌
abbrev pub ◌>>=◌ {ℓ κ} :
    {Value : Type ℓ} {Next : Type κ} (call : Result Value) (next : Value → Result Next)
    → Result Next
err failure >>= next = err failure
ok value >>= next = next value

infixl 5 ◌>>◌
abbrev pub ◌>>◌ {κ} : {Next : Type κ} (check : Result (Unit {0})) (next : Result Next) → Result Next
check >> next = check >>= (λ passed. next)

-- What a chain that succeeds has gone through.
pub succeeded {ℓ κ} :
    {Value : Type ℓ} {Next : Type κ} (call : Result Value) (next : Value → Result Next)
    {result : Next}
    → (call >>= next) ≡ ok result
    → (value : Value) × (call ≡ ok value) × (next value ≡ ok result)
succeeded (err failure) next h = cc
succeeded (ok value) next h = (value, refl, h)

pub Result-cases {ℓ} :
    {A : Type ℓ} (r : Result A) → ((a : A) × (r ≡ ok a)) ⊎ ((x : Error) × (r ≡ err x))
Result-cases (err x) = inr (x, refl)
Result-cases (ok a) = inl (a, refl)

pub passed {ℓ} :
    {Next : Type ℓ} (test : Bool) (x : Error) (next : Result Next) {result : Next}
    → (require test x >> next) ≡ ok result
    → (test ≡ true) × (next ≡ ok result)
passed false x next h = cc
passed true x next h = (refl, h)

pub given_option {ℓ} :
    {A : Type ℓ} (o : Option A) (x : Error) {a : A} → from_option o x ≡ ok a → o ≡ some a
given_option none x h = cc
given_option (some b) x h = cc

pub required : (test : Bool) (x : Error) {u : Unit {0}} → require test x ≡ ok u → test ≡ true
required false x h = cc
required true x h = refl

pub ok-injective : {A : Type 0} {a b : A} → ok a ≡ ok b → a ≡ b
ok-injective h = cc
