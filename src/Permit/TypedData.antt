-- ===== src/Permit/TypedData.antt =====
-- `BuildPermitSingleTypedData` of pkg/positionmanager/permit.go: the document that a wallet shows and
-- signs.
use dex_limit_order_manager.Prelude.{ℕ, List, [], ◌∷◌}
use dex_limit_order_manager.Prelude.Int.{ℤ}
use Prim.Native.String.{String}

-- A field of a struct in "types".
pub record FieldType : Type 0 where
  pub name : String
  pub type_name : String

-- What the document has for a value: the text of an address (`Hex()`), of a `*big.Int` (`String()`), a
-- number, a text, or an object.
mutual
  pub data Value : Type 0 where
    hex : (address : ℕ) → Value
    decimal : (amount : ℤ) → Value
    number : ℕ → Value
    string : String → Value
    object : Fields → Value

  pub data Fields : Type 0 where
    end : Fields
    field : (name : String) → Value → Fields → Fields

pub record TypedData : Type 0 where
  pub types : List (String × List FieldType)
  pub primary_type : String
  pub domain : Value
  pub message : Value

abbrev has_type : String → String → FieldType
has_type name type_name = record { name = name; type_name = type_name }

-- `BuildPermitSingleTypedData`.
unfoldable pub build_permit_single_typed_data :
    (token : ℕ) (amount : ℤ) (expiration nonce spender : ℕ) (sig_deadline : ℤ)
    (chain_id permit2_address : ℕ)
    → TypedData
build_permit_single_typed_data token amount expiration nonce spender sig_deadline chain_id
      permit2_address =
    record {
      types =
          (
            "EIP712Domain",
            has_type "name" "string"
                ∷ has_type "chainId" "uint256"
                ∷ has_type "verifyingContract" "address"
                ∷ [],
          )
          ∷ (
            "PermitSingle",
            has_type "details" "PermitDetails"
                ∷ has_type "spender" "address"
                ∷ has_type "sigDeadline" "uint256"
                ∷ [],
          )
          ∷ (
            "PermitDetails",
            has_type "token" "address"
                ∷ has_type "amount" "uint160"
                ∷ has_type "expiration" "uint48"
                ∷ has_type "nonce" "uint48"
                ∷ [],
          )
          ∷ [];
      primary_type = "PermitSingle";
      domain = object (
          field "name" (string "Permit2") (
            field "chainId" (number chain_id)
              (field "verifyingContract" (hex permit2_address) end)));
      message = object (
          field "details"
            (object (
              field "token" (hex token) (
                field "amount" (decimal amount)
                  (field "expiration" (number expiration) (field "nonce" (number nonce) end)))))
            (field "spender" (hex spender) (field "sigDeadline" (decimal sig_deadline) end)));
    }
