-- ===== src/Permit/Signing.antt =====
-- What a wallet signs for the document of `BuildPermitSingleTypedData`, by EIP-712: an independent
-- description of the hash that pkg/positionmanager/permit.go computes.
use dex_limit_order_manager.Prelude.{
  ℕ, ◌≡◌, refl, Option, none, some, List, [], ◌∷◌, ◌++◌, if◌then◌else◌,
}
use dex_limit_order_manager.Prelude.Int.{ℤ}
use Prim.Native.String.{String}
use text.Mathlib.Text.{◌==◌}
use dex_limit_order_manager.Permit.{
  Crypto, PermitSingleData, be_bytes, u256, codes, permit2_eip712_hash,
}
use dex_limit_order_manager.Permit.TypedData.{
  FieldType, Value, hex, decimal, number, string, object, Fields, end, field, TypedData,
  build_permit_single_typed_data,
}

abbrev Types : Type 0
Types = List (String × List FieldType)

-- The fields of a struct, none for an atomic type.
struct_fields : Types → String → Option (List FieldType)
struct_fields [] name = none
struct_fields ((n, fs) ∷ types) name = if n == name then some fs else struct_fields types name

comma_before : List FieldType → List ℕ
comma_before [] = []
comma_before (f ∷ fs) = codes ","

listed_fields : List FieldType → List ℕ
unfolding comma_before
listed_fields [] = []
listed_fields (f ∷ fs) =
    codes f.type_name ++ (codes " " ++ (codes f.name ++ (comma_before fs ++ listed_fields fs)))

-- A struct in the notation of EIP-712.
listed : String → List FieldType → List ℕ
unfolding listed_fields
listed name fs = codes name ++ (codes "(" ++ (listed_fields fs ++ codes ")"))

referred : Option (List FieldType) → String → List ℕ
unfolding listed
referred none name = []
referred (some fs) name = listed name fs

-- The structs among the types of the fields.
references : Types → List FieldType → List ℕ
unfolding referred struct_fields
references types [] = []
references types (f ∷ fs) =
    referred (struct_fields types f.type_name) f.type_name ++ references types fs

-- `encodeType`, for a struct that refers to one other at most, which refers to none.
encode_type : Types → String → Option (List FieldType) → List ℕ
unfolding listed references
encode_type types name none = []
encode_type types name (some fs) = listed name fs ++ references types fs

or_no_fields : Option (List FieldType) → List FieldType
or_no_fields none = []
or_no_fields (some fs) = fs

-- The words of the fields, in the order of the type, from those of the object by name.
word_of : String → List (String × (String → List ℕ)) → String → List ℕ
word_of name [] type_name = []
word_of name ((n, word) ∷ words) type_name =
    if n == name then word type_name else word_of name words type_name

encode_data : List FieldType → List (String × (String → List ℕ)) → List ℕ
unfolding word_of
encode_data [] words = []
encode_data (f ∷ fs) words = word_of f.name words f.type_name ++ encode_data fs words

module _ (keccak256 : List ℕ → ℕ) (types : Types) where
  -- `hashStruct` of an object of a type, given the words of its fields.
  hash_fields : String → List (String × (String → List ℕ)) → ℕ
  unfolding encode_type encode_data or_no_fields be_bytes struct_fields
  hash_fields name words =
      let fs = struct_fields types name in
      keccak256
        (be_bytes 32 (keccak256 (encode_type types name fs)) ++ encode_data (or_no_fields fs) words)

  -- The word of 32 bytes of a value of a type. Addresses and numbers stand in texts and are read back.
  mutual
    unfolding hash_fields be_bytes

    word : Value → String → List ℕ
    word (hex address) type_name = be_bytes 32 address
    word (decimal amount) type_name = be_bytes 32 (u256 amount)
    word (number n) type_name = be_bytes 32 n
    word (string s) type_name = be_bytes 32 (keccak256 (codes s))
    word (object fs) type_name = be_bytes 32 (hash_fields type_name (words fs))

    words : Fields → List (String × (String → List ℕ))
    words end = []
    words (field name v fs) = (name, word v) ∷ words fs

-- What is signed: 0x1901, the hash of the domain, and that of the message.
unfoldable pub eip712_hash : (List ℕ → ℕ) → TypedData → ℕ
unfolding word words
eip712_hash keccak256 d = keccak256 (
    0x19
    ∷ 0x01
    ∷ (word keccak256 d.types d.domain "EIP712Domain"
        ++ word keccak256 d.types d.message d.primary_type))

-- The hash of `Permit2EIP712Hash`, with which the validation recovers the signer, is the hash that
-- EIP-712 gives to the document of `BuildPermitSingleTypedData` for the same permit: types, domain and
-- fields agree.
pub typed_data-hash :
    (crypto : Crypto) (d : PermitSingleData) (amount sig_deadline : ℤ)
    (chain_id permit2_address : ℕ)
    → eip712_hash (Crypto.keccak256 crypto) (
        build_permit_single_typed_data d.token amount d.expiration d.nonce d.spender sig_deadline
          chain_id permit2_address)
      ≡ permit2_eip712_hash crypto d amount sig_deadline chain_id permit2_address
unfolding eip712_hash build_permit_single_typed_data permit2_eip712_hash
typed_data-hash crypto d amount sig_deadline chain_id permit2_address = refl
