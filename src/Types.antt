-- ===== src/Types.antt =====
-- pkg/positionmanager/types.go: positions, levels, token pairs and the enums.
-- An address, a hash and a [16]byte ID are the numbers that their bytes spell; a `*big.Int` that
-- may be nil is an option; times are Unix seconds.
use dex_limit_order_manager.Prelude.{
  ℕ, ◌+◌, ◌≡◌, ◌↔◌, Bool, true, false, ◌&&◌, Option, none, some, List, [], ◌∷◌, arith, ◌==◌,
  if◌then◌else◌, keep,
}
use dex_limit_order_manager.Prelude.Int.{ℤ}

pub data Direction : Type 0 where
  long short : Direction

pub data PositionState : Type 0 where
  active partial_closed closed cancelled : PositionState

-- `IsTerminal`.
abbrev pub is_terminal : PositionState → Bool
is_terminal PositionState.active = false
is_terminal PositionState.partial_closed = false
is_terminal PositionState.closed = true
is_terminal PositionState.cancelled = true

pub data LevelType : Type 0 where
  sl tp : LevelType

pub data LevelStatus : Type 0 where
  active triggered cancelled suspended : LevelStatus

abbrev pub is_active : LevelStatus → Bool
is_active LevelStatus.active = true
is_active LevelStatus.triggered = false
is_active LevelStatus.cancelled = false
is_active LevelStatus.suspended = false

abbrev pub is_suspended : LevelStatus → Bool
is_suspended LevelStatus.active = false
is_suspended LevelStatus.triggered = false
is_suspended LevelStatus.cancelled = false
is_suspended LevelStatus.suspended = true

abbrev pub is_sl : LevelType → Bool
is_sl sl = true
is_sl tp = false

abbrev pub is_long : Direction → Bool
is_long long = true
is_long short = false

pub data Priority : Type 0 where
  critical normal : Priority

pub record TokenPair : Type 0 where
  pub base : ℕ
  pub quote : ℕ
  pub chain_id : ℕ

-- Go's `==` on the struct.
unfoldable pub pair_eq : TokenPair → TokenPair → Bool
pair_eq p q = p.base == q.base && (p.quote == q.quote && p.chain_id == q.chain_id)

pub pair_eq_iff : (p q : TokenPair) → (pair_eq p q ≡ true) ↔ (p ≡ q)
unfolding pair_eq
pair_eq_iff p q = ground arith

pub pair_eq_refl : (p : TokenPair) → pair_eq p p ≡ true
unfolding pair_eq
pair_eq_refl p = ground arith

pub record Level : Type 0 where
  pub index : ℕ
  pub level_type : LevelType
  pub trigger_price : ℤ
  pub portion_bps : ℕ  -- uint16
  pub status : LevelStatus
  pub move_sl_to : Option ℤ
  pub cancel_on_fire : List ℤ
  pub exec_tx_hash : ℕ
  pub exec_price : Option ℤ
  pub exec_amount : Option ℤ
  pub exec_at : ℤ

pub record Position : Type 0 where
  pub id : ℕ
  pub owner : ℕ
  pub token_base : ℕ
  pub token_quote : ℕ
  pub direction : Direction
  pub total_size : ℤ
  pub remaining_size : ℤ
  pub entry_price : ℤ
  pub state : PositionState
  pub chain_id : ℕ
  pub pool_fee : ℕ  -- uint32
  pub decimals_base : ℕ  -- uint8
  pub decimals_quote : ℕ  -- uint8
  pub levels : List Level
  pub created_at : ℤ
  pub updated_at : ℤ
  pub permit_signature : List ℕ
  pub permit_nonce : Option ℤ
  pub permit_deadline : ℤ
  pub permit_amount : Option ℤ
  pub permit_token : ℕ
  pub permit_activated : Bool

abbrev pub pair_of : Position → TokenPair
pair_of p = record { base = p.token_base; quote = p.token_quote; chain_id = p.chain_id }

-- `ActiveLevels`.
unfoldable pub active_levels : Position → List Level
unfolding keep
active_levels p = keep (λ l. is_active l.status) p.levels

abbrev pub is_active_sl : Level → Bool
is_active_sl l = is_sl l.level_type && is_active l.status

-- The index of the first active stop-loss among the levels, counted from `i`.
unfoldable pub find_active_sl : ℕ → List Level → Option ℕ
find_active_sl i [] = none
find_active_sl i (l ∷ ls) =
    let rest = find_active_sl (i + 1) ls in if is_active_sl l then some i else rest

-- `ActiveSL`: the pointer into `p.Levels` is the index that it points at.
unfoldable pub active_sl : Position → Option ℕ
unfolding find_active_sl
active_sl p = find_active_sl 0 p.levels
