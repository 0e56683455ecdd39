-- ===== src/Open.antt =====
-- `OpenPosition` of pkg/positionmanager/manager.go. The random ID and the clock are arguments;
-- subscribing to the pair's feed is left out.
pub mod Tests
pub mod Levels
pub mod Opened
use dex_limit_order_manager.Prelude.{
  ◌-◌, ℕ, zero, suc, ◌+◌, ◌≡◌, Bool, true, false, not, ◌&&◌, ◌||◌, Option, none, some, List, [],
  ◌∷◌, ◌==◌, ltb, leb, ◌%◌, ◌^◌, if◌then◌else◌, length,
}
use dex_limit_order_manager.Prelude.Int.{ℤ, pos, negsuc, pos_part, neg_part, is_pos}
use dex_limit_order_manager.Types.{Position, PositionState, Level, Direction, is_long}
use dex_limit_order_manager.Errors.{
  Error, Result, ok, err, require, from_option, ◌>>=◌, ◌>>◌, invalid_size, no_levels,
  invalid_trigger_price, invalid_portion, cancel_on_fire_out_of_range, total_portion_exceeds,
  nil_pointer, unsupported_chain,
}
use dex_limit_order_manager.Permit.{Crypto, PermitSingleData, validate_permit_for_position}
use dex_limit_order_manager.Store.{Store}
use dex_limit_order_manager.Chain.{ChainClient, Geth, ExecutorConfig}
use dex_limit_order_manager.Executor.{Executor, and_then, broadcast_signed_approve_tx}
use dex_limit_order_manager.Manager.{Core, LevelParams, new_level, register_position_triggers}

pub record OpenParams : Type 0 where
  pub owner : ℕ
  pub token_base : ℕ
  pub token_quote : ℕ
  pub direction : Direction
  pub size : Option ℤ
  pub entry_price : Option ℤ
  pub chain_id : ℕ
  pub pool_fee : ℕ
  pub decimals_base : ℕ
  pub decimals_quote : ℕ
  pub levels : List LevelParams
  pub permit_signature : List ℕ
  pub permit_nonce : Option ℤ
  pub permit_deadline : ℤ  -- int64
  pub permit_amount : Option ℤ
  pub signed_approve_tx : List ℕ

-- The addresses and the bound of a chain's configuration that opening reads.
pub record ChainInstance : Type 0 where
  pub executor_address : ℕ
  pub permit2_address : ℕ
  pub min_permit_lifetime : ℤ

-- `idx < 0 || idx >= len(params.Levels)`, negated.
abbrev pub in_range : ℕ → ℤ → Bool
in_range n (pos i) = ltb i n
in_range n (negsuc i) = false

-- The loop over `CancelOnFire` of the level `i`.
unfoldable pub check_cancel_on_fire : ℕ → ℕ → List ℤ → Result (Unit {0})
check_cancel_on_fire n i [] = ok tt
check_cancel_on_fire n i (idx ∷ rest) =
    require (in_range n idx) (cancel_on_fire_out_of_range i) >> check_cancel_on_fire n i rest

-- One round of the loop over the levels, up to the sum.
unfoldable pub check_level : ℕ → ℕ → LevelParams → Result (Unit {0})
unfolding check_cancel_on_fire
check_level n i lp = do
  price ← from_option lp.trigger_price (invalid_trigger_price i)
  require (is_pos price) (invalid_trigger_price i)
  require (not (lp.portion_bps == 0) && leb lp.portion_bps 10000) (invalid_portion i)
  check_cancel_on_fire n i lp.cancel_on_fire

-- The loop over the levels from the index `i` on, with `total` the uint32 sum so far. Of several
-- errors in one level the first is returned.
unfoldable pub check_levels : ℕ → ℕ → ℕ → List LevelParams → Result ℕ
unfolding check_level
check_levels n i total [] = ok total
check_levels n i total (lp ∷ lps) = do
  check_level n i lp
  check_levels n (i + 1) ((total + lp.portion_bps) % 2 ^ 32) lps

-- The checks on the levels.
unfoldable pub validate_levels : List LevelParams → Result (Unit {0})
unfolding check_levels
validate_levels lps = do
  total ← check_levels (length lps) 0 0 lps
  require (leb total 10000) (total_portion_exceeds total)

-- `pos.Levels` from the parameters; a nil price panics, but has been refused before.
unfoldable pub build_levels : ℕ → List LevelParams → Result (List Level)
build_levels i [] = ok []
build_levels i (lp ∷ lps) = do
  price ← from_option lp.trigger_price nil_pointer
  rest ← build_levels (i + 1) lps
  ok (new_level i lp price ∷ rest)

-- `uint64(params.PermitDeadline)`, of an int64.
abbrev pub uint64_of : ℤ → ℕ
uint64_of (pos n) = n % 2 ^ 64
uint64_of (negsuc n) = 2 ^ 64 - 1 - n % 2 ^ 64

-- `PermitNonce.Uint64()`, the low bits of the magnitude, or 0 where it is nil.
abbrev pub nonce_of : Option ℤ → ℕ
nonce_of none = 0
nonce_of (some a) = (pos_part a + neg_part a) % 2 ^ 64

abbrev pub or_default : Option ℤ → ℤ → ℤ
or_default none d = d
or_default (some a) d = a

abbrev pub permit_token : OpenParams → ℕ
permit_token p = if is_long p.direction then p.token_base else p.token_quote

abbrev pub permit_data : OpenParams → ChainInstance → ℤ → PermitSingleData
permit_data p ci size = record {
  token = permit_token p;
  amount = some (or_default p.permit_amount size);
  expiration = uint64_of p.permit_deadline;
  nonce = nonce_of p.permit_nonce;
  spender = ci.executor_address;
  sig_deadline = some p.permit_deadline;
}

abbrev pub is_empty : List ℕ → Bool
is_empty bytes = length bytes == 0

-- The permit is checked only if there is a signature.
unfoldable pub check_permit : Crypto → ℤ → OpenParams → ChainInstance → ℤ → Result (Unit {0})
unfolding validate_permit_for_position
check_permit crypto now p ci size =
    if is_empty p.permit_signature
    then ok tt
    else validate_permit_for_position crypto p.owner (some size) (permit_token p)
        (permit_data p ci size) p.chain_id ci.permit2_address ci.executor_address p.permit_signature
        ci.min_permit_lifetime now

-- Everything that is checked before the first effect. `chain` is the entry of `m.cfg.Chains`.
unfoldable pub validate_open : Crypto → ℤ → OpenParams → Option ChainInstance → Result (Unit {0})
unfolding validate_levels check_permit
validate_open crypto now p chain = do
  size ← from_option p.size invalid_size
  require (is_pos size) invalid_size
  require (not (length p.levels == 0)) no_levels
  ci ← from_option chain (unsupported_chain p.chain_id)
  validate_levels p.levels
  check_permit crypto now p ci size

-- The new position.
abbrev pub built : ℤ → ℕ → OpenParams → ℤ → ℤ → List Level → Position
built now id p size entry ls =
    let signed = not (is_empty p.permit_signature) in
    record {
      id = id;
      owner = p.owner;
      token_base = p.token_base;
      token_quote = p.token_quote;
      direction = p.direction;
      total_size = size;
      remaining_size = size;
      entry_price = entry;
      state = PositionState.active;
      chain_id = p.chain_id;
      pool_fee = p.pool_fee;
      decimals_base = p.decimals_base;
      decimals_quote = p.decimals_quote;
      levels = ls;
      created_at = now;
      updated_at = now;
      permit_signature = p.permit_signature;
      permit_nonce = if signed then some (or_default p.permit_nonce (pos 0)) else none;
      permit_deadline = if signed then p.permit_deadline else pos 0;
      permit_amount = if signed then some (or_default p.permit_amount size) else none;
      permit_token = if signed then permit_token p else 0;
      permit_activated = false;
    }

-- From the ID on to the whole position. A nil entry price is not checked, and panics.
unfoldable pub new_position : ℤ → Result ℕ → OpenParams → Result Position
unfolding build_levels
new_position now random p = do
  id ← random
  size ← from_option p.size nil_pointer
  entry ← from_option p.entry_price nil_pointer
  ls ← build_levels 0 p.levels
  ok (built now id p size entry ls)

module _ {S : Type 0} (db : Store S) where
  registered : Core S → Position → Option Error → Core S × Result Position
  unfolding register_position_triggers
  registered c p none = (record c { trigger = register_position_triggers p c.trigger }, ok p)
  registered c p (some x) = (c, err x)

  -- `Store.Save`, and the registration of the triggers if it succeeds.
  unfoldable pub save_and_register : Core S → Result Position → Core S × Result Position
  unfolding registered
  save_and_register c (err x) = (c, err x)
  save_and_register c (ok p) =
      let (store, failure) = db.save c.store p in registered (record c { store = store }) p failure

  module _ {C : Type 0} (crypto : Crypto) (net : ChainClient C) (geth : Geth)
      (cfg : ExecutorConfig) where
    -- The signed approval, if there is one. `New` has made an executor for each configured chain.
    unfoldable pub relay : ℕ → OpenParams → Executor C → Result (Unit {0}) × Executor C
    unfolding broadcast_signed_approve_tx
    relay ticks p e =
        if is_empty p.signed_approve_tx
        then (ok tt, e)
        else and_then (broadcast_signed_approve_tx net geth cfg ticks p.signed_approve_tx e)
            (λ receipt e'. (ok tt, e'))

    relayed :
        ℤ
        → Result ℕ
        → OpenParams
        → Core S
        → Result (Unit {0}) × Executor C
        → (Core S × Executor C) × Result Position
    unfolding save_and_register new_position
    relayed now random p c (err x, e) = ((c, e), err x)
    relayed now random p c (ok done, e) =
        let (c', r) = save_and_register c (new_position now random p) in ((c', e), r)

    validated :
        ℕ
        → ℤ
        → Result ℕ
        → OpenParams
        → Core S
        → Executor C
        → Result (Unit {0})
        → (Core S × Executor C) × Result Position
    unfolding relay relayed
    validated ticks now random p c e (err x) = ((c, e), err x)
    validated ticks now random p c e (ok done) = relayed now random p c (relay ticks p e)

    -- `OpenPosition`.
    unfoldable pub open_position :
        (ticks : ℕ) (now : ℤ) (random : Result ℕ) (chain : Option ChainInstance) (p : OpenParams)
        (c : Core S) (e : Executor C)
        → (Core S × Executor C) × Result Position
    unfolding validate_open validated
    open_position ticks now random chain p c e =
        validated ticks now random p c e (validate_open crypto now p chain)
