-- ===== src/Config.antt =====
-- pkg/positionmanager/config.go, and `New` of manager.go: the configuration of a manager, the defaults
-- of three chains, and what a manager is made of. Multipliers are in hundredths, durations in
-- nanoseconds; the logger, the metrics and the callbacks of the host carry no state.
pub mod Complete
pub mod Tests
use dex_limit_order_manager.Prelude.{
  ℕ, ◌*◌, ◌^◌, ◌≡◌, Bool, true, false, Option, none, some, List, [], ◌∷◌, ◌++◌,
}
use dex_limit_order_manager.Prelude.Int.{ℤ, pos}
use Prim.Native.String.{String}
use dex_limit_order_manager.Errors.{
  Result, ok, err, store_required, price_feed_required, fee_provider_required, chains_required,
  client_required, keeper_key_required, from_option, ◌>>=◌,
}
use dex_limit_order_manager.CircuitBreaker.{CircuitBreakerConfig, seconds}
use dex_limit_order_manager.Trigger.{TriggerEngine, new_engine}
use dex_limit_order_manager.Executor.{Executor, new_executor}

-- `ChainConfig`.
pub record ChainConfig : Type 0 where
  pub chain_id : ℕ
  pub name : String
  pub block_time : ℤ
  pub executor_workers : ℤ
  pub sl_gas_percent : ℤ
  pub tp_gas_percent : ℤ
  pub max_gas_price : Option ℤ
  pub sl_slippage_bps : ℕ
  pub tp_slippage_bps : ℕ
  pub use_flashbots : Bool
  pub flashbots_relay : String
  pub max_retries : ℤ
  pub retry_gas_percent : ℤ
  pub circuit_breaker : CircuitBreakerConfig
  pub permit2_address : ℕ
  pub min_permit_lifetime : ℤ
  pub permit_expiry_warning : ℤ

-- The zero value, which stands for the default of the breaker.
abbrev pub no_breaker : CircuitBreakerConfig
no_breaker = record { max_failures = pos 0; reset_timeout = pos 0; half_open_max_attempts = pos 0 }

abbrev gwei : ℕ → Option ℤ
gwei n = some (pos (n * 10 ^ 9))

-- `EthereumDefaults`.
abbrev pub ethereum_defaults : ChainConfig
ethereum_defaults = record {
  chain_id = 1;
  name = "ethereum";
  block_time = seconds 12;
  executor_workers = pos 4;
  sl_gas_percent = pos 250;
  tp_gas_percent = pos 130;
  max_gas_price = gwei 200;
  sl_slippage_bps = 200;
  tp_slippage_bps = 50;
  use_flashbots = true;
  flashbots_relay = "https://relay.flashbots.net";
  max_retries = pos 3;
  retry_gas_percent = pos 150;
  circuit_breaker = no_breaker;
  permit2_address = 0x000000000022D473030F116dDEE9F6B43aC78BA3;
  min_permit_lifetime = seconds 3600;
  permit_expiry_warning = seconds 172_800;
}

-- `BaseDefaults`.
abbrev pub base_defaults : ChainConfig
base_defaults = record {
  chain_id = 8453;
  name = "base";
  block_time = seconds 2;
  executor_workers = pos 8;
  sl_gas_percent = pos 200;
  tp_gas_percent = pos 150;
  max_gas_price = gwei 1;
  sl_slippage_bps = 200;
  tp_slippage_bps = 50;
  use_flashbots = false;
  flashbots_relay = "";
  max_retries = pos 3;
  retry_gas_percent = pos 150;
  circuit_breaker = no_breaker;
  permit2_address = 0x000000000022D473030F116dDEE9F6B43aC78BA3;
  min_permit_lifetime = seconds 3600;
  permit_expiry_warning = seconds 172_800;
}

-- `BSCDefaults`.
abbrev pub bsc_defaults : ChainConfig
bsc_defaults = record {
  chain_id = 56;
  name = "bsc";
  block_time = seconds 3;
  executor_workers = pos 6;
  sl_gas_percent = pos 200;
  tp_gas_percent = pos 150;
  max_gas_price = gwei 5;
  sl_slippage_bps = 200;
  tp_slippage_bps = 50;
  use_flashbots = false;
  flashbots_relay = "";
  max_retries = pos 3;
  retry_gas_percent = pos 150;
  circuit_breaker = no_breaker;
  permit2_address = 0x31c2F6fcFf4F8759b3Bd5Bf0e1084A055615c768;
  min_permit_lifetime = seconds 3600;
  permit_expiry_warning = seconds 172_800;
}

-- `ChainInstance`, with a client and a key that may be nil.
pub record ChainInstance (C K : Type 0) : Type 0 where
  pub client : Option C
  pub keeper_key : Option K
  pub executor_address : ℕ
  pub config : ChainConfig

-- `Config`, with the host's parts that may be nil, and the chains in the order of an iteration.
pub record Config (S F P C K : Type 0) : Type 0 where
  pub store : Option S
  pub price_feed : Option F
  pub fee_provider : Option P
  pub chains : List (ℕ × ChainInstance C K)

-- `Manager`, as `New` makes it: the executors of the chains, and an empty trigger engine.
pub record NewManager (S F P C : Type 0) : Type 0 where
  pub store : S
  pub price_feed : F
  pub fee_provider : P
  pub trigger : TriggerEngine
  pub executors : List (ℕ × Executor C)

module _ {C K : Type 0} where
  -- The body of the loop of `New`: the state of the executor of a chain. The key, the address and the
  -- chain's configuration do not change, and are arguments of the executor's methods.
  unfoldable pub chain_executor : ℕ → ChainInstance C K → Result (Executor C)
  unfolding new_executor
  chain_executor id ci = do
    client ← from_option ci.client (client_required id)
    key ← from_option ci.keeper_key (keeper_key_required id)
    ok (new_executor client ci.config.circuit_breaker)

  -- The loop of `New` over the chains.
  unfoldable pub make_executors : List (ℕ × ChainInstance C K) → Result (List (ℕ × Executor C))
  unfolding chain_executor
  make_executors [] = ok []
  make_executors ((id, ci) ∷ chains) = do
    e ← chain_executor id ci
    es ← make_executors chains
    ok ((id, e) ∷ es)

  abbrev some_chains : List (ℕ × ChainInstance C K) → Result (List (ℕ × ChainInstance C K))
  some_chains [] = err chains_required
  some_chains (c ∷ cs) = ok (c ∷ cs)

-- `New`.
unfoldable pub new_manager : {S F P C K : Type 0} → Config S F P C K → Result (NewManager S F P C)
unfolding make_executors new_engine
new_manager cfg = do
  store ← from_option cfg.store store_required
  price_feed ← from_option cfg.price_feed price_feed_required
  fee_provider ← from_option cfg.fee_provider fee_provider_required
  chains ← some_chains cfg.chains
  executors ← make_executors chains
  ok (record {
    store = store;
    price_feed = price_feed;
    fee_provider = fee_provider;
    trigger = new_engine;
    executors = executors;
  })
