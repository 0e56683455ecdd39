-- ===== src/Config/Tests.antt =====
-- `New` and the defaults of pkg/positionmanager/config.go on concrete configurations.
use dex_limit_order_manager.Prelude.{ℕ, ◌≡◌, refl, Option, none, some, [], ◌∷◌}
use dex_limit_order_manager.Errors.{err, client_required}
use dex_limit_order_manager.Config.{
  ChainConfig, ethereum_defaults, base_defaults, ChainInstance, Config, new_manager,
}
use dex_limit_order_manager.Config.Complete.{
  ids_when, is_complete, executor_ids, new_manager-is_complete,
}

abbrev on_chain : Option ℕ → ChainConfig → ChainInstance ℕ ℕ
on_chain client config = record {
  client = client;
  keeper_key = some 1;
  executor_address = 2;
  config = config;
}

abbrev two_chains : Config ℕ ℕ ℕ ℕ ℕ
two_chains = record {
  store = some 1;
  price_feed = some 2;
  fee_provider = some 3;
  chains = (1, on_chain (some 4) ethereum_defaults) ∷ (8453, on_chain (some 5) base_defaults) ∷ [];
}

new_manager-is_complete_example :
    executor_ids (new_manager two_chains) ≡ ids_when (is_complete two_chains) two_chains.chains
new_manager-is_complete_example = new_manager-is_complete two_chains

two_executors : executor_ids (new_manager two_chains) ≡ some (1 ∷ 8453 ∷ [])
unfolding executor_ids new_manager
two_executors = refl

abbrev without_client : Config ℕ ℕ ℕ ℕ ℕ
without_client = record two_chains {
  chains = (1, on_chain (some 4) ethereum_defaults) ∷ (8453, on_chain none base_defaults) ∷ [];
}

client_missing : new_manager without_client ≡ err (client_required 8453)
unfolding new_manager
client_missing = refl
