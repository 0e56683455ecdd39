-- ===== src/Config/Complete.antt =====
-- What `New` of pkg/positionmanager/manager.go asks of a configuration, and the executors it makes.
use dex_limit_order_manager.Prelude.{
  ℕ, ◌≡◌, refl, ap, ◌∙◌, Bool, true, false, ◌&&◌, Option, none, some, List, [], ◌∷◌,
}
use dex_limit_order_manager.Errors.{Result, ok, err, ◌>>=◌}
use dex_limit_order_manager.Trigger.{new_engine}
use dex_limit_order_manager.Executor.{Executor, new_executor}
use dex_limit_order_manager.Config.{
  ChainConfig, ChainInstance, Config, NewManager, chain_executor, make_executors, new_manager,
}

is_given {ℓ} : {A : Type ℓ} → Option A → Bool
is_given none = false
is_given (some a) = true

ids : {A : Type 0} → List (ℕ × A) → List ℕ
ids [] = []
ids ((id, a) ∷ rest) = id ∷ ids rest

has_chains : {A : Type 0} → List A → Bool
has_chains [] = false
has_chains (c ∷ chains) = true

add_id : ℕ → Option (List ℕ) → Option (List ℕ)
add_id id none = none
add_id id (some xs) = some (id ∷ xs)

made_ids : {C : Type 0} → Result (List (ℕ × Executor C)) → Option (List ℕ)
unfolding ids
made_ids (err x) = none
made_ids (ok es) = some (ids es)

-- The chains that a new manager has executors for, none for an error.
unfoldable pub executor_ids : {S F P C : Type 0} → Result (NewManager S F P C) → Option (List ℕ)
unfolding ids
executor_ids (err x) = none
executor_ids (ok m) = some (ids m.executors)

module _ {C K : Type 0} where
  all_ready : List (ℕ × ChainInstance C K) → Bool
  unfolding is_given
  all_ready [] = true
  all_ready ((id, ci) ∷ chains) = is_given ci.client && (is_given ci.keeper_key && all_ready chains)

  unfoldable pub ids_when : Bool → List (ℕ × ChainInstance C K) → Option (List ℕ)
  unfolding ids
  ids_when false chains = none
  ids_when true chains = some (ids chains)

  with_first :
      (id : ℕ) (e : Executor C) (made : Result (List (ℕ × Executor C))) (ready : Bool)
      (chains : List (ℕ × ChainInstance C K))
      → made_ids made ≡ ids_when ready chains
      → (ci : ChainInstance C K)
      → made_ids (made >>= (λ es. ok ((id, e) ∷ es))) ≡ ids_when ready ((id, ci) ∷ chains)
  unfolding made_ids ids_when ids add_id
  with_first id e (err x) false chains h ci = refl
  with_first id e (err x) true chains h ci = cc
  with_first id e (ok es) false chains h ci = cc
  with_first id e (ok es) true chains h ci = ap (add_id id) h

  chain_of : Option C → Option K → ℕ → ChainConfig → ChainInstance C K
  chain_of l k a c = record { client = l; keeper_key = k; executor_address = a; config = c }

  make_first :
      (id : ℕ) (l : Option C) (k : Option K) (a : ℕ) (c : ChainConfig)
      (chains : List (ℕ × ChainInstance C K))
      → made_ids (make_executors chains) ≡ ids_when (all_ready chains) chains
      → made_ids (make_executors ((id, chain_of l k a c) ∷ chains))
        ≡ ids_when (all_ready ((id, chain_of l k a c) ∷ chains)) ((id, chain_of l k a c) ∷ chains)
  unfolding make_executors made_ids ids_when all_ready is_given chain_executor chain_of
  make_first id none k a c chains h = refl
  make_first id (some l) none a c chains h = refl
  make_first id (some l) (some k) a c chains h =
      with_first id (new_executor l c.circuit_breaker) (make_executors chains) (all_ready chains)
        chains h (chain_of (some l) (some k) a c)

  make_executors-all_ready :
      (chains : List (ℕ × ChainInstance C K))
      → made_ids (make_executors chains) ≡ ids_when (all_ready chains) chains
  unfolding make_executors made_ids ids_when all_ready ids chain_of
  make_executors-all_ready [] = refl
  make_executors-all_ready ((id, ci) ∷ chains) =
      make_first id ci.client ci.keeper_key ci.executor_address ci.config chains
        (make_executors-all_ready chains)

from_made :
    {S F P C : Type 0} (s : S) (f : F) (p : P) (made : Result (List (ℕ × Executor C)))
    → executor_ids (
        made >>= (λ es. ok (record {
          store = s;
          price_feed = f;
          fee_provider = p;
          trigger = new_engine;
          executors = es;
        })))
      ≡ made_ids made
unfolding executor_ids made_ids
from_made s f p (err x) = refl
from_made s f p (ok es) = refl

module _ {S F P C K : Type 0} where
  -- Nothing that `New` needs is nil, and there is a chain.
  unfoldable pub is_complete : Config S F P C K → Bool
  unfolding is_given has_chains all_ready
  is_complete cfg =
      is_given cfg.store
      && (is_given cfg.price_feed
          && (is_given cfg.fee_provider && (has_chains cfg.chains && all_ready cfg.chains)))

  config_of_parts : Option S → Option F → Option P → List (ℕ × ChainInstance C K) → Config S F P C K
  config_of_parts s f p chains = record {
    store = s;
    price_feed = f;
    fee_provider = p;
    chains = chains;
  }

  new_from :
      (s : Option S) (f : Option F) (p : Option P) (chains : List (ℕ × ChainInstance C K))
      → executor_ids (new_manager (config_of_parts s f p chains))
        ≡ ids_when (is_complete (config_of_parts s f p chains)) chains
  unfolding config_of_parts new_manager is_complete executor_ids ids_when is_given has_chains
  new_from none f p chains = refl
  new_from (some s) none p chains = refl
  new_from (some s) (some f) none chains = refl
  new_from (some s) (some f) (some p) [] = refl
  new_from (some s) (some f) (some p) (c ∷ chains) =
      from_made s f p (make_executors (c ∷ chains)) ∙ make_executors-all_ready (c ∷ chains)

  -- `New` succeeds exactly on a configuration whose store, price feed and fee provider are given and
  -- that has a chain, each chain with a client and a key; it makes an executor for each of its chains.
  pub new_manager-is_complete :
      (cfg : Config S F P C K)
      → executor_ids (new_manager cfg) ≡ ids_when (is_complete cfg) cfg.chains
  unfolding config_of_parts
  new_manager-is_complete cfg = new_from cfg.store cfg.price_feed cfg.fee_provider cfg.chains
