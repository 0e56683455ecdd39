-- ===== src/Startup.antt =====
-- The start of `Run` of pkg/positionmanager/manager.go: the active positions of each chain are listed,
-- and their triggers registered; and `ensurePairSubscribed`, with which later positions join.
pub mod Loaded
pub mod Tests
use dex_limit_order_manager.Prelude.{
  ℕ, ◌+◌, ◌≡◌, Bool, true, false, Option, none, some, List, [], ◌∷◌, ◌==◌, if◌then◌else◌, any,
}
use dex_limit_order_manager.Types.{TokenPair, Position, pair_of, pair_eq}
use dex_limit_order_manager.Errors.{Error, Result, ok, err}
use dex_limit_order_manager.Trigger.{TriggerEngine}
use dex_limit_order_manager.Store.{Store}
use dex_limit_order_manager.Manager.{Core, register_position_triggers}

-- The loop of `Run` over the positions of a chain.
unfoldable pub load_positions : TriggerEngine → List Position → TriggerEngine
unfolding register_position_triggers
load_positions e [] = e
load_positions e (p ∷ ps) = load_positions (register_position_triggers p e) ps

-- The loop of `uniquePairs`, with the pairs seen so far.
unfoldable pub unseen_pairs : List TokenPair → List Position → List TokenPair
unfolding any
unseen_pairs seen [] = []
unseen_pairs seen (p ∷ ps) =
    if any (pair_eq (pair_of p)) seen
    then unseen_pairs seen ps
    else pair_of p ∷ unseen_pairs (pair_of p ∷ seen) ps

-- `uniquePairs`.
abbrev pub unique_pairs : List Position → List TokenPair
unique_pairs ps = unseen_pairs [] ps

-- The pairs of each chain.
abbrev pub ChainPairs : Type 0
ChainPairs = List (ℕ × List TokenPair)

-- What `Run` does with the answer of `ListActive` for a chain; `rest` goes on with the other chains.
chain_loaded :
    {S : Type 0}
    → Core S
    → ℕ
    → Result (List Position)
    → (Core S → (Core S × ChainPairs) × Option Error)
    → (Core S × ChainPairs) × Option Error
unfolding load_positions unseen_pairs
chain_loaded c id (err x) rest = ((c, []), some x)
chain_loaded c id (ok ps) rest =
    let ((c', pairs), failure) = rest (record c { trigger = load_positions c.trigger ps }) in
    ((c', (id, unique_pairs ps) ∷ pairs), failure)

-- The loop of `Run` over the chains, in the order in which Go visits them. On an error the triggers of
-- the chains before stay registered.
unfoldable pub load_chains :
    {S : Type 0} → Store S → Core S → List ℕ → (Core S × ChainPairs) × Option Error
unfolding chain_loaded
load_chains db c [] = ((c, []), none)
load_chains db c (id ∷ ids) =
    chain_loaded c id (db.list_active c.store id) (λ c'. load_chains db c' ids)

-- `pairSubs`, which is nil before `Run`, and the chains whose channel has been made.
pub record Subscriptions : Type 0 where
  pub pairs : Option (ℕ → Option (List TokenPair))
  pub ready : ℕ → Bool

marked :
    Subscriptions
    → (ℕ → Option (List TokenPair))
    → ℕ
    → TokenPair
    → Option (List TokenPair)
    → Subscriptions × Bool
unfolding any
marked s subs chain pair none = (s, false)
marked s subs chain pair (some ps) =
    if any (pair_eq pair) ps
    then (s, false)
    else if s.ready chain
    then (record s { pairs = some (λ k. if k == chain then some (pair ∷ ps) else subs k) }, true)
    else (s, false)

-- `ensurePairSubscribed`, and whether it goes on to `subscribePair`: the pair is marked before that,
-- and stays so if the subscription fails.
unfoldable pub ensure_pair_subscribed : Subscriptions → ℕ → TokenPair → Subscriptions × Bool
unfolding marked
ensure_pair_subscribed s chain pair = elim s.pairs [
  | none ↦ (s, false)
  | some subs ↦ marked s subs chain pair (subs chain)
]
