-- ===== src/Lib.antt =====
-- A model of the DEX limit order manager (Go, pkg/positionmanager) and its correctness.
--
-- The program watches prices, fires stop-loss and take-profit levels of positions, swaps through an
-- executor contract and records the outcome. Its parts, and the files that model them:
--
-- * types.go (Types): positions, levels, pairs and their enums.
-- * trigger.go (Trigger): the engine that holds, per pair, one slice of triggers that fire when the
--   price rises and one for when it falls. `register`, `unregister`, `unregister_position`,
--   `update_trigger_price` and `on_price` are its methods; the mutex makes each a single step, so a
--   list of calls is any interleaving. Trigger/Search is Go's `sort.Search`, Trigger/Book the abstract
--   book of orders that the engine refines.
-- * circuitbreaker.go (CircuitBreaker): the breaker in front of the executor, as a state machine.
-- * fees.go, bps.go and `computeMinAmountOut` of executor.go (Fees): basis points over integers, with
--   the division of math/big, and the uint16 subtraction with its wrap.
-- * permit.go (Permit): the EIP-712 hash of a Permit2 permit, its signer and the checks on it, with
--   int64 and time.Duration arithmetic that wraps; the document that a wallet signs
--   (Permit/TypedData), and EIP-712 for it (Permit/Signing).
-- * executor.go (Executor, with Chain for what it exchanges with the chain and Calldata for the
--   contract calls and the logs): nonces, gas, submission, receipts and the relay of signed approvals. A
--   method is an action on the executor's state that returns a result.
-- * store.go (Store): the host's persistence, an interface with its laws.
-- * manager.go (Manager): the operations of the host on a position; they change the trigger engine
--   and the store. (Open): `OpenPosition` with its validation. (Execute): `executeTrigger`, stage by
--   stage in Execute/Stages, with (Settlement, Settlement/TakeProfit) what it computes after a swap
--   and (Retry) `storeUpdateWithRetry`. (Market): `MarketSwap`. (Startup): the loading of `Run` and
--   `ensurePairSubscribed`. (Expiry): `checkPermitExpiry`. (Locks): the
--   mutexes of positions, with the executions that take them as steps. Execute/Walk goes
--   through the branches of `executeTrigger` once for all properties. (Keeper): `runChain`,
--   `subscribePair` and `handlePriceUpdate` as steps of goroutines (Keeper/Delivery,
--   Keeper/Shutdown).
-- * pricefeed_uniswapv3.go (Feed): the subscribers of a pair and their channels (Feed/Channels,
--   Feed/Invariant, Feed/Leaving, Feed/History), the calls that come between the sends of a round
--   (Feed/Rounds, Feed/Interleaving), the pools with their prices (Feed/Pools), the
--   reads of slot0 and of the mean tick (Feed/Reads, Feed/Ticks, Feed/Twap), and the poll loop
--   (Feed/Polling).
-- * pricefeed_dual.go (Dual): the price of a pair between the chain and OKX; its subscribers and
--   listeners (Dual/Streams, Dual/Settled, Dual/History), which share the hub of Feed; the request
--   to OKX (Dual/Okx).
-- * config.go and `New` of manager.go (Config): the configuration, with the defaults of the chains.
-- * ratelimiter.go (RateLimiter): the token bucket, and the client of chain.go behind it.
--
-- The manager registers the active levels of a position with the engine, a feed's updates reach the
-- listeners of the keeper loop, the engine's events go through a channel to its workers and lead to
-- swaps by the executor, and a settlement updates position, store and engine.
--
-- Conventions: addresses, hashes and identifiers are the numbers that their bytes spell; a `*big.Int`
-- that may be nil is an option; a panic is an error; times are arguments. Machine integers keep their
-- wrap where the code computes with them. The binary search runs on as many rounds as there are
-- entries, which is enough since each round shortens its range (Trigger/Search), and the wait for a
-- receipt on the number of ticks before its context is done. The loop of `tickToPrice` has 64 rounds,
-- one more than an int64 has bits without its sign (Feed/Ticks); the other loops are structural. A step
-- is what a mutex covers; a poll loop sends to channels after it has let the mutex go.
-- Prelude has the shared lists, integers and tests on numbers.
--
-- Parameters: the chain client (chain.go and the node behind it), go-ethereum's packing, signing,
-- hashing and key recovery, HTTP, JSON, the floating-point numbers of math/big, and the host's store.
-- The rate limiter's float64 tokens are whole billionths of a token; its float64 quotient is a
-- parameter.
--
-- Not modelled: the start of the goroutines of `Run`; the log subscription of pricefeed_dual.go and the
-- rounding of its deviation, which is floating point; events, metrics and the ABI texts, which carry no
-- state; the contract, which is not Go.
pub mod Prelude
pub mod Types
pub mod Trigger
pub mod CircuitBreaker
pub mod Fees
pub mod Errors
pub mod Permit
pub mod Chain
pub mod Calldata
pub mod Executor
pub mod Store
pub mod Manager
pub mod Open
pub mod Retry
pub mod Execute
pub mod Settlement
pub mod Feed
pub mod Market
pub mod Locks
pub mod Expiry
pub mod Startup
pub mod Dual
pub mod Keeper
pub mod RateLimiter
pub mod Config
