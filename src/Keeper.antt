-- ===== src/Keeper.antt =====
-- The keeper loop of a chain in pkg/positionmanager/manager.go: `runChain` with its workers,
-- `subscribePair` with its listeners, and `handlePriceUpdate`. Goroutines share the trigger engine, a
-- buffered channel of events and the context, and each step is what one of them does without waiting.
-- A listener that finds both its context done and something to do may go either way, as in Go.
pub mod Delivery
pub mod Shutdown
pub mod Tests
use dex_limit_order_manager.Prelude.{
  ℕ, zero, suc, ◌+◌, ◌*◌, ◌<◌, ◌≡◌, Bool, true, false, ◌&&◌, List, [], ◌∷◌, ◌++◌, if◌then◌else◌,
  length,
}
use dex_limit_order_manager.Prelude.Int.{ℤ, is_pos, pos_part}
use dex_limit_order_manager.Types.{TokenPair}
use dex_limit_order_manager.Trigger.{TriggerEvent, TriggerEngine, on_price}

-- A goroutine of `subscribePair`: waiting for an update, in `handlePriceUpdate` with the events that
-- are still to be sent, or returned.
pub data Listener : Type 0 where
  listening : TokenPair → Listener
  sending : TokenPair → List TriggerEvent → Listener
  stopped : Listener

-- A worker of `runChain`.
pub data Worker : Type 0 where
  idle : Worker
  executing : TriggerEvent → Worker
  returned : Worker

-- `exec_ch` is what the buffer of the channel holds; `waited` says that `runChain` has waited for the
-- workers and the listeners.
pub record Keeper : Type 0 where
  pub trigger : TriggerEngine
  pub exec_ch : List TriggerEvent
  pub capacity : ℕ
  pub listeners : List Listener
  pub workers : List Worker
  pub done : Bool
  pub waited : Bool
  pub closed : Bool

-- `ExecutorWorkers`, with its default.
abbrev pub worker_count : ℤ → ℕ
worker_count workers = if is_pos workers then pos_part workers else 4

abbrev pub idle_workers : ℕ → List Worker
idle_workers zero = []
idle_workers (suc n) = idle ∷ idle_workers n

-- `runChain` once its workers run, before any pair is subscribed.
unfoldable pub run_chain_start : TriggerEngine → ℤ → Keeper
run_chain_start trigger executor_workers = record {
  trigger = trigger;
  exec_ch = [];
  capacity = worker_count executor_workers * 4;
  listeners = [];
  workers = idle_workers (worker_count executor_workers);
  done = false;
  waited = false;
  closed = false;
}

-- What a step does to events: those that the engine fires, that a worker begins to execute, and that
-- are given up.
pub record Marks : Type 0 where
  pub fired : List TriggerEvent
  pub started : List TriggerEvent
  pub dropped : List TriggerEvent

abbrev pub no_marks : Marks
no_marks = record { fired = []; started = []; dropped = [] }

abbrev pub joined : Marks → Marks → Marks
joined m n = record {
  fired = m.fired ++ n.fired;
  started = m.started ++ n.started;
  dropped = m.dropped ++ n.dropped;
}

-- The goroutine between `before` and `after` goes on to `l`.
abbrev pub with_listener : Keeper → List Listener → Listener → List Listener → Keeper
with_listener s before l after = record s { listeners = before ++ (l ∷ after) }

abbrev pub with_worker : Keeper → List Worker → Worker → List Worker → Keeper
with_worker s before w after = record s { workers = before ++ (w ∷ after) }

-- An update has come: the first line of `handlePriceUpdate`.
abbrev pub priced : Keeper → List Listener → TokenPair → ℤ → List Listener → Keeper
priced s before p price after = record s {
  trigger = (on_price s.trigger p price).0;
  listeners = before ++ (sending p (on_price s.trigger p price).1 ∷ after);
}

abbrev pub is_stopped : Listener → Bool
is_stopped (listening p) = false
is_stopped (sending p es) = false
is_stopped stopped = true

abbrev pub is_returned : Worker → Bool
is_returned idle = false
is_returned (executing e) = false
is_returned returned = true

-- `Wait` on the wait group of the listeners, and on that of the workers, lets go.
abbrev pub all_stopped : List Listener → Bool
all_stopped [] = true
all_stopped (l ∷ ls) = is_stopped l && all_stopped ls

abbrev pub all_returned : List Worker → Bool
all_returned [] = true
all_returned (w ∷ ws) = is_returned w && all_returned ws

-- The steps of the goroutines, and of what is around them.
pub data Step (s : Keeper) : Keeper → Marks → Type 0 where
  -- A pair is subscribed, by `runChain` or at any time for a new position: `ensurePairSubscribed` does
  -- not look whether `runChain` goes on.
  subscribes :
      (p : TokenPair) → Step s (record s { listeners = s.listeners ++ (listening p ∷ []) }) no_marks
  -- A listener gets an update,
  update :
      (before after : List Listener) (p : TokenPair) (price : ℤ)
      → s.listeners ≡ before ++ (listening p ∷ after)
      → Step s
          (priced s before p price after)
          (record no_marks { fired = (on_price s.trigger p price).1 })
  -- sends an event where the channel has room (on a closed channel it panics, and there is no step),
  sends :
      (before after : List Listener) (p : TokenPair) (e : TriggerEvent) (es : List TriggerEvent)
      → s.listeners ≡ before ++ (sending p (e ∷ es) ∷ after)
      → length s.exec_ch < s.capacity
      → s.closed ≡ false
      → Step s
          (record (with_listener s before (sending p es) after) { exec_ch = s.exec_ch ++ (e ∷ []) })
          no_marks
  -- has sent all,
  sent :
      (before after : List Listener) (p : TokenPair)
      → s.listeners ≡ before ++ (sending p [] ∷ after)
      → Step s (with_listener s before (listening p) after) no_marks
  -- gives up its events since the context is done,
  give_up :
      (before after : List Listener) (p : TokenPair) (es : List TriggerEvent)
      → s.listeners ≡ before ++ (sending p es ∷ after)
      → s.done ≡ true
      → Step s (with_listener s before (listening p) after) (record no_marks { dropped = es })
  -- or returns, since the context is done or the channel of updates has been closed.
  stop :
      (before after : List Listener) (p : TokenPair)
      → s.listeners ≡ before ++ (listening p ∷ after)
      → Step s (with_listener s before stopped after) no_marks
  -- A worker takes an event,
  take_event :
      (before after : List Worker) (e : TriggerEvent) (es : List TriggerEvent)
      → s.workers ≡ before ++ (idle ∷ after)
      → s.exec_ch ≡ e ∷ es
      → Step s
          (record (with_worker s before (executing e) after) { exec_ch = es })
          (record no_marks { started = e ∷ [] })
  -- has executed it, which may have changed the engine,
  executed :
      (before after : List Worker) (e : TriggerEvent) (trigger : TriggerEngine)
      → s.workers ≡ before ++ (executing e ∷ after)
      → Step s (record (with_worker s before idle after) { trigger = trigger }) no_marks
  -- or returns.
  return :
      (before after : List Worker)
      → s.workers ≡ before ++ (idle ∷ after)
      → s.done ≡ true
      → Step s (with_worker s before returned after) no_marks
  -- The host changes the engine, or ends the context.
  host : (trigger : TriggerEngine) → Step s (record s { trigger = trigger }) no_marks
  cancel : Step s (record s { done = true }) no_marks
  -- `runChain` finds all goroutines returned, and closes the channel after that.
  wait :
      all_stopped s.listeners ≡ true
      → all_returned s.workers ≡ true
      → s.waited ≡ false
      → Step s (record s { waited = true }) no_marks
  close : s.waited ≡ true → s.closed ≡ false → Step s (record s { closed = true }) no_marks

-- What has happened up to a state, from `t` on.
pub data History (t : Keeper) : Keeper → Marks → Type 0 where
  begin : History t t no_marks
  later : {s u : Keeper} {m n : Marks} → History t s m → Step s u n → History t u (joined m n)
