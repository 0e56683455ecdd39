-- ===== src/Keeper/Delivery.antt =====
-- No event of the trigger engine gets lost or doubled on its way to a worker of `runChain`,
-- pkg/positionmanager/manager.go.
use dex_limit_order_manager.Prelude.{
  ℕ, ◌+◌, ◌≤◌, ◌≡◌, refl, sym, ap, ◌∙◌, Bool, false, List, [], ◌∷◌, ◌++◌, arith, length,
  length-append, append-nil, zero, suc, ◌*◌, tally, tally-append, tally-cons,
}
use dex_limit_order_manager.Prelude.Int.{ℤ}
use dex_limit_order_manager.Trigger.{TriggerEvent, TriggerEngine, on_price}
use dex_limit_order_manager.Keeper.{
  Keeper, Listener, listening, sending, stopped, Worker, Step, subscribes, update, sends, sent,
  give_up, stop, take_event, executed, executing, return, host, cancel, wait, close, History, begin,
  later, Marks, no_marks, joined, run_chain_start, idle_workers, worker_count,
}

-- The events that listeners are about to send.
abbrev pub held : Listener → List TriggerEvent
held (listening p) = []
held (sending p es) = es
held stopped = []

abbrev pub held_by : List Listener → List TriggerEvent
held_by [] = []
held_by (l ∷ ls) = held l ++ held_by ls

module _ (q : TriggerEvent → Bool) where
  -- How many events that pass the test are on their way.
  abbrev pub on_the_way : Keeper → ℕ
  on_the_way s = tally q (held_by s.listeners) + tally q s.exec_ch

  held_at :
      (before : List Listener) (l : Listener) (after : List Listener)
      → tally q (held_by (before ++ (l ∷ after)))
        ≡ tally q (held_by before) + (tally q (held l) + tally q (held_by after))
  held_at [] l after = tally-append q (held l) (held_by after) ∙ (unfold tally in omega arith)
  held_at (b ∷ bs) l after = omega (
    arith,
    tally-append q (held b) (held_by (bs ++ (l ∷ after))),
    held_at bs l after,
    tally-append q (held b) (held_by bs),
  )

  moved :
      {ls : List Listener} (before : List Listener) (l l' : Listener) (after : List Listener)
      → ls ≡ before ++ (l ∷ after)
      → tally q (held_by ls) + tally q (held l')
        ≡ tally q (held_by (before ++ (l' ∷ after))) + tally q (held l)
  moved before l l' after e = rw e (omega (arith, held_at before l after, held_at before l' after))

  none_held : tally q [] ≡ 0
  unfolding tally
  none_held = refl

  -- What a step fires is what it adds to those on their way, handed over or given up.
  Step-conserves :
      {s t : Keeper} {m : Marks}
      → Step s t m
      → on_the_way s + tally q m.fired ≡ on_the_way t + tally q m.started + tally q m.dropped
  Step-conserves {s} (subscribes p) = omega (
    arith,
    none_held,
    held_at s.listeners (listening p) [],
    ap (λ ls. tally q (held_by ls)) (append-nil s.listeners),
  )
  Step-conserves {s} (update before after p price e) = omega (
    arith,
    none_held,
    moved before (listening p) (sending p (on_price s.trigger p price).1) after e,
  )
  Step-conserves {s} (sends before after p e es at_ room open_) = omega (
    arith,
    none_held,
    moved before (sending p (e ∷ es)) (sending p es) after at_,
    tally-cons q e es,
    tally-append q s.exec_ch (e ∷ []),
    tally-cons q e [],
  )
  Step-conserves (sent before after p e) =
      omega (arith, none_held, moved before (sending p []) (listening p) after e)
  Step-conserves (give_up before after p es e d) =
      omega (arith, none_held, moved before (sending p es) (listening p) after e)
  Step-conserves (stop before after p e) =
      omega (arith, none_held, moved before (listening p) stopped after e)
  Step-conserves {s} (take_event before after e es w full) =
      omega (arith, none_held, ap (tally q) full, tally-cons q e es, tally-cons q e [])
  Step-conserves (executed before after e trigger w) = omega (arith, none_held)
  Step-conserves (return before after w d) = omega (arith, none_held)
  Step-conserves (host trigger) = omega (arith, none_held)
  Step-conserves cancel = omega (arith, none_held)
  Step-conserves (wait ls ws n) = omega (arith, none_held)
  Step-conserves (close w open_) = omega (arith, none_held)

  history-tally :
      {s t : Keeper} {m : Marks}
      → History s t m
      → on_the_way s + tally q m.fired ≡ on_the_way t + tally q m.started + tally q m.dropped
  history-tally begin = omega (arith, none_held)
  history-tally (later {m = m} {n = n} h x) = omega (
    arith,
    history-tally h,
    Step-conserves x,
    tally-append q m.fired n.fired,
    tally-append q m.started n.started,
    tally-append q m.dropped n.dropped,
  )

-- The channel never holds more than its buffer, as many workers as were started are there, and
-- events are only given up once the context is done.
pub record IsSound (workers : ℕ) (s : Keeper) (m : Marks) : Type 0 where
  pub room : s.capacity ≡ workers * 4
  pub fits : length s.exec_ch ≤ s.capacity
  pub pool : length s.workers ≡ workers
  pub kept : s.done ≡ false → m.dropped ≡ []

length_at :
    {ws : List Worker} (before : List Worker) (w w' : Worker) (after : List Worker)
    → ws ≡ before ++ (w ∷ after)
    → length (before ++ (w' ∷ after)) ≡ length ws
length_at before w w' after e =
    rw e (omega (arith, length-append before (w ∷ after), length-append before (w' ∷ after)))

-- A step that gives up nothing, ends no context and sends nothing.
quiet :
    {s t : Keeper} {k : ℕ} {m : Marks} (n : Marks)
    → IsSound k s m
    → n.dropped ≡ []
    → t.capacity ≡ s.capacity
    → length t.exec_ch ≤ length s.exec_ch
    → length t.workers ≡ length s.workers
    → t.done ≡ s.done
    → IsSound k t (joined m n)
quiet {m = m} n i nothing size shorter pool same = record {
  room = size ∙ i.room;
  fits = omega (arith, i.fits);
  pool = pool ∙ i.pool;
  kept = λ d. rw nothing (append-nil m.dropped ∙ i.kept (sym same ∙ d));
}

pub Step-IsSound :
    {s t : Keeper} {k : ℕ} {m n : Marks} → IsSound k s m → Step s t n → IsSound k t (joined m n)
Step-IsSound i (subscribes p) = quiet _ i refl refl (omega arith) refl refl
Step-IsSound i (update before after p price e) = quiet _ i refl refl (omega arith) refl refl
Step-IsSound {s} {m = m} i (sends before after p e es at_ room open_) = record {
  room = i.room;
  fits = omega (arith, length-append s.exec_ch (e ∷ []));
  pool = i.pool;
  kept = λ d. append-nil m.dropped ∙ i.kept d;
}
Step-IsSound i (sent before after p e) = quiet _ i refl refl (omega arith) refl refl
Step-IsSound i (give_up before after p es e d) = record {
  room = i.room;
  fits = i.fits;
  pool = i.pool;
  kept = λ going. cc;
}
Step-IsSound i (stop before after p e) = quiet _ i refl refl (omega arith) refl refl
Step-IsSound i (take_event before after e es w full) =
    quiet _ i refl refl (omega (arith, ap length full))
      (length_at before Worker.idle (executing e) after w) refl
Step-IsSound i (executed before after e trigger w) =
    quiet _ i refl refl (omega arith) (length_at before (executing e) Worker.idle after w) refl
Step-IsSound i (return before after w d) =
    quiet _ i refl refl (omega arith) (length_at before Worker.idle Worker.returned after w) refl
Step-IsSound i (host trigger) = quiet _ i refl refl (omega arith) refl refl
Step-IsSound i cancel = record { room = i.room; fits = i.fits; pool = i.pool; kept = λ d. cc }
Step-IsSound i (wait ls ws n) = quiet _ i refl refl (omega arith) refl refl
Step-IsSound i (close w open_) = quiet _ i refl refl (omega arith) refl refl

pub history-IsSound :
    {s t : Keeper} {k : ℕ} {m : Marks} → IsSound k s no_marks → History s t m → IsSound k t m
history-IsSound i begin = i
history-IsSound i (later h x) = Step-IsSound (history-IsSound i h) x

length-idle : (n : ℕ) → length (idle_workers n) ≡ n
length-idle zero = refl
length-idle (suc n) = ap suc (length-idle n)

pub start-IsSound :
    (trigger : TriggerEngine) (workers : ℤ)
    → IsSound (worker_count workers) (run_chain_start trigger workers) no_marks
unfolding run_chain_start
start-IsSound trigger workers = record {
  room = refl;
  fits = omega arith;
  pool = length-idle (worker_count workers);
  kept = λ d. refl;
}

-- After any steps of the keeper loop of a chain, each event that the engine has fired for an update
-- is in exactly one place, as often as it has been fired: given to a worker, in the channel, with a
-- listener that is about to send it, or given up; and none is given up before the context is done.
-- The channel holds at most four events for each worker, and the pool has the workers configured.
pub history-conserves :
    (trigger : TriggerEngine) (workers : ℤ) {t : Keeper} {m : Marks}
    → History (run_chain_start trigger workers) t m
    → ((q : TriggerEvent → Bool)
        → tally q m.fired
          ≡ tally q m.started
            + tally q t.exec_ch
            + tally q (held_by t.listeners)
            + tally q m.dropped)
      × (t.done ≡ false → m.dropped ≡ [])
      × (length t.exec_ch ≤ worker_count workers * 4)
      × (length t.workers ≡ worker_count workers)
unfolding run_chain_start
history-conserves trigger workers h =
    let sound = history-IsSound (start-IsSound trigger workers) h in
    (
      λ q. omega (arith, none_held q, history-tally q h),
      sound.kept,
      omega (arith, sound.fits, sound.room),
      sound.pool,
    )
