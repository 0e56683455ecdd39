-- ===== src/Keeper/Shutdown.antt =====
-- How the keeper loop of a chain ends, `runChain` of pkg/positionmanager/manager.go.
use dex_limit_order_manager.Prelude.{
  ℕ, suc, ◌<◌, ◌≡◌, ◌≢◌, refl, sym, ap, ◌∙◌, Bool, true, false, List, [], ◌∷◌, ◌++◌, arith, length,
  Bool-cases, inl, inr, append-nil, append_assoc, All, All-map, zero, subst,
}
use dex_limit_order_manager.Prelude.Int.{ℤ}
use dex_limit_order_manager.Trigger.{TriggerEngine}
use dex_limit_order_manager.Keeper.{
  Keeper, Listener, listening, sending, stopped, Worker, idle, executing, returned, Step,
  subscribes, update, sends, sent, give_up, stop, take_event, executed, return, host, cancel, wait,
  close, History, begin, later, Marks, no_marks, run_chain_start, idle_workers, worker_count,
  is_stopped, is_returned, all_stopped, all_returned,
}
use dex_limit_order_manager.Keeper.Delivery.{IsSound, history-IsSound, start-IsSound}

running :
    (before : List Listener) (l : Listener) (after : List Listener)
    → is_stopped l ≡ false
    → all_stopped (before ++ (l ∷ after)) ≡ false
running [] l after h = rw h
running (b ∷ bs) l after h = ground (arith, running bs l after h)

working :
    (before : List Worker) (w : Worker) (after : List Worker)
    → is_returned w ≡ false
    → all_returned (before ++ (w ∷ after)) ≡ false
working [] w after h = rw h
working (b ∷ bs) w after h = ground (arith, working bs w after h)

-- The end of a list of goroutines that have returned joins the beginning.
all_stopped-snoc :
    (ls : List Listener) → all_stopped ls ≡ true → all_stopped (ls ++ (stopped ∷ [])) ≡ true
all_stopped-snoc [] h = refl
all_stopped-snoc (l ∷ ls) h = ground (arith, all_stopped-snoc ls)

all_returned-snoc :
    (ws : List Worker) → all_returned ws ≡ true → all_returned (ws ++ (returned ∷ [])) ≡ true
all_returned-snoc [] h = refl
all_returned-snoc (w ∷ ws) h = ground (arith, all_returned-snoc ws)

-- Some steps from `s` on close the channel.
abbrev pub Closes : Keeper → Type 0
Closes s = (t : Keeper) × (m : Marks) × History s t m × (t.closed ≡ true)

module _ {s : Keeper} where
  return_all :
      (before after : List Worker) {t : Keeper} {m : Marks}
      → History s t m
      → t.workers ≡ before ++ after
      → all_returned before ≡ true
      → all_stopped t.listeners ≡ true
      → t.done ≡ true
      → t.closed ≡ false
      → Closes s
  return_all before [] {t} h e b l d c = elim (Bool-cases t.waited) [
    | inl y ↦ (_, _, later h (close y c), refl)
    | inr n ↦ (_, _, later (later h (wait l (rw (e, append-nil before) b) n)) (close refl c), refl)
  ]
  return_all before (returned ∷ ws) h e b l d c =
      return_all (before ++ (returned ∷ [])) ws h (e ∙ sym (append_assoc before (returned ∷ []) ws))
        (all_returned-snoc before b) l d c
  return_all before (idle ∷ ws) h e b l d c =
      return_all (before ++ (returned ∷ [])) ws (later h (return before ws e d))
        (sym (append_assoc before (returned ∷ []) ws)) (all_returned-snoc before b) l d c
  return_all before (executing x ∷ ws) {t} h e b l d c =
      return_all (before ++ (returned ∷ [])) ws
        (later (later h (executed before ws x t.trigger e)) (return before ws refl d))
        (sym (append_assoc before (returned ∷ []) ws)) (all_returned-snoc before b) l d c

  stop_all :
      (before after : List Listener) {t : Keeper} {m : Marks}
      → History s t m
      → t.listeners ≡ before ++ after
      → all_stopped before ≡ true
      → t.done ≡ true
      → t.closed ≡ false
      → Closes s
  stop_all before [] {t} h e b d c =
      return_all [] t.workers h refl refl (rw (e, append-nil before) b) d c
  stop_all before (stopped ∷ ls) h e b d c =
      stop_all (before ++ (stopped ∷ [])) ls h (e ∙ sym (append_assoc before (stopped ∷ []) ls))
        (all_stopped-snoc before b) d c
  stop_all before (listening p ∷ ls) h e b d c =
      stop_all (before ++ (stopped ∷ [])) ls (later h (stop before ls p e))
        (sym (append_assoc before (stopped ∷ []) ls)) (all_stopped-snoc before b) d c
  stop_all before (sending p es ∷ ls) h e b d c =
      stop_all (before ++ (stopped ∷ [])) ls
        (later (later h (give_up before ls p es e d)) (stop before ls p refl))
        (sym (append_assoc before (stopped ∷ []) ls)) (all_stopped-snoc before b) d c

-- Wherever the goroutines of a chain stand when the context is done, be it with a full channel, they
-- can all go on to return, and `runChain` to close the channel: none is stuck for ever.
pub shutdown-completes : (s : Keeper) → s.done ≡ true → s.closed ≡ false → Closes s
shutdown-completes s d c = stop_all [] s.listeners begin refl refl d c

All-swap :
    (P : Worker → Type 0) (before : List Worker) (w w' : Worker) (after : List Worker)
    → All P (before ++ (w ∷ after))
    → P w'
    → All P (before ++ (w' ∷ after))
All-swap P [] w w' after h x = (x, h.1)
All-swap P (b ∷ bs) w w' after h x = (h.0, All-swap P bs w w' after h.1 x)

-- No pair is subscribed once `runChain` has waited for the goroutines.
abbrev pub IsPunctual : {s t : Keeper} {m : Marks} → Step s t m → Type 0
IsPunctual {s} (subscribes p) = s.waited ≡ false
IsPunctual (update before after p price e) = Unit
IsPunctual (sends before after p x xs e room open_) = Unit
IsPunctual (sent before after p e) = Unit
IsPunctual (give_up before after p es e d) = Unit
IsPunctual (stop before after p e) = Unit
IsPunctual (take_event before after x xs e full) = Unit
IsPunctual (executed before after x trigger e) = Unit
IsPunctual (return before after e d) = Unit
IsPunctual (host trigger) = Unit
IsPunctual cancel = Unit
IsPunctual (wait ls ws n) = Unit
IsPunctual (close w open_) = Unit

abbrev pub ArePunctual : {s t : Keeper} {m : Marks} → History s t m → Type 0
ArePunctual begin = Unit
ArePunctual (later h x) = ArePunctual h × IsPunctual x

-- A worker returns only once the context is done, and the channel is closed only when all have
-- returned.
record IsOrderly (s : Keeper) : Type 0 where
  honest : All (λ w. is_returned w ≡ true → s.done ≡ true) s.workers
  shut : s.closed ≡ true → s.waited ≡ true
  over :
      s.waited ≡ true
      → (s.done ≡ true) × (all_stopped s.listeners ≡ true) × (all_returned s.workers ≡ true)

done_of_returned :
    (done : Bool) (ws : List Worker)
    → 0 < length ws
    → All (λ w. is_returned w ≡ true → done ≡ true) ws
    → all_returned ws ≡ true
    → done ≡ true
done_of_returned done [] some_ h r = absurd (omega arith)
done_of_returned done (w ∷ ws) some_ h r = h.0 (ground arith)

module _ {s : Keeper} (i : IsOrderly s) where
  -- A listener that has not returned shows that `runChain` is still to wait,
  open_of_listener :
      (before : List Listener) (l : Listener) (after : List Listener)
      → s.listeners ≡ before ++ (l ∷ after)
      → is_stopped l ≡ false
      → s.waited ≡ true
      → ⊥
  open_of_listener before l after e r c =
      cc ((i.over c).1, ap all_stopped e, running before l after r)

  -- and so does a worker.
  open_of_worker :
      (before : List Worker) (w : Worker) (after : List Worker)
      → s.workers ≡ before ++ (w ∷ after)
      → is_returned w ≡ false
      → s.waited ≡ true
      → ⊥
  open_of_worker before w after e r c =
      cc ((i.over c).2, ap all_returned e, working before w after r)

  swapped-honest :
      (before : List Worker) (w w' : Worker) (after : List Worker)
      → s.workers ≡ before ++ (w ∷ after)
      → (is_returned w' ≡ true → s.done ≡ true)
      → All (λ x. is_returned x ≡ true → s.done ≡ true) (before ++ (w' ∷ after))
  swapped-honest before w w' after e x =
      All-swap (λ v. is_returned v ≡ true → s.done ≡ true) before w w' after
        (subst (All (λ v. is_returned v ≡ true → s.done ≡ true)) e i.honest) x

Step-IsOrderly :
    {s t : Keeper} {m : Marks}
    → 0 < length s.workers
    → IsOrderly s
    → (x : Step s t m) → IsPunctual x
    → IsOrderly t
Step-IsOrderly some_ i (subscribes p) h = record {
  honest = i.honest;
  shut = i.shut;
  over = λ c. absurd (cc (c, h));
}
Step-IsOrderly some_ i (update before after p price e) u = record {
  honest = i.honest;
  shut = i.shut;
  over = λ c. absurd (open_of_listener i before (listening p) after e refl c);
}
Step-IsOrderly some_ i (sends before after p x xs e room open_) u = record {
  honest = i.honest;
  shut = i.shut;
  over = λ c. absurd (open_of_listener i before (sending p (x ∷ xs)) after e refl c);
}
Step-IsOrderly some_ i (sent before after p e) u = record {
  honest = i.honest;
  shut = i.shut;
  over = λ c. absurd (open_of_listener i before (sending p []) after e refl c);
}
Step-IsOrderly some_ i (give_up before after p es e d) u = record {
  honest = i.honest;
  shut = i.shut;
  over = λ c. absurd (open_of_listener i before (sending p es) after e refl c);
}
Step-IsOrderly some_ i (stop before after p e) u = record {
  honest = i.honest;
  shut = i.shut;
  over = λ c. absurd (open_of_listener i before (listening p) after e refl c);
}
Step-IsOrderly some_ i (take_event before after x xs e full) u = record {
  honest = swapped-honest i before idle (executing x) after e (λ r. cc);
  shut = i.shut;
  over = λ c. absurd (open_of_worker i before idle after e refl c);
}
Step-IsOrderly some_ i (executed before after x trigger e) u = record {
  honest = swapped-honest i before (executing x) idle after e (λ r. cc);
  shut = i.shut;
  over = λ c. absurd (open_of_worker i before (executing x) after e refl c);
}
Step-IsOrderly some_ i (return before after e d) u = record {
  honest = swapped-honest i before idle returned after e (λ r. d);
  shut = i.shut;
  over = λ c. absurd (open_of_worker i before idle after e refl c);
}
Step-IsOrderly some_ i (host trigger) u = record { honest = i.honest; shut = i.shut; over = i.over }
Step-IsOrderly {s} some_ i cancel u = record {
  honest =
      All-map (λ w. is_returned w ≡ true → s.done ≡ true) (λ w. is_returned w ≡ true → true ≡ true)
        s.workers (λ w f r. refl) i.honest;
  shut = i.shut;
  over = λ c. (refl, (i.over c).1, (i.over c).2);
}
Step-IsOrderly {s} some_ i (wait ls ws n) u = record {
  honest = i.honest;
  shut = λ c. refl;
  over = λ c. (done_of_returned s.done s.workers some_ i.honest ws, ls, ws);
}
Step-IsOrderly some_ i (close w open_) u = record {
  honest = i.honest;
  shut = λ c. w;
  over = i.over;
}

module _ {s : Keeper} {k : ℕ} (sound : IsSound k s no_marks) (busy : 0 < k) where
  history-IsOrderly :
      {t : Keeper} {m : Marks} → IsOrderly s → (h : History s t m) → ArePunctual h → IsOrderly t
  history-IsOrderly i begin u = i
  history-IsOrderly i (later h x) u =
      Step-IsOrderly (omega (arith, (history-IsSound sound h).pool)) (history-IsOrderly i h u.0) x
        u.1

idle-honest : (n : ℕ) → All (λ w. is_returned w ≡ true → false ≡ true) (idle_workers n)
idle-honest zero = tt
idle-honest (suc n) = (λ r. r, idle-honest n)

start-IsOrderly :
    (trigger : TriggerEngine) (workers : ℤ) → IsOrderly (run_chain_start trigger workers)
unfolding run_chain_start
start-IsOrderly trigger workers = record {
  honest = idle-honest (worker_count workers);
  shut = λ c. cc;
  over = λ c. cc;
}

worker_count-pos : (workers : ℤ) → 0 < worker_count workers
worker_count-pos workers = ground arith

-- Provided that no pair is subscribed after `runChain` has waited for its goroutines: when it has
-- closed the channel, whatever else has happened before, its context is done, every worker has
-- returned, and no listener is left, so that nothing is sent on the closed channel.
pub closed-quiet :
    (trigger : TriggerEngine) (workers : ℤ) {t : Keeper} {m : Marks}
    (h : History (run_chain_start trigger workers) t m)
    → ArePunctual h
    → t.closed ≡ true
    → (t.done ≡ true)
      × (all_returned t.workers ≡ true)
      × ((before after : List Listener) (l : Listener)
          → is_stopped l ≡ false
          → t.listeners ≢ before ++ (l ∷ after))
closed-quiet trigger workers h u c =
    let i =
      history-IsOrderly (start-IsSound trigger workers) (worker_count-pos workers)
        (start-IsOrderly trigger workers) h u in
    let w = i.shut c in
    ((i.over w).0, (i.over w).2, λ before after l r e. open_of_listener i before l after e r w)
