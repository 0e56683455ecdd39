-- ===== src/Locks.antt =====
-- `positionLockMap` of pkg/positionmanager/manager.go, the executions that use it, and
-- `CleanupClosedPositionLocks`. An execution takes the map's own mutex only to look the position's
-- mutex up, and waits for that one afterwards, so these are two steps.
pub mod Map
pub mod Exclusion
pub mod Tests
use dex_limit_order_manager.Prelude.{
  ℕ, zero, suc, ◌+◌, ◌≡◌, ◌≢◌, Bool, true, false, not, ◌&&◌, Option, none, some, List, [], ◌∷◌,
  ◌++◌, ◌==◌, if◌then◌else◌, keep, any, map, length,
}
use dex_limit_order_manager.Types.{Position}
use dex_limit_order_manager.Errors.{Result, ok, err, nil_pointer, unlocked_mutex, ◌>>=◌}

-- The mutexes are numbered as they are made; `locks` maps positions to theirs.
pub record Locks : Type 0 where
  pub locks : List (ℕ × ℕ)
  pub locked : ℕ → Bool
  pub made : ℕ

abbrev pub no_locks : Locks
no_locks = record { locks = []; locked = λ m. false; made = 0 }

unfoldable pub write : {A : Type 0} → (ℕ → A) → ℕ → A → ℕ → A
write f i x j = if j == i then x else f j

unfoldable pub find_lock : List (ℕ × ℕ) → ℕ → Option ℕ
find_lock [] id = none
find_lock (e ∷ es) id = let rest = find_lock es id in if e.0 == id then some e.1 else rest

made_or_found : Locks → ℕ → Option ℕ → Locks × ℕ
unfolding write
made_or_found s id (some m) = (s, m)
made_or_found s id none = (
  record {
    locks = (id, s.made) ∷ s.locks;
    locked = write s.locked s.made false;
    made = s.made + 1;
  },
  s.made,
)

-- The first half of `Lock`: the mutex of the position, made if there is none.
unfoldable pub lock_of : Locks → ℕ → Locks × ℕ
unfolding made_or_found find_lock
lock_of s id = made_or_found s id (find_lock s.locks id)

unlocked : Locks → Option ℕ → Result Locks
unfolding write
unlocked s none = err nil_pointer
unlocked s (some m) =
    if s.locked m then ok (record s { locked = write s.locked m false }) else err unlocked_mutex

-- `Unlock`, which looks the mutex up again.
unfoldable pub unlock : Locks → ℕ → Result Locks
unfolding unlocked find_lock
unlock s id = unlocked s (find_lock s.locks id)

abbrev pub drop_lock : List (ℕ × ℕ) → ℕ → List (ℕ × ℕ)
drop_lock es id = keep (λ e. not (e.0 == id)) es

abbrev deleted : List (ℕ × ℕ) → ℕ → Option ℕ → List (ℕ × ℕ) × ℕ
deleted es id none = (es, 0)
deleted es id (some m) = (drop_lock es id, 1)

-- `Cleanup`: the map without the positions, and how many it had.
unfoldable pub cleanup : List (ℕ × ℕ) → List ℕ → List (ℕ × ℕ) × ℕ
unfolding find_lock keep
cleanup es [] = (es, 0)
cleanup es (id ∷ ids) =
    let (es', n) = deleted es id (find_lock es id) in
    let (es'', k) = cleanup es' ids in (es'', n + k)

-- The IDs in the map that are not among the active positions of a chain, for one chain after another.
unfoldable pub terminal_ids : List ℕ → List (Result (List Position)) → Result (List ℕ)
unfolding keep any
terminal_ids ids [] = ok []
terminal_ids ids (r ∷ rs) = do
  active ← r
  later ← terminal_ids ids rs
  ok (keep (λ id. not (any (λ p. p.id == id) active)) ids ++ later)

-- `CleanupClosedPositionLocks`, given what `ListActive` answers for each chain.
unfoldable pub cleanup_closed : Locks → List (Result (List Position)) → Result (Locks × ℕ)
unfolding terminal_ids cleanup
cleanup_closed s answers = do
  ids ← terminal_ids (map (λ e. e.0) s.locks) answers
  let (es, n) = cleanup s.locks ids
  ok (record s { locks = es }, n)

-- Where an execution stands.
pub data Pc : Type 0 where
  idle : Pc
  waiting : (id m : ℕ) → Pc
  inside : (id m : ℕ) → Pc

pub record System : Type 0 where
  pub shared : Locks
  pub pc : ℕ → Pc

abbrev pub start : System
start = record { shared = no_locks; pc = λ i. idle }

-- Nobody waits for the mutex of the position or holds it.
abbrev pub is_about : Pc → ℕ → Bool
is_about idle id = false
is_about (waiting id' m) id = id' == id
is_about (inside id' m) id = id' == id

abbrev pub fetched : System → ℕ → ℕ → System
fetched s i id =
    let (l, m) = lock_of s.shared id in record { shared = l; pc = write s.pc i (waiting id m) }

abbrev pub entered : System → ℕ → ℕ → ℕ → System
entered s i id m = record {
  shared = record s.shared { locked = write s.shared.locked m true };
  pc = write s.pc i (inside id m);
}

abbrev pub left : System → ℕ → Locks → System
left s i l = record { shared = l; pc = write s.pc i idle }

abbrev pub cleaned : System → List ℕ → System
cleaned s ids = record s { shared = record s.shared { locks = (cleanup s.shared.locks ids).0 } }

-- A step of some execution, or a cleanup of some positions, which does not look for executions.
pub data Step (s : System) : System → Type 0 where
  fetch : (i id : ℕ) → s.pc i ≡ idle → Step s (fetched s i id)
  enter :
      (i id m : ℕ) → s.pc i ≡ waiting id m → s.shared.locked m ≡ false → Step s (entered s i id m)
  leave :
      (i id m : ℕ) (l : Locks)
      → s.pc i ≡ inside id m
      → unlock s.shared id ≡ ok l
      → Step s (left s i l)
  clean : (ids : List ℕ) → Step s (cleaned s ids)

pub data Reach : System → Type 0 where
  begin : Reach start
  later : {s t : System} → Reach s → Step s t → Reach t

-- A cleanup is of positions that no execution is about, as the comment on `Cleanup` asks.
abbrev pub IsUnused : System → List ℕ → Type 0
IsUnused s ids = (i id : ℕ) → any (λ x. x == id) ids ≡ true → is_about (s.pc i) id ≡ false

abbrev pub IsCareful : {s t : System} → Step s t → Type 0
IsCareful (fetch i id here) = Unit
IsCareful (enter i id m here free) = Unit
IsCareful (leave i id m l here unlocks) = Unit
IsCareful {s} (clean ids) = IsUnused s ids

abbrev pub AreCareful : {s : System} → Reach s → Type 0
AreCareful begin = Unit
AreCareful (later r x) = AreCareful r × IsCareful x
