-- ===== src/Trigger.antt =====
-- pkg/positionmanager/trigger.go: the index of price triggers. An operation on the engine returns
-- the new engine; the mutex makes each operation one step. The map of pairs is an association
-- list, and `[]triggerEntry` a list.
pub mod Search
pub mod View
pub mod Sorted
pub mod Firing
pub mod History
pub mod Book
pub mod Refinement
pub mod Tests
use dex_limit_order_manager.Prelude.{
  ℕ, ◌+◌, ◌≡◌, refl, Bool, true, false, not, ◌&&◌, ◌||◌, Option, none, some, List, [], ◌∷◌, ◌++◌,
  arith, ◌==◌, if◌then◌else◌, length, keep, take, drop, map,
}
use dex_limit_order_manager.Prelude.Int.{ℤ, ltb_ℤ, leb_ℤ}
use dex_limit_order_manager.Types.{
  TokenPair, LevelType, Direction, pair_eq, is_long, is_sl, pair_eq_refl, pair_eq_iff,
}
use Search.{cutoff}

pub record TriggerEntry : Type 0 where
  pub price : ℤ
  pub position_id : ℕ
  pub level_index : ℕ
  pub level_type : LevelType

pub record TriggerEvent : Type 0 where
  pub position_id : ℕ
  pub level_index : ℕ
  pub level_type : LevelType
  pub price : ℤ
  pub chain_id : ℕ

pub record PairTriggers : Type 0 where
  pub above : List TriggerEntry
  pub below : List TriggerEntry

pub record TriggerEngine : Type 0 where
  pub pairs : List (TokenPair × PairTriggers)

abbrev pub no_triggers : PairTriggers
no_triggers = record { above = []; below = [] }

-- `NewTriggerEngine`.
unfoldable pub new_engine : TriggerEngine
new_engine = record { pairs = [] }

-- `e.pairs[pair]`.
find_pair : TokenPair → List (TokenPair × PairTriggers) → Option PairTriggers
find_pair k [] = none
find_pair k ((j, t) ∷ m) = if pair_eq j k then some t else find_pair k m

-- `e.pairs[pair] = pt`, and every write through the pointer that the map holds.
put_pair :
    TokenPair → PairTriggers → List (TokenPair × PairTriggers) → List (TokenPair × PairTriggers)
put_pair k t [] = (k, t) ∷ []
put_pair k t ((j, u) ∷ m) = if pair_eq j k then (k, t) ∷ m else (j, u) ∷ put_pair k t m

abbrev pub or_empty : Option PairTriggers → PairTriggers
or_empty none = no_triggers
or_empty (some t) = t

-- The triggers of a pair, none where the map has no entry: what `getOrCreate` returns.
unfoldable pub get_or_create : TriggerEngine → TokenPair → PairTriggers
unfolding find_pair pair_eq
get_or_create e pair = or_empty (find_pair pair e.pairs)

unfoldable pub should_trigger_above : LevelType → Direction → Bool
should_trigger_above t d = (not (is_sl t) && is_long d) || (is_sl t && not (is_long d))

-- The binary search, then the shift by one and the write at `i`.
unfoldable pub insert_sorted : List TriggerEntry → TriggerEntry → List TriggerEntry
unfolding cutoff
insert_sorted entries entry =
    let i = cutoff (λ x. ltb_ℤ entry.price x.price) entries in
    take i entries ++ (entry ∷ drop i entries)

-- The entry of a level of a position.
abbrev pub is_entry_of : ℕ → ℕ → TriggerEntry → Bool
is_entry_of pos_id level_idx e = e.position_id == pos_id && e.level_index == level_idx

unfoldable pub remove_entry : List TriggerEntry → ℕ → ℕ → List TriggerEntry
unfolding keep
remove_entry entries pos_id level_idx = keep (λ e. not (is_entry_of pos_id level_idx e)) entries

unfoldable pub remove_position_entries : List TriggerEntry → ℕ → List TriggerEntry
unfolding keep
remove_position_entries entries pos_id = keep (λ e. not (e.position_id == pos_id)) entries

abbrev pub entry_of : ℕ → ℕ → LevelType → ℤ → TriggerEntry
entry_of pos_id level_idx level_type price = record {
  price = price;
  position_id = pos_id;
  level_index = level_idx;
  level_type = level_type;
}

-- `registerLocked` on the triggers of the pair.
unfoldable pub add_trigger : PairTriggers → Bool → TriggerEntry → PairTriggers
unfolding insert_sorted
add_trigger pt is_above entry =
    if is_above
    then record pt { above = insert_sorted pt.above entry }
    else record pt { below = insert_sorted pt.below entry }

unfoldable pub register :
    TriggerEngine → TokenPair → ℕ → ℕ → LevelType → Direction → ℤ → TriggerEngine
unfolding get_or_create add_trigger should_trigger_above put_pair pair_eq
register e pair pos_id level_idx level_type direction trigger_price =
    let entry = entry_of pos_id level_idx level_type trigger_price in
    let pt = add_trigger (get_or_create e pair) (should_trigger_above level_type direction) entry in
    record { pairs = put_pair pair pt e.pairs }

-- An operation on the triggers of a pair that does nothing where the map has no entry.
abbrev change_pair : TriggerEngine → TokenPair → (PairTriggers → PairTriggers) → TriggerEngine
change_pair e pair f = elim (find_pair pair e.pairs) [
  | none ↦ e
  | some pt ↦ record { pairs = put_pair pair (f pt) e.pairs }
]

unfoldable pub drop_entry : PairTriggers → ℕ → ℕ → PairTriggers
unfolding remove_entry
drop_entry pt pos_id level_idx = record {
  above = remove_entry pt.above pos_id level_idx;
  below = remove_entry pt.below pos_id level_idx;
}

unfoldable pub drop_position : PairTriggers → ℕ → PairTriggers
unfolding remove_position_entries
drop_position pt pos_id = record {
  above = remove_position_entries pt.above pos_id;
  below = remove_position_entries pt.below pos_id;
}

unfoldable pub unregister : TriggerEngine → TokenPair → ℕ → ℕ → TriggerEngine
unfolding find_pair put_pair pair_eq drop_entry
unregister e pair pos_id level_idx = change_pair e pair (λ pt. drop_entry pt pos_id level_idx)

unfoldable pub unregister_position : TriggerEngine → TokenPair → ℕ → TriggerEngine
unfolding find_pair put_pair pair_eq drop_position
unregister_position e pair pos_id = change_pair e pair (λ pt. drop_position pt pos_id)

unfoldable pub update_trigger_price :
    TriggerEngine → TokenPair → ℕ → ℕ → LevelType → Direction → ℤ → TriggerEngine
unfolding unregister register
update_trigger_price e pair pos_id level_idx level_type direction new_price =
    register (unregister e pair pos_id level_idx) pair pos_id level_idx level_type direction
      new_price

abbrev pub event_of : TokenPair → ℤ → TriggerEntry → TriggerEvent
event_of pair price e = record {
  position_id = e.position_id;
  level_index = e.level_index;
  level_type = e.level_type;
  price = price;
  chain_id = pair.chain_id;
}

-- The two searches, the events that they cut off, and the entries that stay.
unfoldable pub fire : PairTriggers → TokenPair → ℤ → PairTriggers × List TriggerEvent
unfolding cutoff
fire pt pair price =
    let above_cutoff = cutoff (λ x. ltb_ℤ price x.price) pt.above in
    let below_cutoff = cutoff (λ x. leb_ℤ price x.price) pt.below in
    (
      record { above = drop above_cutoff pt.above; below = take below_cutoff pt.below },
      map (event_of pair price) (take above_cutoff pt.above)
          ++ map (event_of pair price) (drop below_cutoff pt.below),
    )

unfoldable pub on_price : TriggerEngine → TokenPair → ℤ → TriggerEngine × List TriggerEvent
unfolding find_pair put_pair pair_eq fire
on_price e pair price = elim (find_pair pair e.pairs) [
  | none ↦ (e, [])
  | some pt ↦
      let (pt', events) = fire pt pair price in
      (record { pairs = put_pair pair pt' e.pairs }, events)
]

sum_counts : List (TokenPair × PairTriggers) → ℕ
sum_counts [] = 0
sum_counts ((k, pt) ∷ m) = length pt.above + length pt.below + sum_counts m

-- `Count`.
unfoldable pub count : TriggerEngine → ℕ
unfolding sum_counts
count e = sum_counts e.pairs

-- The map laws, through which the children see the engine.
find_pair-put_pair :
    (k j : TokenPair) (t : PairTriggers) (m : List (TokenPair × PairTriggers))
    → find_pair j (put_pair k t m) ≡ (if pair_eq k j then some t else find_pair j m)
unfolding find_pair put_pair pair_eq
find_pair-put_pair k j t [] = refl
find_pair-put_pair k j t ((i, u) ∷ m) = ground (arith, find_pair-put_pair k j t m)
