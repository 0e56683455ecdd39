-- ===== src/Store.antt =====
-- pkg/positionmanager/store.go: the host's persistence. A store is a state `S` and the calls on it.
-- A position that `Get` returns is a copy: what the code writes to it reaches the store by `Update`.
use dex_limit_order_manager.Prelude.{ℕ, ◌≡◌, ◌≢◌, ◌⊎◌, Option, none, some, List}
use dex_limit_order_manager.Types.{Position}
use dex_limit_order_manager.Errors.{Error, Result, ok}

pub record Store (S : Type 0) : Type 0 where
  pub save : S → Position → S × Option Error
  pub get : S → ℕ → Result Position
  pub list_active : S → ℕ → Result (List Position)
  pub update : S → Position → S × Option Error

-- What store.go documents: `Get` returns a position by its ID, and `Save` and `Update` persist the
-- position that they are given, and no other.
pub record IsStore {S : Type 0} (db : Store S) : Type 0 where
  pub get-id : (s : S) (id : ℕ) (p : Position) → db.get s id ≡ ok p → p.id ≡ id
  pub get-update :
      (s : S) (p : Position) → (db.update s p).1 ≡ none → db.get (db.update s p).0 p.id ≡ ok p
  pub get-update_ne :
      (s : S) (p : Position) (id : ℕ) → id ≢ p.id → db.get (db.update s p).0 id ≡ db.get s id
  pub get-save :
      (s : S) (p : Position) → (db.save s p).1 ≡ none → db.get (db.save s p).0 p.id ≡ ok p

-- An update that returns an error has either written the position or left the old one.
pub record IsAtomic {S : Type 0} (db : Store S) : Type 0 where
  pub get-failed :
      (s : S) (p : Position) (x : Error)
      → (db.update s p).1 ≡ some x
      → (db.get (db.update s p).0 p.id ≡ db.get s p.id) ⊎ (db.get (db.update s p).0 p.id ≡ ok p)
