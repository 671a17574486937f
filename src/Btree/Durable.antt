-- ===== src/Btree/Durable.antt =====
-- Copy on write: an insert or a delete leaves every durable page as it is.
use arkeion.Common.{ℕ, ◌≡◌, ◌<◌, Bool, some, List}
use arkeion.Error.{Result}
use arkeion.Btree.Insert.{insert}
use arkeion.Btree.Insert.Steps.{insert-Reach}
use arkeion.Btree.Delete.{delete}
use arkeion.Btree.Delete.Steps.{delete-Reach}
use arkeion.Tx.Store.{TxStore, body}
use arkeion.Tx.Store.Run.{Run}
use arkeion.Tx.Store.Steps.{Steps, Reach}
use arkeion.Tx.Store.Numbers.{IsStore}
use arkeion.Tx.Store.Durable.{Steps-IsStore, body-Steps}

-- A store and the one after an operation: the durable pages are the same.
pub record KeepsDurable (s t : TxStore) : Type 0 where
  pub valid : IsStore t
  pub durable : (id : ℕ) → id < s.alloc_base → body t id ≡ body s id

Steps-KeepsDurable : (s t : TxStore) → IsStore s → Steps s t → KeepsDurable s t
Steps-KeepsDurable s t h p = record {
  valid = Steps-IsStore s t p h;
  durable = λ id below. body-Steps s t id h p below;
}

Reach-result {ℓ} :
    {T : Type ℓ} (s t : TxStore) (m : Run T) (r : Result T)
    → m ≡ some (r, t)
    → Reach s m
    → Steps s t
Reach-result s t m r e p = rw e at p

-- From a store whose freed and dirty pages are apart and behind the durable ones, an insert that
-- returns, with a root or with an error, leaves such a store, in which every durable page reads as
-- before.
pub insert-KeepsDurable :
    (fuel : ℕ) (s t : TxStore) (root : ℕ) (key value : List ℕ) (r : Result ℕ)
    → IsStore s
    → insert fuel s root key value ≡ some (r, t)
    → KeepsDurable s t
insert-KeepsDurable fuel s t root key value r h e =
    Steps-KeepsDurable s t h (Reach-result s t _ r e (insert-Reach fuel s root key value))

-- From a store whose freed and dirty pages are apart and behind the durable ones, a delete that
-- returns, with a root or with an error, leaves such a store, in which every durable page reads as
-- before.
pub delete-KeepsDurable :
    (fuel : ℕ) (s t : TxStore) (root : ℕ) (key : List ℕ) (r : Result (ℕ × Bool))
    → IsStore s
    → delete fuel s root key ≡ some (r, t)
    → KeepsDurable s t
delete-KeepsDurable fuel s t root key r h e =
    Steps-KeepsDurable s t h (Reach-result s t _ r e (delete-Reach fuel s root key))
