-- ===== src/Tx/Store/Run.antt =====
-- The result of a write operation on a store, with the store after it. None says that the fuel ran
-- out, or that the code panics since it asks for the body of a page that is not dirty.
use arkeion.Common.{ℕ, Bool, true, false, Option, none, some, List}
use arkeion.Error.{Error, Result, ok, err}
use arkeion.Tx.Store.{TxStore, set_page}

abbrev pub Run {ℓ} : Type ℓ → Type ℓ
Run T = Option (Result T × TxStore)

abbrev pub done {ℓ} : {T : Type ℓ} → T → TxStore → Run T
done t s = some (ok t, s)

abbrev pub fail {ℓ} : {T : Type ℓ} → Error → TxStore → Run T
fail e s = some (err e, s)

-- `?` on the result of an operation that may change the store.
infixl 5 ◌>>=◌
abbrev pub ◌>>=◌ {ℓ κ} : {T : Type ℓ} {U : Type κ} (r : Run T) (next : T → TxStore → Run U) → Run U
none >>= next = none
(some (err e, s)) >>= next = some (err e, s)
(some (ok t, s)) >>= next = next t s

-- `?` on a result that leaves the store as it is.
abbrev pub lift {ℓ κ} : {T : Type ℓ} {U : Type κ} → Result T → TxStore → (T → Run U) → Run U
lift (err e) s next = some (err e, s)
lift (ok t) s next = next t

-- `body_mut`
abbrev pub body_mut {ℓ} : {T : Type ℓ} → TxStore → ℕ → (List ℕ → Run T) → Run T
body_mut s id next = elim (s.dirty id) [ none ↦ none | some page ↦ next page ]

-- A write to the body of a page, which leaves it as it is where the write says so.
abbrev pub try_write : TxStore → ℕ → (List ℕ → Option (List ℕ)) → Run Bool
try_write s id write = body_mut s id (λ page. elim (write page) [
  | none ↦ done false s
  | some new_page ↦ done true (set_page s id new_page)
])
