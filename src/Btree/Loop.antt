-- ===== src/Btree/Loop.antt =====
-- The result of a fallible loop on fuel: none says that it has not ended within it.
use arkeion.Common.{Option, none, some}
use arkeion.Error.{Error, Result, ok, err}

abbrev pub Loop {ℓ} : Type ℓ → Type ℓ
Loop T = Option (Result T)

-- `?` in a loop.
infixl 5 ◌>>=◌
abbrev pub ◌>>=◌ {ℓ κ} : {T : Type ℓ} {U : Type κ} (r : Loop T) (next : T → Loop U) → Loop U
none >>= next = none
(some (err e)) >>= next = some (err e)
(some (ok t)) >>= next = next t

abbrev pub done {ℓ} : {T : Type ℓ} → T → Loop T
done t = some (ok t)

abbrev pub fail {ℓ} : {T : Type ℓ} → Error → Loop T
fail e = some (err e)
