-- ===== src/Error.antt =====
-- error.rs: the engine's typed errors, and the result of a fallible operation. Times are
-- milliseconds; the payload of an I/O error is the operating system's and is left out.
use Prim.Native.String.{String}
use arkeion.Common.{ℕ, ◌≡◌, refl, List, Option, none, some}

-- tx.rs, `AsOf`: the point of the history that a read is pinned to.
pub data AsOf : Type 0 where
  head : AsOf
  version : ℕ → AsOf
  timestamp : ℕ → AsOf

-- tx.rs, `MergeConflict`: a key that both branches took to different states.
pub record MergeConflict : Type 0 where
  pub key : List ℕ
  pub from : Option (List ℕ)
  pub into : Option (List ℕ)

pub data Error : Type 0 where
  io not_a_database key_required wrong_key busy : Error
  unsupported_format : ℕ → Error
  unsupported_page_size : ℕ → Error
  corrupt : ℕ → String → Error
  invalid_input : String → Error
  corrupt_record : String → Error
  constraint : String → Error
  sql : String → Option ℕ → Error
  version_not_found : AsOf → Error
  chain_broken : ℕ → String → Error
  conversion : String → String → Error
  branch_not_found : String → Error
  branch_exists : String → Error
  conflict : List MergeConflict → Error

pub data Result {ℓ} (T : Type ℓ) : Type ℓ where
  err : Error → Result T
  ok : T → Result T

-- The `?` of a function that returns a `Result`, with a value and without.
infixl 5 ◌>>=◌ ◌>>◌
abbrev pub ◌>>=◌ {ℓ κ} : {T : Type ℓ} {U : Type κ} (r : Result T) (next : T → Result U) → Result U
err e >>= next = err e
ok t >>= next = next t

abbrev pub ◌>>◌ {κ} : {U : Type κ} (check : Result (Unit {0})) (next : Result U) → Result U
check >> next = check >>= λ done. next

-- `Option::ok_or`
abbrev pub ok_or {ℓ} : {A : Type ℓ} → Option A → Error → Result A
ok_or none e = err e
ok_or (some a) e = ok a

module _ {ℓ κ} {T : Type ℓ} {U : Type κ} where
  pub bind-eq-ok :
      (r : Result T) (next : T → Result U) {u : U}
      → (r >>= next) ≡ ok u
      → (t : T) × (r ≡ ok t) × (next t ≡ ok u)
  bind-eq-ok (err e) next h = cc
  bind-eq-ok (ok t) next h = (t, refl, h)

pub ok_or-eq-ok {ℓ} :
    {A : Type ℓ} (o : Option A) (e : Error) {a : A} → ok_or o e ≡ ok a → o ≡ some a
ok_or-eq-ok none e h = cc
ok_or-eq-ok (some a) e h = cc
