-- ===== src/Common/Words.antt =====
-- Machine words as native numbers: fixed-width byte strings in both orders, and the signed
-- reading of a 64-bit pattern. An `i64` is kept as its pattern, a number below 2 ^ 64.
use Prim.Native.Nat.{ℕ, zero, suc, ◌+◌, ◌-◌, ◌*◌, ◌/◌, ◌%◌, ◌^◌, ◌<◌, compare, Ordering}
use Prim.Native.Nat.Ordering.{lt, gt}
use mathlib.Core.Path.{◌≡◌, refl, ap}
use mathlib.Core.List.{List, [], ◌∷◌, ◌++◌}
use native.Mathlib.Omega.{arith}
use native.Mathlib.Nat.{pow-suc}
use arkeion.Common.Tests.{ltb, if◌then◌else◌}
use arkeion.Common.Lists.{length, length-append, All, All-append}

abbrev pub IsByte : ℕ → Type 0
IsByte b = b < 256

abbrev pub IsU32 : ℕ → Type 0
IsU32 v = v < 2 ^ 32

abbrev pub IsU64 : ℕ → Type 0
IsU64 v = v < 2 ^ 64

-- `to_le_bytes` of a word of `w` bytes, and `from_le_bytes`.
unfoldable pub le_bytes : ℕ → ℕ → List ℕ
le_bytes zero n = []
le_bytes (suc w) n = (n % 256) ∷ le_bytes w (n / 256)

abbrev pub from_le : List ℕ → ℕ
from_le [] = 0
from_le (b ∷ bs) = b + 256 * from_le bs

-- `to_be_bytes` of a word of `w` bytes, and `from_be_bytes`.
unfoldable pub be_bytes : ℕ → ℕ → List ℕ
be_bytes zero n = []
be_bytes (suc w) n = be_bytes w (n / 256) ++ ((n % 256) ∷ [])

abbrev pub from_be_acc : ℕ → List ℕ → ℕ
from_be_acc acc [] = acc
from_be_acc acc (b ∷ bs) = from_be_acc (acc * 256 + b) bs

abbrev pub from_be : List ℕ → ℕ
from_be = from_be_acc 0

pub length-le_bytes : (w n : ℕ) → length (le_bytes w n) ≡ w
unfolding le_bytes
length-le_bytes zero n = refl
length-le_bytes (suc w) n = ap suc (length-le_bytes w (n / 256))

pub length-be_bytes : (w n : ℕ) → length (be_bytes w n) ≡ w
unfolding be_bytes
length-be_bytes zero n = refl
length-be_bytes (suc w) n =
    omega
      (arith, length-append (be_bytes w (n / 256)) ((n % 256) ∷ []), length-be_bytes w (n / 256))

pub from_le-le_bytes : (w n : ℕ) → n < 256 ^ w → from_le (le_bytes w n) ≡ n
unfolding le_bytes
from_le-le_bytes zero n h = omega arith
from_le-le_bytes (suc w) n h =
    omega (arith, from_le-le_bytes w (n / 256) (omega (arith, pow-suc 256 w)))

from_be_acc-append :
    (acc : ℕ) (xs : List ℕ) (b : ℕ)
    → from_be_acc acc (xs ++ (b ∷ [])) ≡ from_be_acc acc xs * 256 + b
from_be_acc-append acc [] b = refl
from_be_acc-append acc (x ∷ xs) b = from_be_acc-append (acc * 256 + x) xs b

pub from_be-be_bytes : (w n : ℕ) → n < 256 ^ w → from_be (be_bytes w n) ≡ n
unfolding be_bytes
from_be-be_bytes zero n h = omega arith
from_be-be_bytes (suc w) n h = omega (
  arith,
  from_be_acc-append 0 (be_bytes w (n / 256)) (n % 256),
  from_be-be_bytes w (n / 256) (omega (arith, pow-suc 256 w)),
)

pub le_bytes-IsByte : (w n : ℕ) → All IsByte (le_bytes w n)
unfolding le_bytes
le_bytes-IsByte zero n = tt
le_bytes-IsByte (suc w) n = (omega arith, le_bytes-IsByte w (n / 256))

pub be_bytes-IsByte : (w n : ℕ) → All IsByte (be_bytes w n)
unfolding be_bytes
be_bytes-IsByte zero n = tt
be_bytes-IsByte (suc w) n =
    All-append IsByte (be_bytes w (n / 256)) ((n % 256) ∷ []) (be_bytes-IsByte w (n / 256))
      (omega arith, tt)

-- The integers, for the signed reading: `negsuc n` is -(n + 1).
pub data ℤ : Type 0 where
  pos : ℕ → ℤ
  negsuc : ℕ → ℤ

-- The order of the integers, as `Ord::cmp`.
abbrev pub compare_ℤ : ℤ → ℤ → Ordering
compare_ℤ (pos a) (pos b) = compare a b
compare_ℤ (pos a) (negsuc b) = gt
compare_ℤ (negsuc a) (pos b) = lt
compare_ℤ (negsuc a) (negsuc b) = compare b a

-- The integer that an `i64` pattern stands for.
abbrev pub signed : ℕ → ℤ
signed w = if ltb w (2 ^ 63) then pos w else negsuc (2 ^ 64 - 1 - w)
