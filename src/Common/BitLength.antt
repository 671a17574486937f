-- ===== src/Common/BitLength.antt =====
-- `u64::leading_zeros`, by the number of digits up to the highest bit that is set.
use native.Mathlib.Nat.{pow-suc}
use Prim.Native.Nat.{ℕ, zero, suc, ◌-◌, ◌/◌, ◌^◌, ◌≤◌, ◌<◌}
use mathlib.Core.Path.{◌≡◌}
use native.Mathlib.Omega.{arith}
use arkeion.Common.Tests.{◌==◌, if◌then◌else◌}

unfoldable pub bit_length : ℕ → ℕ → ℕ
bit_length zero n = 0
bit_length (suc k) n = if n == 0 then 0 else suc (bit_length k (n / 2))

unfoldable pub leading_zeros : ℕ → ℕ
leading_zeros u = 64 - bit_length 64 u

bit_length-suc : (k n : ℕ) → bit_length (suc k) (suc n) ≡ suc (bit_length k (suc n / 2))
unfolding bit_length
bit_length-suc k n = ground arith

-- `bit_length` is the least number of digits that holds `n`.
pub bit_length-bounds :
    (k n : ℕ)
    → n < 2 ^ k
    → (bit_length k n ≤ k) × (n < 2 ^ bit_length k n) × ((m : ℕ) → m < bit_length k n → 2 ^ m ≤ n)
unfolding bit_length
bit_length-bounds zero n h = (omega arith, h, λ m hm. absurd (omega arith))
bit_length-bounds (suc k) zero h = (omega arith, omega arith, λ m hm. absurd (omega arith))
bit_length-bounds (suc k) (suc n) h =
    let (small, above, below) = bit_length-bounds k (suc n / 2) (omega (arith, pow-suc 2 k)) in
    rw (bit_length-suc k n)
      (omega arith, omega (arith, pow-suc 2 (bit_length k (suc n / 2)), above), least below)
  where
    least :
        ((m : ℕ) → m < bit_length k (suc n / 2) → 2 ^ m ≤ suc n / 2)
        → (m : ℕ) → m < suc (bit_length k (suc n / 2))
        → 2 ^ m ≤ suc n
    least below zero hm = omega arith
    least below (suc m) hm = omega (arith, pow-suc 2 m, below m (omega arith))
