-- ===== src/Common/Bits.antt =====
-- The bit operations on native numbers at variables: one equation for the lowest digit of each,
-- and from these the masks, shifts and complements that the code uses.
use Prim.Native.Nat.{
  ℕ, zero, suc, ◌+◌, ◌-◌, ◌*◌, ◌/◌, ◌%◌, ◌^◌, ◌≤◌, ◌<◌, min, max, differ, digits, bitwise, bit_and,
  bit_or, bit_xor, bit_and-bitwise, bit_or-bitwise, bit_xor-bitwise,
}
use mathlib.Core.Path.{◌≡◌, refl, ap, ◌∙◌}
use mathlib.Core.Bool.{Bool, true, false}
use arkeion.Common.Tests.{◌==◌, if◌then◌else◌}
use native.Mathlib.Nat.{le_refl, pow-suc}
use native.Mathlib.Omega.{arith}

-- The digits of two numbers do not depend on the fuel, once it is enough for the first number; so
-- the fuel that half a number gets in an operation is as good as the half itself.
module _ (end : ℕ → ℕ) (digit : ℕ → ℕ → ℕ) where
  digits-enough :
      (more fuel a b : ℕ)
      → a ≤ fuel × a ≤ more
      → digits end digit more a b ≡ digits end digit fuel a b
  digits-enough (suc more) (suc fuel) (suc a) b (h, k) =
      ap (λ (high : ℕ). high * 2 + digit (suc a % 2) (b % 2))
        (digits-enough more fuel (suc a / 2) (b / 2) (omega arith, omega arith))
  digits-enough (suc more) (suc fuel) zero b h = refl
  digits-enough (suc more) zero zero b h = refl
  digits-enough zero (suc fuel) zero b h = refl
  digits-enough zero zero zero b h = refl
  digits-enough zero fuel (suc a) b (h, k) = absurd (omega arith)
  digits-enough more zero (suc a) b (h, k) = absurd (omega arith)

  bitwise-halves :
      (n b : ℕ)
      → bitwise end digit (suc n) b
        ≡ digit (suc n % 2) (b % 2) + 2 * bitwise end digit (suc n / 2) (b / 2)
  bitwise-halves n b =
      let half = suc n / 2 in
      omega (arith, digits-enough n half half (b / 2) (le_refl half, omega arith))

bit_xor_step : (v w : ℕ) → bit_xor v w ≡ differ (v % 2) (w % 2) + 2 * bit_xor (v / 2) (w / 2)
bit_xor_step (suc v) w = simp bit_xor-bitwise (bitwise-halves (λ rest. rest) differ v w)
bit_xor_step zero w =
    let low : differ 0 (w % 2) ≡ w % 2 = refl in simp bit_xor-bitwise (omega (arith, low))

bit_or_step : (v w : ℕ) → bit_or v w ≡ max (v % 2) (w % 2) + 2 * bit_or (v / 2) (w / 2)
bit_or_step (suc v) w = simp bit_or-bitwise (bitwise-halves (λ rest. rest) max v w)
bit_or_step zero w = simp bit_or-bitwise (omega arith)

bit_and_step : (v w : ℕ) → bit_and v w ≡ min (v % 2) (w % 2) + 2 * bit_and (v / 2) (w / 2)
bit_and_step (suc v) w = simp bit_and-bitwise (bitwise-halves (λ rest. 0) min v w)
bit_and_step zero w = simp bit_and-bitwise (omega arith)

pub bit_or-zero : (b : ℕ) → bit_or 0 b ≡ b
bit_or-zero b = bit_or-bitwise 0 b

differ_zero_right : (a : ℕ) → differ a 0 ≡ a
differ_zero_right zero = refl
differ_zero_right (suc a) = refl

-- Zero on the right, for both operations by one induction.
zero_right : (bound v : ℕ) → v ≤ bound → (bit_and v 0 ≡ 0) × (bit_xor v 0 ≡ v)
zero_right bound zero h = (refl, refl)
zero_right zero (suc v) h = absurd (omega arith)
zero_right (suc bound) (suc v) h =
    let (both, one) = zero_right bound (suc v / 2) (omega arith) in
    (
      omega (arith, bit_and_step (suc v) 0, both),
      omega (arith, bit_xor_step (suc v) 0, one, differ_zero_right (suc v % 2)),
    )

bit_and-zero : (v : ℕ) → bit_and v 0 ≡ 0
bit_and-zero v = (zero_right v v (le_refl v)).0

pub bit_xor-zero : (v : ℕ) → bit_xor v 0 ≡ v
bit_xor-zero v = (zero_right v v (le_refl v)).1

-- A step at operands whose halves are known.
and_halves :
    (a b q r c : ℕ)
    → a / 2 ≡ q
    → b / 2 ≡ r
    → bit_and q r ≡ c
    → bit_and a b ≡ c * 2 + min (a % 2) (b % 2)
and_halves a b q r c ha hb h = rw (bit_and_step a b, ha, hb, h) (omega arith)

or_halves :
    (a b q r c : ℕ)
    → a / 2 ≡ q
    → b / 2 ≡ r
    → bit_or q r ≡ c
    → bit_or a b ≡ c * 2 + max (a % 2) (b % 2)
or_halves a b q r c ha hb h = rw (bit_or_step a b, ha, hb, h) (omega arith)

xor_halves :
    (a b q r c : ℕ)
    → a / 2 ≡ q
    → b / 2 ≡ r
    → bit_xor q r ≡ c
    → bit_xor a b ≡ c * 2 + differ (a % 2) (b % 2)
xor_halves a b q r c ha hb h = rw (bit_xor_step a b, ha, hb, h) (omega arith)

differ_one : (a b : ℕ) → b ≡ 1 → a < 2 → differ a b ≡ 1 - a
differ_one a zero e h = absurd (omega arith)
differ_one zero (suc zero) e h = refl
differ_one (suc zero) (suc zero) e h = refl
differ_one (suc (suc a)) (suc zero) e h = absurd (omega arith)
differ_one a (suc (suc b)) e h = absurd (omega arith)

differ_even : (a b : ℕ) → b ≡ 0 → differ a b ≡ a
differ_even a zero e = differ_zero_right a
differ_even a (suc b) e = absurd (omega arith)

shift_suc : (s x : ℕ) → x * 2 ^ suc s ≡ 2 * (x * 2 ^ s)
shift_suc s x = omega (arith, ap (λ (t : ℕ). x * t) (pow-suc 2 s))

pub pow-pos : (s : ℕ) → 0 < 2 ^ s
pow-pos zero = omega arith
pow-pos (suc s) = omega (arith, pow-pos s, pow-suc 2 s)

-- `v | x << s` for a `v` of `s` bits is a sum.
pub bit_or_shifted : (s v x : ℕ) → v < 2 ^ s → bit_or v (x * 2 ^ s) ≡ v + x * 2 ^ s
bit_or_shifted zero zero x h = omega (arith, bit_or-zero (x * 2 ^ zero))
bit_or_shifted zero (suc v) x h = absurd (omega arith)
bit_or_shifted (suc s) v x h =
    let half : v / 2 < 2 ^ s = omega (arith, pow-suc 2 s) in
    omega (
      arith,
      shift_suc s x,
      or_halves v (x * 2 ^ suc s) (v / 2) (x * 2 ^ s) _ refl (omega (arith, shift_suc s x))
          (bit_or_shifted s (v / 2) x half),
    )

-- `|` of two words of `s` bits is one.
pub bit_or-lt : (s a b : ℕ) → a < 2 ^ s → b < 2 ^ s → bit_or a b < 2 ^ s
bit_or-lt zero zero b ha hb = omega (arith, bit_or-zero b)
bit_or-lt zero (suc a) b ha hb = absurd (omega arith)
bit_or-lt (suc s) a b ha hb = omega (
  arith,
  pow-suc 2 s,
  bit_or_step a b,
  bit_or-lt s (a / 2) (b / 2) (omega (arith, pow-suc 2 s)) (omega (arith, pow-suc 2 s)),
)

-- A mask of `s` ones keeps the low `s` bits.
pub bit_and_mask : (s v x : ℕ) → v < 2 ^ s → bit_and (v + x * 2 ^ s) (2 ^ s - 1) ≡ v
bit_and_mask zero zero x h = bit_and-zero (0 + x * 2 ^ zero)
bit_and_mask zero (suc v) x h = absurd (omega arith)
bit_and_mask (suc s) v x h =
    let half : v / 2 < 2 ^ s = omega (arith, pow-suc 2 s) in
    omega (
      arith,
      shift_suc s x,
      pow-suc 2 s,
      pow-pos s,
      and_halves (v + x * 2 ^ suc s) (2 ^ suc s - 1) (v / 2 + x * 2 ^ s) (2 ^ s - 1) _
          (omega (arith, shift_suc s x)) (omega (arith, pow-suc 2 s))
          (bit_and_mask s (v / 2) x half),
    )

bit_and-one : (a : ℕ) → bit_and a 1 ≡ a % 2
bit_and-one a = omega (arith, bit_and_step a 1, bit_and-zero (a / 2))

-- The single bit `1 << s`.
pub bit_and_bit : (s v x : ℕ) → v < 2 ^ s → bit_and (v + x * 2 ^ s) (2 ^ s) ≡ x % 2 * 2 ^ s
bit_and_bit zero zero x h = omega (arith, bit_and-one (0 + x * 2 ^ zero))
bit_and_bit zero (suc v) x h = absurd (omega arith)
bit_and_bit (suc s) v x h =
    let half : v / 2 < 2 ^ s = omega (arith, pow-suc 2 s) in
    omega (
      arith,
      shift_suc s x,
      shift_suc s (x % 2),
      pow-suc 2 s,
      and_halves (v + x * 2 ^ suc s) (2 ^ suc s) (v / 2 + x * 2 ^ s) (2 ^ s) _
          (omega (arith, shift_suc s x)) (omega (arith, pow-suc 2 s))
          (bit_and_bit s (v / 2) x half),
    )

-- Exclusive or with `s` ones is the complement.
pub bit_xor_ones : (s v : ℕ) → v < 2 ^ s → bit_xor v (2 ^ s - 1) ≡ 2 ^ s - 1 - v
bit_xor_ones zero zero h = refl
bit_xor_ones zero (suc v) h = absurd (omega arith)
bit_xor_ones (suc s) v h =
    let half : v / 2 < 2 ^ s = omega (arith, pow-suc 2 s) in
    omega (
      arith,
      pow-suc 2 s,
      pow-pos s,
      xor_halves v (2 ^ suc s - 1) (v / 2) (2 ^ s - 1) _ refl (omega (arith, pow-suc 2 s))
          (bit_xor_ones s (v / 2) half),
      differ_one (v % 2) ((2 ^ suc s - 1) % 2) (omega (arith, pow-suc 2 s, pow-pos s))
          (omega arith),
    )

-- Exclusive or with the top bit moves the two halves of the range past one another.
pub bit_xor_top : (s v : ℕ) → v < 2 ^ s → bit_xor v (2 ^ s) ≡ v + 2 ^ s
bit_xor_top zero zero h = refl
bit_xor_top zero (suc v) h = absurd (omega arith)
bit_xor_top (suc s) v h =
    let half : v / 2 < 2 ^ s = omega (arith, pow-suc 2 s) in
    omega (
      arith,
      pow-suc 2 s,
      xor_halves v (2 ^ suc s) (v / 2) (2 ^ s) _ refl (omega (arith, pow-suc 2 s))
          (bit_xor_top s (v / 2) half),
      differ_even (v % 2) (2 ^ suc s % 2) (omega (arith, pow-suc 2 s)),
    )

pub bit_xor_top_set : (s v : ℕ) → v < 2 ^ s → bit_xor (v + 2 ^ s) (2 ^ s) ≡ v
bit_xor_top_set zero zero h = refl
bit_xor_top_set zero (suc v) h = absurd (omega arith)
bit_xor_top_set (suc s) v h =
    let half : v / 2 < 2 ^ s = omega (arith, pow-suc 2 s) in
    omega (
      arith,
      pow-suc 2 s,
      xor_halves (v + 2 ^ suc s) (2 ^ suc s) (v / 2 + 2 ^ s) (2 ^ s) _ (omega (arith, pow-suc 2 s))
          (omega (arith, pow-suc 2 s)) (bit_xor_top_set s (v / 2) half),
      differ_even ((v + 2 ^ suc s) % 2) (2 ^ suc s % 2) (omega (arith, pow-suc 2 s)),
    )

-- The masks of one byte of a LEB128 number.
pub low_seven : (b : ℕ) → bit_and b 0x7f ≡ b % 128
low_seven b =
    let whole : b ≡ b % 128 + b / 128 * 2 ^ 7 = omega arith in
    ap (λ (t : ℕ). bit_and t 0x7f) whole ∙ bit_and_mask 7 (b % 128) (b / 128) (omega arith)

pub top_bit : (b : ℕ) → b < 256 → bit_and b 0x80 ≡ b / 128 * 128
top_bit b h =
    let whole : b ≡ b % 128 + b / 128 * 2 ^ 7 = omega arith in
    ap (λ (t : ℕ). bit_and t 0x80) whole
    ∙ bit_and_bit 7 (b % 128) (b / 128) (omega arith)
    ∙ omega arith

pub set_top_bit : (b : ℕ) → b < 128 → bit_or b 0x80 ≡ b + 128
set_top_bit b h = bit_or_shifted 7 b 1 h

-- Over a small range two functions are compared at every value by evaluation.
module _ (f g : ℕ → ℕ) where
  unfoldable pub agree_below : ℕ → Bool
  agree_below zero = true
  agree_below (suc n) = if f n == g n then agree_below n else false

  pub agree_below-eq : (n : ℕ) → agree_below n ≡ true → (i : ℕ) → i < n → f i ≡ g i
  unfolding agree_below
  agree_below-eq zero e i h = absurd (omega arith)
  agree_below-eq (suc n) e i h = ground (arith, agree_below-eq n (ground arith) i)
