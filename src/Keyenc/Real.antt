-- ===== src/Keyenc/Real.antt =====
-- keyenc.rs: the order of the reals against the order of their patterns. An `f64` is read as IEEE 754 says, in
-- units of the least positive one; the infinities are the numbers that come next.
use Prim.Native.Nat.{Ordering}
use Prim.Native.Nat.Ordering.{lt, gt}
use native.Mathlib.Nat.{
  pow-le-pow_right, mul-le-mul_left, mul-lt-mul_of_pos_right, mul-le-mul_right, pow-suc,
}
use mathlib.Core.Path.{subst}
use arkeion.Common.{
  ℕ, zero, suc, ◌+◌, ◌-◌, ◌*◌, ◌/◌, ◌%◌, ◌^◌, ◌≤◌, ◌<◌, ◌≡◌, refl, sym, ap, ◌∙◌, arith, compare,
  ltb, if◌then◌else◌, inl, inr, Bool-cases,
}
use arkeion.Common.Bits.{pow-pos}
use arkeion.Common.Words.{ℤ, pos, negsuc, compare_ℤ}
use arkeion.Common.Lex.{then_cmp, then_cmp-eq, compare-cases, compare-lt, compare-gt, compare_refl}
use arkeion.Keyenc.Fixed.{signed_real}

-- The number of an exponent and a fraction of 52 bits; with exponent 0 it is subnormal.
abbrev pub scaled : ℕ → ℕ → ℕ
scaled zero fraction = fraction
scaled (suc exponent) fraction = (2 ^ 52 + fraction) * 2 ^ exponent

abbrev pub magnitude : ℕ → ℕ
magnitude bits = scaled (bits / 2 ^ 52) (bits % 2 ^ 52)

abbrev negated : ℕ → ℤ
negated zero = pos 0
negated (suc n) = negsuc n

-- The number of a pattern that is no NaN. The two zeros are one number.
abbrev pub real_value : ℕ → ℤ
real_value w = if ltb w (2 ^ 63) then pos (magnitude w) else negated (magnitude (w - 2 ^ 63))

abbrev pub IsNumber : ℕ → Type 0
IsNumber w = w % 2 ^ 63 ≤ 2047 * 2 ^ 52

-- The patterns without a sign come after those with one.
abbrev pub compare_signs : ℕ → ℕ → Ordering
compare_signs a b = compare (if ltb a (2 ^ 63) then 1 else 0) (if ltb b (2 ^ 63) then 1 else 0)

scaled-lt : (e f : ℕ) → f < 2 ^ 52 → scaled e f < 2 ^ 52 * 2 ^ e
scaled-lt zero f h = omega (arith, h)
scaled-lt (suc e) f h =
    let less : (2 ^ 52 + f) * 2 ^ e < (2 ^ 52 + 2 ^ 52) * 2 ^ e =
      mul-lt-mul_of_pos_right (omega (arith, h)) (pow-pos e) in
    let double : 2 ^ 52 * 2 ^ suc e ≡ 2 ^ 52 * (2 * 2 ^ e) =
      ap (λ (p : ℕ). 2 ^ 52 * p) (pow-suc 2 e ∙ omega arith) in
    omega (arith, less, double)

le-scaled : (e f : ℕ) → 2 ^ 52 * 2 ^ e ≤ scaled (suc e) f
le-scaled e f = mul-le-mul_right (2 ^ e) (omega arith)

scaled_mono : (d e f g : ℕ) → d < e → f < 2 ^ 52 → scaled d f < scaled e g
scaled_mono d zero f g h hf = absurd (omega (arith, h))
scaled_mono d (suc e) f g h hf =
    let steps : 2 ^ d ≤ 2 ^ e = pow-le-pow_right (omega arith) (omega (arith, h)) in
    let tops : 2 ^ 52 * 2 ^ d ≤ 2 ^ 52 * 2 ^ e = mul-le-mul_left (2 ^ 52) steps in
    omega (arith, scaled-lt d f hf, tops, le-scaled e g)

scaled_same : (e f g : ℕ) → f < g → scaled e f < scaled e g
scaled_same zero f g h = h
scaled_same (suc e) f g h = mul-lt-mul_of_pos_right (omega (arith, h)) (pow-pos e)

magnitude-lt : (m n : ℕ) → m < n → magnitude m < magnitude n
magnitude-lt m n h = elim (compare-cases (m / 2 ^ 52) (n / 2 ^ 52)) [
  | inl (less, o) ↦
      scaled_mono (m / 2 ^ 52) (n / 2 ^ 52) (m % 2 ^ 52) (n % 2 ^ 52) less (omega arith)
  | inr (inl (same, o)) ↦
      subst (λ (e : ℕ). magnitude m < scaled e (n % 2 ^ 52)) same
        (scaled_same (m / 2 ^ 52) (m % 2 ^ 52) (n % 2 ^ 52) (omega (arith, h, same)))
  | inr (inr (more, o)) ↦ absurd (omega (arith, h, more))
]

magnitude-compare : (m n : ℕ) → compare (magnitude m) (magnitude n) ≡ compare m n
magnitude-compare m n = elim (compare-cases m n) [
  | inl (less, o) ↦ compare-lt (magnitude m) (magnitude n) (magnitude-lt m n less) ∙ sym o
  | inr (inl (same, o)) ↦
      ap (λ (k : ℕ). compare (magnitude m) (magnitude k)) (sym same)
      ∙ compare_refl (magnitude m)
      ∙ sym o
  | inr (inr (more, o)) ↦ compare-gt (magnitude m) (magnitude n) (magnitude-lt n m more) ∙ sym o
]

negated-compare : (m n : ℕ) → compare_ℤ (negated m) (negated n) ≡ compare n m
negated-compare zero zero = refl
negated-compare zero (suc n) = ground arith
negated-compare (suc m) zero = ground arith
negated-compare (suc m) (suc n) = ground arith

pos-negated : (m n : ℕ) → then_cmp (compare_ℤ (pos m) (negated n)) gt ≡ gt
pos-negated zero zero = refl
pos-negated (suc m) zero = ground arith
pos-negated m (suc n) = refl

negated-pos : (m n : ℕ) → then_cmp (compare_ℤ (negated m) (pos n)) lt ≡ lt
negated-pos zero zero = refl
negated-pos zero (suc n) = ground arith
negated-pos (suc m) n = refl

-- The order of the patterns is that of the numbers, and then that of the signs of zeros.
pub signed_real-order :
    (a b : ℕ)
    → compare_ℤ (signed_real a) (signed_real b)
      ≡ then_cmp (compare_ℤ (real_value a) (real_value b)) (compare_signs a b)
signed_real-order a b = elim (Bool-cases (ltb a (2 ^ 63))) [
  | inl p ↦ elim (Bool-cases (ltb b (2 ^ 63))) [
    | inl q ↦
        rw (p, q)
          (sym (magnitude-compare a b) ∙ sym (then_cmp-eq (compare (magnitude a) (magnitude b))))
    | inr n ↦ rw (p, n) (sym (pos-negated (magnitude a) (magnitude (b - 2 ^ 63))))
  ]
  | inr m ↦ elim (Bool-cases (ltb b (2 ^ 63))) [
    | inl q ↦ rw (m, q) (sym (negated-pos (magnitude (a - 2 ^ 63)) (magnitude b)))
    | inr n ↦
        let low = a - 2 ^ 63 in
        let other = b - 2 ^ 63 in
        rw (m, n)
          (sym (negated-compare (magnitude low) (magnitude other) ∙ magnitude-compare other low)
            ∙ sym (then_cmp-eq (compare_ℤ (negated (magnitude low)) (negated (magnitude other)))))
  ]
]
