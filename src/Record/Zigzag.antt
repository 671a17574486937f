-- ===== src/Record/Zigzag.antt =====
-- The zigzag form of an `i64`.
use arkeion.Common.{
  ℕ, ◌+◌, ◌-◌, ◌*◌, ◌/◌, ◌%◌, ◌^◌, ◌≤◌, ◌<◌, ◌≡◌, ap, ◌∙◌, arith, bit_and, bit_xor, inl, inr, ltb,
  Bool-cases, ltb→lt, ltb-false, lt→ltb, le→ltb-false,
}
use mathlib.Core.Path.{ap₂}
use arkeion.Common.Bits.{bit_and_mask, bit_xor-zero, bit_xor_ones}
use arkeion.Common.Words.{IsU64, ℤ, pos, negsuc, signed}
use arkeion.Record.{zigzag, unzigzag}

low_bit : (u : ℕ) → bit_and u 1 ≡ u % 2
low_bit u =
    let whole : u ≡ u % 2 + u / 2 * 2 ^ 1 = omega arith in
    ap (λ (t : ℕ). bit_and t 1) whole ∙ bit_and_mask 1 (u % 2) (u / 2) (omega arith)

zigzag_nonneg : (v : ℕ) → v < 2 ^ 63 → zigzag v ≡ 2 * v
unfolding zigzag
zigzag_nonneg v h = rw (lt→ltb v _ h) (bit_xor-zero (v * 2 % 2 ^ 64) ∙ omega arith)

zigzag_neg : (v : ℕ) → 2 ^ 63 ≤ v → IsU64 v → zigzag v ≡ 2 * (2 ^ 64 - 1 - v) + 1
unfolding zigzag
zigzag_neg v big h =
    rw (le→ltb-false v _ big) (bit_xor_ones 64 (v * 2 % 2 ^ 64) (omega arith) ∙ omega arith)

unzigzag_even : (w : ℕ) → unzigzag (2 * w) ≡ w
unfolding unzigzag
unzigzag_even w =
    let half : 2 * w / 2 ≡ w = omega arith in
    let mask : (2 ^ 64 - bit_and (2 * w) 1) % 2 ^ 64 ≡ 0 = omega (arith, low_bit (2 * w)) in
    ap₂ bit_xor half mask ∙ bit_xor-zero w

unzigzag_odd : (w : ℕ) → IsU64 w → unzigzag (2 * w + 1) ≡ 2 ^ 64 - 1 - w
unfolding unzigzag
unzigzag_odd w h =
    let half : (2 * w + 1) / 2 ≡ w = omega arith in
    let mask : (2 ^ 64 - bit_and (2 * w + 1) 1) % 2 ^ 64 ≡ 2 ^ 64 - 1 =
      omega (arith, low_bit (2 * w + 1)) in
    ap₂ bit_xor half mask ∙ bit_xor_ones 64 w h

-- The zigzag form of a 64-bit integer is a u64 and is undone by `unzigzag`.
pub unzigzag-zigzag : (v : ℕ) → IsU64 v → (IsU64 (zigzag v)) × (unzigzag (zigzag v) ≡ v)
unzigzag-zigzag v h = elim (Bool-cases (ltb v (2 ^ 63))) [
  | inl t ↦
      let e = zigzag_nonneg v (ltb→lt v _ t) in
      (omega (arith, e, ltb→lt v _ t), ap unzigzag e ∙ unzigzag_even v)
  | inr f ↦
      let big = ltb-false v _ f in
      let e = zigzag_neg v big h in
      (omega (arith, e), ap unzigzag e ∙ unzigzag_odd (2 ^ 64 - 1 - v) (omega arith) ∙ omega arith)
]

-- The zigzag code counts the integers 0, -1, 1, -2, 2, ...
abbrev pub zigzag_rank : ℤ → ℕ
zigzag_rank (pos n) = 2 * n
zigzag_rank (negsuc n) = 2 * n + 1

-- The zigzag form of a 64-bit integer is twice its value, or for a negative one twice its
-- magnitude less one.
pub zigzag-rank : (v : ℕ) → IsU64 v → zigzag v ≡ zigzag_rank (signed v)
zigzag-rank v h = elim (Bool-cases (ltb v (2 ^ 63))) [
  | inl t ↦ rw t (zigzag_nonneg v (ltb→lt v _ t))
  | inr f ↦ rw f (zigzag_neg v (ltb-false v _ f) h)
]
