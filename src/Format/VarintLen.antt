-- ===== src/Format/VarintLen.antt =====
-- `varint_len` is the length of what `put_varint` writes.
use native.Mathlib.Nat.{pow-le-pow_right}
use arkeion.Common.{
  ℕ, zero, suc, ◌+◌, ◌*◌, ◌/◌, ◌^◌, ◌≤◌, ◌<◌, ◌≡◌, ap, ◌∙◌, arith, inl, inr, length, leb,
  Bool-cases, leb→le, leb-false,
}
use arkeion.Common.BitLength.{bit_length, bit_length-bounds, leading_zeros}
use arkeion.Common.Words.{IsU64}
use arkeion.Format.{put_varint, varint_len}
use arkeion.Format.Varint.{put_varint_last, put_varint_more, shift_seven}

-- An encoding of `n + 1` bytes needs more than `n` groups of seven bits and fits in `n + 1`.
record Groups (v n : ℕ) : Type 0 where
  count : length (put_varint v) ≡ suc n
  above : v < 2 ^ (7 * suc n)
  below : 0 < n → 2 ^ (7 * n) ≤ v

Groups-more : (v n : ℕ) → 128 ≤ v → Groups (v / 128) n → Groups v (suc n)
Groups-more v n h g =
    let seven : 7 * suc (suc n) ≡ 7 * suc n + 7 = omega arith in
    let seven' : 7 * suc n ≡ 7 * n + 7 = omega arith in
    record {
      count = rw (put_varint_more v h) (ap suc g.count);
      above = rw seven (omega (arith, shift_seven (7 * suc n), g.above));
      below = λ p. rw seven' (lower n g);
    }
  where
    lower : (n : ℕ) → Groups (v / 128) n → 2 ^ (7 * n + 7) ≤ v
    lower zero g = omega arith
    lower (suc n) g = omega (arith, shift_seven (7 * suc n), g.below (omega arith))

groups : (k v : ℕ) → v < k → (n : ℕ) × Groups v n
groups zero v h = absurd (omega arith)
groups (suc k) v h = elim (Bool-cases (leb 128 v)) [
  | inl t ↦
      let (n, g) = groups k (v / 128) (ground arith) in (suc n, Groups-more v n (leb→le 128 v t) g)
  | inr f ↦
      let small : v < 128 = ground arith in
      (
        0,
        record {
          count = rw (put_varint_last v small);
          above = small;
          below = λ p. absurd (omega arith);
        },
      )
]

few_bits : (v n : ℕ) → IsU64 v → Groups v n → bit_length 64 v ≤ 7 * suc n
few_bits v n h g = elim (Bool-cases (leb (bit_length 64 v) (7 * suc n))) [
  | inl t ↦ leb→le _ _ t
  | inr f ↦
      absurd (omega (arith, g.above, (bit_length-bounds 64 v h).2 (7 * suc n) (leb-false _ _ f)))
]

many_bits : (v n : ℕ) → IsU64 v → Groups v n → 0 < n → 7 * n < bit_length 64 v
many_bits v n h g p = elim (Bool-cases (leb (bit_length 64 v) (7 * n))) [
  | inl t ↦ absurd (
      omega (
        arith,
        g.below p,
        (bit_length-bounds 64 v h).1,
        pow-le-pow_right {n = 2} (omega arith) (leb→le _ _ t),
      ))
  | inr f ↦ leb-false _ _ f
]

-- For every u64 the length that `varint_len` computes from the leading zeros is the length of
-- the encoding.
pub length-put_varint : (v : ℕ) → IsU64 v → length (put_varint v) ≡ varint_len v
unfolding varint_len leading_zeros
length-put_varint v h =
    let (n, g) = groups (suc v) v (omega arith) in
    let upper = few_bits v n h g in
    let lower = many_bits v n h g in
    let small = (bit_length-bounds 64 v h).0 in g.count ∙ ground (arith, upper, lower, small)
