-- ===== src/Keyenc/Fixed.antt =====
-- Eight-byte codes: `rowid_be` and `real_be` keep the order of the words that they encode.
use arkeion.Common.{
  ℕ, ◌+◌, ◌-◌, ◌*◌, ◌/◌, ◌%◌, ◌^◌, ◌≡◌, refl, sym, ap, ◌∙◌, arith, compare, bit_and, bit_xor, some,
  List, ◌++◌, ltb, if◌then◌else◌, Bool-cases, ltb→lt, ltb-false, inl, inr,
}
use arkeion.Common.Bits.{bit_or_shifted, bit_and_bit, bit_xor_top, bit_xor_top_set}
use arkeion.Common.Words.{be_bytes, from_be-be_bytes, IsU64, ℤ, pos, negsuc, signed, compare_ℤ}
use arkeion.Common.Lex.{lex, then_cmp, lex-append, lex-be_bytes}
use arkeion.Keyenc.{rowid_be, rowid_from_be, real_be}

-- The magnitude bits of an `f64` pattern with its sign, an order of all patterns; `Keyenc.Real`
-- relates it to the order of the numbers.
abbrev pub signed_real : ℕ → ℤ
signed_real w = if ltb w (2 ^ 63) then pos w else negsuc (w - 2 ^ 63)

-- The sign bit of `rowid` inverted, as a number.
flipped : ℕ → ℕ
flipped w = if ltb w (2 ^ 63) then w + 2 ^ 63 else w - 2 ^ 63

flip_lem : (w : ℕ) → IsU64 w → bit_xor w (2 ^ 63) ≡ flipped w
unfolding flipped
flip_lem w h = elim (Bool-cases (ltb w (2 ^ 63))) [
  | inl t ↦ rw t (bit_xor_top 63 w (ltb→lt w _ t))
  | inr f ↦
      let low : w - 2 ^ 63 + 2 ^ 63 ≡ w = omega (arith, ltb-false w _ f) in
      rw f (
        ap (λ (x : ℕ). bit_xor x (2 ^ 63)) (sym low)
        ∙ bit_xor_top_set 63 (w - 2 ^ 63) (omega arith))
]

flipped-order :
    (a b : ℕ)
    → IsU64 a
    → IsU64 b
    → compare (flipped a) (flipped b) ≡ compare_ℤ (signed a) (signed b)
unfolding flipped
flipped-order a b ha hb = ground arith

flipped-IsU64 : (a : ℕ) → IsU64 a → IsU64 (flipped a)
unfolding flipped
flipped-IsU64 a h = ground arith

flipped_twice : (a : ℕ) → IsU64 a → flipped (flipped a) ≡ a
unfolding flipped
flipped_twice a h = ground arith

-- Eight-byte codes of words that keep an order keep it as bytes, with the rest behind.
word_order :
    (a b : ℕ) (xs ys : List ℕ)
    → IsU64 a
    → IsU64 b
    → lex (be_bytes 8 a ++ xs) (be_bytes 8 b ++ ys) ≡ then_cmp (compare a b) (lex xs ys)
unfolding be_bytes
word_order a b xs ys ha hb =
    lex-append (be_bytes 8 a) (be_bytes 8 b) xs ys refl
    ∙ ap (λ o. then_cmp o (lex xs ys)) (lex-be_bytes 8 a b ha hb)

pub rowid_be-order :
    (a b : ℕ) (xs ys : List ℕ)
    → IsU64 a
    → IsU64 b
    → lex (rowid_be a ++ xs) (rowid_be b ++ ys)
      ≡ then_cmp (compare_ℤ (signed a) (signed b)) (lex xs ys)
unfolding rowid_be
rowid_be-order a b xs ys ha hb =
    rw (flip_lem a ha, flip_lem b hb)
      (word_order (flipped a) (flipped b) xs ys (flipped-IsU64 a ha) (flipped-IsU64 b hb)
        ∙ ap (λ o. then_cmp o (lex xs ys)) (flipped-order a b ha hb))

real_word : ℕ → ℕ
real_word w = if ltb w (2 ^ 63) then w + 2 ^ 63 else 2 ^ 64 - 1 - w

sign_bit : (w : ℕ) → IsU64 w → bit_and w (2 ^ 63) ≡ (if ltb w (2 ^ 63) then 0 else 2 ^ 63)
sign_bit w h =
    let whole : w ≡ w % 2 ^ 63 + w / 2 ^ 63 * 2 ^ 63 = omega arith in
    ap (λ (x : ℕ). bit_and x (2 ^ 63)) whole
    ∙ bit_and_bit 63 (w % 2 ^ 63) (w / 2 ^ 63) (omega arith)
    ∙ ground arith

real_be_lem : (w : ℕ) → IsU64 w → real_be w ≡ be_bytes 8 (real_word w)
unfolding real_be real_word
real_be_lem w h = elim (Bool-cases (ltb w (2 ^ 63))) [
  | inl t ↦ rw (sign_bit w h, t) (ap (be_bytes 8) (bit_or_shifted 63 w 1 (ltb→lt w _ t)))
  | inr f ↦ rw (sign_bit w h, f) refl
]

real_word-order :
    (a b : ℕ)
    → IsU64 a
    → IsU64 b
    → compare (real_word a) (real_word b) ≡ compare_ℤ (signed_real a) (signed_real b)
unfolding real_word
real_word-order a b ha hb = ground arith

real_word-IsU64 : (a : ℕ) → IsU64 a → IsU64 (real_word a)
unfolding real_word
real_word-IsU64 a h = ground arith

pub real_be-order :
    (a b : ℕ) (xs ys : List ℕ)
    → IsU64 a
    → IsU64 b
    → lex (real_be a ++ xs) (real_be b ++ ys)
      ≡ then_cmp (compare_ℤ (signed_real a) (signed_real b)) (lex xs ys)
real_be-order a b xs ys ha hb =
    rw (real_be_lem a ha, real_be_lem b hb)
      (word_order (real_word a) (real_word b) xs ys (real_word-IsU64 a ha) (real_word-IsU64 b hb)
        ∙ ap (λ o. then_cmp o (lex xs ys)) (real_word-order a b ha hb))

-- A 64-bit rowid is read back from its eight bytes.
pub rowid_from_be-rowid_be : (v : ℕ) → IsU64 v → rowid_from_be (rowid_be v) ≡ some v
unfolding rowid_be rowid_from_be be_bytes
rowid_from_be-rowid_be v h =
    ap (λ (x : ℕ). rowid_from_be (be_bytes 8 x)) (flip_lem v h)
    ∙ ap (λ (x : ℕ). some (bit_xor x (2 ^ 63))) (from_be-be_bytes 8 (flipped v) (flipped-IsU64 v h))
    ∙ ap some (flip_lem (flipped v) (flipped-IsU64 v h) ∙ flipped_twice v h)
