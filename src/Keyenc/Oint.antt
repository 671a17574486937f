-- ===== src/Keyenc/Oint.antt =====
-- `encode_oint` against `decode_oint`.
use mathlib.Core.Path.{ap₂}
use arkeion.Common.{
  ℕ, zero, suc, ◌+◌, ◌-◌, ◌^◌, ◌≤◌, ◌<◌, ◌≡◌, refl, ap, ◌∙◌, arith, bit_or, some, List, [], ◌∷◌,
  ◌++◌, inl, inr, map, length, replicate, All, ltb, Bool-cases, ltb→lt, ltb-false, lt→ltb,
  le→ltb-false, le→leb, lt→leb-false,
}
use arkeion.Common.Bits.{agree_below, agree_below-eq}
use arkeion.Common.Cursor.{At, At-cons, At-get_elem?, At-get_range?}
use arkeion.Common.Words.{
  length-be_bytes, be_bytes-IsByte, from_be, from_be_acc, from_be-be_bytes, IsByte, IsU64,
}
use arkeion.Keyenc.{
  nbytes, significant, complement, encode_oint, low_end, decode_nonneg, decode_neg, decode_oint,
}
use arkeion.Keyenc.Magnitude.{nbytes-bounds, significant_lem}

from_be_acc-zeros : (j : ℕ) (bs : List ℕ) → from_be_acc 0 (replicate j 0 ++ bs) ≡ from_be_acc 0 bs
from_be_acc-zeros zero bs = refl
from_be_acc-zeros (suc j) bs = from_be_acc-zeros j bs

low_end-significant : (u : ℕ) → IsU64 u → low_end (nbytes u) (significant u) ≡ u
unfolding low_end
low_end-significant u h =
    from_be_acc-zeros (8 - nbytes u) (significant u)
    ∙ ap from_be (significant_lem u h)
    ∙ from_be-be_bytes (nbytes u) u (nbytes-bounds u h).1

pub length-significant : (u : ℕ) → IsU64 u → length (significant u) ≡ nbytes u
length-significant u h =
    ap (λ (l : List ℕ). length l) (significant_lem u h) ∙ length-be_bytes (nbytes u) u

map-complement-complement : (bs : List ℕ) → All IsByte bs → map complement (map complement bs) ≡ bs
map-complement-complement [] h = refl
map-complement-complement (b ∷ bs) h =
    let twice : 255 - (255 - b) ≡ b = omega (arith, h.0) in
    ap₂ ◌∷◌ twice (map-complement-complement bs h.1)

pub length-map-complement : (bs : List ℕ) → length (map complement bs) ≡ length bs
length-map-complement [] = refl
length-map-complement (b ∷ bs) = ap suc (length-map-complement bs)

pub significant-IsByte : (u : ℕ) → IsU64 u → All IsByte (significant u)
significant-IsByte u h = rw (significant_lem u h) (be_bytes-IsByte (nbytes u) u)

header_nonneg : (n : ℕ) → n ≤ 8 → bit_or 0x80 n ≡ 128 + n
unfolding agree_below
header_nonneg n h = agree_below-eq (bit_or 0x80) (λ k. 128 + k) 9 refl n (omega arith)

decode_nonneg-significant :
    (buf rest : List ℕ) (pos u : ℕ)
    → IsU64 u
    → At buf pos (significant u ++ rest)
    → decode_nonneg buf pos (nbytes u) ≡ some (u, pos + nbytes u)
unfolding decode_nonneg
decode_nonneg-significant buf rest pos u h at = rw (
  le→ltb-false 8 (nbytes u) (nbytes-bounds u h).0,
  At-get_range? buf (significant u) rest pos (pos + nbytes u) at
      (omega (arith, length-significant u h)),
  low_end-significant u h,
)

decode_neg-significant :
    (buf rest : List ℕ) (pos u : ℕ)
    → IsU64 u
    → At buf pos (map complement (significant u) ++ rest)
    → decode_neg buf pos (nbytes u) ≡ some (2 ^ 64 - 1 - u, pos + nbytes u)
unfolding decode_neg
decode_neg-significant buf rest pos u h at = rw (
  le→ltb-false 8 (nbytes u) (nbytes-bounds u h).0,
  At-get_range? buf (map complement (significant u)) rest pos (pos + nbytes u) at
      (omega (arith, length-significant u h, length-map-complement (significant u))),
  map-complement-complement (significant u) (significant-IsByte u h),
  low_end-significant u h,
)

pub encode_oint-nonneg : (v : ℕ) → v < 2 ^ 63 → encode_oint v ≡ (128 + nbytes v) ∷ significant v
unfolding encode_oint
encode_oint-nonneg v h =
    rw (lt→ltb v (2 ^ 63) h, header_nonneg (nbytes v) (nbytes-bounds v (omega arith)).0)

pub encode_oint-neg :
    (v : ℕ)
    → 2 ^ 63 ≤ v
    → encode_oint v
      ≡ (127 - nbytes (2 ^ 64 - 1 - v)) ∷ map complement (significant (2 ^ 64 - 1 - v))
unfolding encode_oint
encode_oint-neg v h = rw (le→ltb-false v (2 ^ 63) h)

-- An encoded 64-bit integer has one to nine bytes.
pub length-encode_oint :
    (v : ℕ) → IsU64 v → (1 ≤ length (encode_oint v)) × (length (encode_oint v) ≤ 9)
length-encode_oint v h = elim (Bool-cases (ltb v (2 ^ 63))) [
  | inl t ↦
      rw (encode_oint-nonneg v (ltb→lt v _ t))
        (omega (arith, length-significant v h, (nbytes-bounds v h).0))
  | inr f ↦
      let c = 2 ^ 64 - 1 - v in
      let small : IsU64 c = omega arith in
      rw (encode_oint-neg v (ltb-false v _ f)) (
        omega (
          arith,
          length-map-complement (significant c),
          length-significant c small,
          (nbytes-bounds c small).0,
        ))
]

decode_oint_nonneg :
    (buf rest : List ℕ) (pos v n : ℕ)
    → At buf pos ((128 + n) ∷ rest)
    → decode_oint buf pos ≡ decode_nonneg buf (pos + 1) n
unfolding decode_oint
decode_oint_nonneg buf rest pos v n at =
    let count : 128 + n - 128 ≡ n = omega arith in
    rw (At-get_elem? buf (128 + n) rest pos at, le→leb 128 (128 + n) (omega arith), count)

decode_oint_neg :
    (buf rest : List ℕ) (pos n : ℕ)
    → n ≤ 8
    → At buf pos ((127 - n) ∷ rest)
    → decode_oint buf pos ≡ decode_neg buf (pos + 1) n
unfolding decode_oint
decode_oint_neg buf rest pos n h at =
    let count : 127 - (127 - n) ≡ n = omega arith in
    rw (At-get_elem? buf (127 - n) rest pos at, lt→leb-false 128 (127 - n) (omega arith), count)

-- Wherever an encoded 64-bit integer stands in a buffer, `decode_oint` reads it back and stops
-- behind it.
pub decode_oint-encode_oint :
    (buf rest : List ℕ) (pos v : ℕ)
    → IsU64 v
    → At buf pos (encode_oint v ++ rest)
    → decode_oint buf pos ≡ some (v, pos + length (encode_oint v))
decode_oint-encode_oint buf rest pos v h at = elim (Bool-cases (ltb v (2 ^ 63))) [
  | inl t ↦ nonneg (encode_oint-nonneg v (ltb→lt v _ t))
  | inr f ↦ neg (ltb-false v _ f) (encode_oint-neg v (ltb-false v _ f))
]
  where
    nonneg :
        encode_oint v ≡ (128 + nbytes v) ∷ significant v
        → decode_oint buf pos ≡ some (v, pos + length (encode_oint v))
    nonneg e =
        let here : At buf pos (((128 + nbytes v) ∷ significant v) ++ rest) = rw e at at in
        let end : pos + 1 + nbytes v ≡ pos + length (encode_oint v) =
          rw e (omega (arith, length-significant v h)) in
        decode_oint_nonneg buf (significant v ++ rest) pos v (nbytes v) here
        ∙ decode_nonneg-significant buf rest (pos + 1) v h
            (At-cons buf (128 + nbytes v) (significant v ++ rest) pos here)
        ∙ ap (λ (p : ℕ). some (v, p)) end

    c : ℕ
    c = 2 ^ 64 - 1 - v

    neg :
        2 ^ 63 ≤ v
        → encode_oint v ≡ (127 - nbytes c) ∷ map complement (significant c)
        → decode_oint buf pos ≡ some (v, pos + length (encode_oint v))
    neg big e =
        let small : IsU64 c = omega arith in
        let few : nbytes c ≤ 8 = (nbytes-bounds c small).0 in
        let here : At buf pos (((127 - nbytes c) ∷ map complement (significant c)) ++ rest) =
          rw e at at in
        let end : pos + 1 + nbytes c ≡ pos + length (encode_oint v) =
          rw e (omega (arith, length-significant c small, length-map-complement (significant c))) in
        let back : 2 ^ 64 - 1 - c ≡ v = omega arith in
        decode_oint_neg buf (map complement (significant c) ++ rest) pos (nbytes c) few here
        ∙ decode_neg-significant buf rest (pos + 1) c small
            (At-cons buf (127 - nbytes c) (map complement (significant c) ++ rest) pos here)
        ∙ ap₂ (λ (x p : ℕ). some (x, p)) back end
