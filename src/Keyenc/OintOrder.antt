-- ===== src/Keyenc/OintOrder.antt =====
-- The byte order of encoded integers.
use mathlib.Core.Path.{ap₂}
use arkeion.Common.{
  ℕ, ◌+◌, ◌-◌, ◌^◌, ◌≤◌, ◌<◌, ◌≡◌, refl, sym, ap, ◌∙◌, arith, compare, List, [], ◌∷◌, ◌++◌, inl,
  inr, map, length, All, ltb, Bool-cases, ltb→lt, ltb-false,
}
use arkeion.Common.Words.{be_bytes, IsByte, IsU64, signed, compare_ℤ}
use arkeion.Common.Lex.{
  lex, then_cmp, lex-append, lex-be_bytes, compare_refl, compare-cases, compare-lt, compare-gt,
}
use arkeion.Keyenc.{nbytes, significant, complement, encode_oint}
use arkeion.Keyenc.Oint.{
  encode_oint-nonneg, encode_oint-neg, length-significant, length-map-complement,
  significant-IsByte,
}
use arkeion.Keyenc.Magnitude.{nbytes-bounds, nbytes-lt, significant_lem}

significant_order :
    (u w : ℕ)
    → IsU64 u
    → IsU64 w
    → nbytes u ≡ nbytes w
    → lex (significant u) (significant w) ≡ compare u w
significant_order u w hu hw same =
    ap₂ lex (significant_lem u hu) (significant_lem w hw ∙ ap (λ k. be_bytes k w) (sym same))
    ∙ lex-be_bytes (nbytes u) u w (nbytes-bounds u hu).1 (rw same (nbytes-bounds w hw).1)

magnitude_order :
    (u w : ℕ) (xs ys : List ℕ)
    → IsU64 u
    → IsU64 w
    → then_cmp (compare (nbytes u) (nbytes w)) (lex (significant u ++ xs) (significant w ++ ys))
      ≡ then_cmp (compare u w) (lex xs ys)
magnitude_order u w xs ys hu hw = elim (compare-cases (nbytes u) (nbytes w)) [
  | inl (less, e) ↦ rw (e, compare-lt u w (nbytes-lt u w hu hw less))
  | inr (inl (same, e)) ↦ rw e (
      lex-append (significant u) (significant w) xs ys
        (length-significant u hu ∙ same ∙ sym (length-significant w hw))
      ∙ ap (λ o. then_cmp o (lex xs ys)) (significant_order u w hu hw same))
  | inr (inr (more, e)) ↦ rw (e, compare-gt u w (nbytes-lt w u hw hu more))
]

complement_compare : (a b : ℕ) → a < 256 → b < 256 → compare (255 - a) (255 - b) ≡ compare b a
complement_compare a b ha hb = ground arith

lex-map-complement :
    (p q : List ℕ)
    → length p ≡ length q
    → All IsByte p
    → All IsByte q
    → lex (map complement p) (map complement q) ≡ lex q p
lex-map-complement [] [] e hp hq = refl
lex-map-complement [] (b ∷ q) e hp hq = absurd (omega arith)
lex-map-complement (a ∷ p) [] e hp hq = absurd (omega arith)
lex-map-complement (a ∷ p) (b ∷ q) e hp hq =
    ap₂ then_cmp (complement_compare a b hp.0 hq.0) (lex-map-complement p q (omega arith) hp.1 hq.1)

complemented_order :
    (u w : ℕ) (xs ys : List ℕ)
    → IsU64 u
    → IsU64 w
    → then_cmp
        (compare (127 - nbytes u) (127 - nbytes w))
        (lex (map complement (significant u) ++ xs) (map complement (significant w) ++ ys))
      ≡ then_cmp (compare w u) (lex xs ys)
complemented_order u w xs ys hu hw =
    let few : nbytes u ≤ 8 = (nbytes-bounds u hu).0 in
    let few' : nbytes w ≤ 8 = (nbytes-bounds w hw).0 in
    elim (compare-cases (nbytes u) (nbytes w)) [
      | inl (less, e) ↦ rw (
        compare-gt (127 - nbytes u) (127 - nbytes w) (omega arith),
        compare-gt w u (nbytes-lt u w hu hw less),
      )
      | inr (inl (same, e)) ↦
          ap
            (λ k.
              then_cmp (compare (127 - nbytes u) (127 - k))
                (lex (map complement (significant u) ++ xs) (map complement (significant w) ++ ys)))
            (sym same)
          ∙ rw (compare_refl (127 - nbytes u)) (
              lex-append (map complement (significant u)) (map complement (significant w)) xs ys (
                omega (
                  arith,
                  same,
                  length-significant u hu,
                  length-significant w hw,
                  length-map-complement (significant u),
                  length-map-complement (significant w),
                ))
              ∙ ap (λ o. then_cmp o (lex xs ys))
                  (lex-map-complement (significant u) (significant w)
                      (length-significant u hu ∙ same ∙ sym (length-significant w hw))
                      (significant-IsByte u hu) (significant-IsByte w hw)
                    ∙ significant_order w u hw hu (sym same)))
      | inr (inr (more, e)) ↦ rw (
        compare-lt (127 - nbytes u) (127 - nbytes w) (omega arith),
        compare-lt w u (nbytes-lt w u hw hu more),
      )
    ]

add_compare : (k a b : ℕ) → compare (k + a) (k + b) ≡ compare a b
add_compare k a b = ground arith

-- The bytes of two encoded 64-bit integers, with any bytes behind them, compare as the integers,
-- and where these are equal as what is behind them.
pub encode_oint-order :
    (a b : ℕ) (xs ys : List ℕ)
    → IsU64 a
    → IsU64 b
    → lex (encode_oint a ++ xs) (encode_oint b ++ ys)
      ≡ then_cmp (compare_ℤ (signed a) (signed b)) (lex xs ys)
encode_oint-order a b xs ys ha hb = elim (Bool-cases (ltb a (2 ^ 63))) [
  | inl s ↦ elim (Bool-cases (ltb b (2 ^ 63))) [
    | inl t ↦
        rw (encode_oint-nonneg a (ltb→lt a _ s), encode_oint-nonneg b (ltb→lt b _ t), s, t)
          (rw (add_compare 128 (nbytes a) (nbytes b)) (magnitude_order a b xs ys ha hb))
    | inr t ↦
        rw (encode_oint-nonneg a (ltb→lt a _ s), encode_oint-neg b (ltb-false b _ t), s, t)
          (rw (compare-gt (128 + nbytes a) (127 - nbytes (2 ^ 64 - 1 - b)) (omega arith)))
  ]
  | inr s ↦ elim (Bool-cases (ltb b (2 ^ 63))) [
    | inl t ↦
        rw (encode_oint-neg a (ltb-false a _ s), encode_oint-nonneg b (ltb→lt b _ t), s, t)
          (rw (compare-lt (127 - nbytes (2 ^ 64 - 1 - a)) (128 + nbytes b) (omega arith)))
    | inr t ↦
        rw (encode_oint-neg a (ltb-false a _ s), encode_oint-neg b (ltb-false b _ t), s, t)
          (complemented_order (2 ^ 64 - 1 - a) (2 ^ 64 - 1 - b) xs ys (omega arith) (omega arith))
  ]
]
