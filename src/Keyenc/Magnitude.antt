-- ===== src/Keyenc/Magnitude.antt =====
-- The byte count of a magnitude, and its significant bytes.
use native.Mathlib.Nat.{pow-suc, pow-le-pow_right, div-div-eq-div-mul}
use native.Mathlib.Numerals.{towards_suc}
use arkeion.Common.{
  ℕ, zero, suc, ◌+◌, ◌-◌, ◌*◌, ◌/◌, ◌%◌, ◌^◌, ◌≤◌, ◌<◌, ◌≡◌, refl, sym, ap, ◌∙◌, arith, [], ◌∷◌,
  ◌++◌, append_assoc, append-nil, drop, drop-append_length,
}
use arkeion.Common.Words.{be_bytes, length-be_bytes}
use arkeion.Common.BitLength.{bit_length, leading_zeros, bit_length-bounds}
use arkeion.Keyenc.{nbytes, significant}

pub pow_256 : (k : ℕ) → 256 ^ k ≡ 2 ^ (8 * k)
pow_256 zero = refl
pow_256 (suc k) =
    let eight : 8 * suc k ≡ 8 * k + 8 = omega arith in
    rw eight (simp towards_suc (omega (arith, pow_256 k, pow-suc 256 k)))

-- The count of bytes that a count of `b` bits takes.
bytes_of_bits :
    (b : ℕ)
    → b ≤ 64
    → (8 - (64 - b) / 8 ≤ 8)
      × (b ≤ 8 * (8 - (64 - b) / 8))
      × ((m : ℕ) → m < 8 - (64 - b) / 8 → 8 * m < b)
bytes_of_bits b h = (omega arith, omega arith, λ m hm. omega arith)

-- A 64-bit magnitude has at most 8 bytes, fits in `nbytes` of them and in no fewer.
pub nbytes-bounds :
    (u : ℕ)
    → u < 2 ^ 64
    → (nbytes u ≤ 8) × (u < 256 ^ nbytes u) × ((m : ℕ) → m < nbytes u → 256 ^ m ≤ u)
unfolding nbytes leading_zeros
nbytes-bounds u h =
    let (small, above, below) = bit_length-bounds 64 u h in
    let (few, enough, needed) = bytes_of_bits (bit_length 64 u) small in
    (
      few,
      omega (arith, above, pow_256 (nbytes u), pow-le-pow_right {n = 2} (omega arith) enough),
      λ m hm. rw (pow_256 m) (below (8 * m) (needed m hm)),
    )

-- Fewer bytes, smaller number.
pub nbytes-lt : (a b : ℕ) → a < 2 ^ 64 → b < 2 ^ 64 → nbytes a < nbytes b → a < b
nbytes-lt a b ha hb h = omega (arith, (nbytes-bounds a ha).1, (nbytes-bounds b hb).2 (nbytes a) h)

be_bytes-suc : (w k u : ℕ) → be_bytes (w + k) u ≡ be_bytes w (u / 256 ^ k) ++ be_bytes k u
unfolding be_bytes
be_bytes-suc w zero u =
    let none_left : w + 0 ≡ w = omega arith in
    let whole : u / 1 ≡ u = omega arith in
    ap (λ n. be_bytes n u) none_left
    ∙ ap (be_bytes w) (sym whole)
    ∙ sym (append-nil (be_bytes w (u / 1)))
be_bytes-suc w (suc k) u =
    let more : w + suc k ≡ suc (w + k) = omega arith in
    let power : 256 * 256 ^ k ≡ 256 ^ suc k = omega (arith, pow-suc 256 k) in
    let quotient : u / 256 / 256 ^ k ≡ u / 256 ^ suc k =
      div-div-eq-div-mul u 256 (256 ^ k) ∙ ap (λ (t : ℕ). u / t) power in
    ap (λ n. be_bytes n u) more
    ∙ ap (λ l. l ++ (u % 256 ∷ [])) (be_bytes-suc w k (u / 256))
    ∙ append_assoc (be_bytes w (u / 256 / 256 ^ k)) (be_bytes k (u / 256)) (u % 256 ∷ [])
    ∙ ap (λ q. be_bytes w q ++ be_bytes (suc k) u) quotient

drop-be_bytes : (n k u : ℕ) → k ≤ n → drop (n - k) (be_bytes n u) ≡ be_bytes k u
drop-be_bytes n k u h =
    let whole : n ≡ (n - k) + k = omega arith in
    ap (λ w. drop (n - k) (be_bytes w u)) whole
    ∙ ap (drop (n - k)) (be_bytes-suc (n - k) k u)
    ∙ drop-append_length (be_bytes (n - k) (u / 256 ^ k)) (be_bytes k u) (n - k)
        (sym (length-be_bytes (n - k) (u / 256 ^ k)))

pub significant_lem : (u : ℕ) → u < 2 ^ 64 → significant u ≡ be_bytes (nbytes u) u
unfolding significant
significant_lem u h = drop-be_bytes 8 (nbytes u) u (nbytes-bounds u h).0
