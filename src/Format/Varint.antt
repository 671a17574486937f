-- ===== src/Format/Varint.antt =====
-- format.rs: LEB128 numbers, as `put_varint` writes and `take_varint` reads them.
use native.Mathlib.Nat.{pow-suc}
use mathlib.Core.Path.{ap₂}
use native.Mathlib.Numerals.{towards_suc}
use arkeion.Common.{
  ℕ, zero, suc, ◌+◌, ◌*◌, ◌/◌, ◌%◌, ◌^◌, ◌≤◌, ◌<◌, ap, ◌∙◌, arith, bit_and, bit_or, some, List, [],
  ◌∷◌, ◌++◌, inl, inr, length, get_elem?, Option-cases, true, refl, ◌≡◌, le→leb, All, leb,
  Bool-cases, lt→leb-false, leb→le,
}
use arkeion.Common.Bits.{low_seven, top_bit, set_top_bit, bit_or_shifted}
use arkeion.Common.Cursor.{At, At-cons, At-get_elem?}
use arkeion.Common.Words.{IsByte, IsU64}
use arkeion.Format.{put_varint_loop, put_varint, take_varint_loop, take_varint}

-- Any number of rounds above the number itself writes the same bytes.
put_varint_rounds : (f g v : ℕ) → v < f → v < g → put_varint_loop f v ≡ put_varint_loop g v
unfolding put_varint_loop
put_varint_rounds zero g v hf hg = absurd (omega arith)
put_varint_rounds (suc f) zero v hf hg = absurd (omega arith)
put_varint_rounds (suc f) (suc g) v hf hg = ground (arith, put_varint_rounds f g (v / 2 ^ 7))

low_group : (v : ℕ) → bit_and v 0x7f ≡ v % 128
low_group v = low_seven v

inner_group : (v : ℕ) → bit_or (bit_and v 0x7f) 0x80 ≡ v % 128 + 128
inner_group v = rw (low_seven v) (set_top_bit (v % 128) (omega arith))

-- What `put_varint` writes, group by group.
pub put_varint_last : (v : ℕ) → v < 128 → put_varint v ≡ v ∷ []
unfolding put_varint
put_varint_last v h = ground (arith, low_group v)

pub put_varint_more : (v : ℕ) → 128 ≤ v → put_varint v ≡ (v % 128 + 128) ∷ put_varint (v / 128)
unfolding put_varint
put_varint_more v h = ground (
  arith,
  inner_group v,
  put_varint_rounds v (suc (v / 128)) (v / 128) (omega arith) (omega arith),
)

-- Each element of an encoding is a byte.
put_varint-IsByte_below : (k v : ℕ) → v < k → All IsByte (put_varint v)
put_varint-IsByte_below zero v h = absurd (omega arith)
put_varint-IsByte_below (suc k) v h = elim (Bool-cases (leb 128 v)) [
  | inl t ↦
      rw (put_varint_more v (ground arith))
        (omega arith, put_varint-IsByte_below k (v / 128) (ground arith))
  | inr f ↦ rw (put_varint_last v (ground arith)) (ground arith, tt)
]

pub put_varint-IsByte : (v : ℕ) → All IsByte (put_varint v)
put_varint-IsByte v = put_varint-IsByte_below (suc v) v (omega arith)

pub shift_seven : (s : ℕ) → 2 ^ (s + 7) ≡ 128 * 2 ^ s
shift_seven s = simp towards_suc (omega arith)

-- The lowest group of `v` and the rest, both shifted.
pub split_group : (v s : ℕ) → v * 2 ^ s ≡ v % 128 * 2 ^ s + v / 128 * 2 ^ (s + 7)
split_group v s =
    let whole : v ≡ v % 128 + 128 * (v / 128) = omega arith in
    omega (arith, ap (λ (t : ℕ). t * 2 ^ s) whole, ap (λ (t : ℕ). v / 128 * t) (shift_seven s))

pub group_bound : (g t : ℕ) → g < 128 → g * t ≤ 127 * t
group_bound g t h = grind arith

-- A group that fits is added to what is read.
add_group :
    (acc g shift : ℕ)
    → acc < 2 ^ shift
    → acc + g * 2 ^ shift < 2 ^ 64
    → bit_or acc (g * 2 ^ shift % 2 ^ 64) ≡ acc + g * 2 ^ shift
add_group acc g shift ha h =
    let fits : g * 2 ^ shift % 2 ^ 64 ≡ g * 2 ^ shift = omega arith in
    ap (bit_or acc) fits ∙ bit_or_shifted shift acc g ha

-- One round on the last byte of a number, and on a byte before it.
last_round :
    (rounds : ℕ) (buf rest : List ℕ) (pos acc g shift : ℕ)
    → At buf pos (g ∷ rest)
    → g < 128
    → acc < 2 ^ shift
    → acc + g * 2 ^ shift < 2 ^ 64
    → take_varint_loop (suc rounds) buf pos acc shift ≡ some (acc + g * 2 ^ shift, pos + 1)
unfolding take_varint_loop
last_round rounds buf rest pos acc g shift at hg ha h =
    let low : bit_and g 0x7f ≡ g = low_seven g ∙ omega arith in
    let top : bit_and g 0x80 ≡ 0 = top_bit g (omega arith) ∙ omega arith in
    rw (At-get_elem? buf g rest pos at, top, low, add_group acc g shift ha h)

inner_round :
    (rounds : ℕ) (buf rest : List ℕ) (pos acc g shift : ℕ)
    → At buf pos ((g + 128) ∷ rest)
    → g < 128
    → shift + 7 < 64
    → acc < 2 ^ shift
    → acc + g * 2 ^ shift < 2 ^ 64
    → take_varint_loop (suc rounds) buf pos acc shift
      ≡ take_varint_loop rounds buf (pos + 1) (acc + g * 2 ^ shift) (shift + 7)
unfolding take_varint_loop
inner_round rounds buf rest pos acc g shift at hg hs ha h =
    let low : bit_and (g + 128) 0x7f ≡ g = low_seven (g + 128) ∙ omega arith in
    let top : bit_and (g + 128) 0x80 ≡ 128 = top_bit (g + 128) (omega arith) ∙ omega arith in
    rw (
      At-get_elem? buf (g + 128) rest pos at,
      top,
      low,
      add_group acc g shift ha h,
      lt→leb-false 64 (shift + 7) hs,
    )

-- `v` is what is still to be read, and it counts from bit `shift` on.
take_varint_loop-put_varint :
    (k v acc shift : ℕ) (buf rest : List ℕ) (pos : ℕ)
    → v < 128 ^ suc k
    → shift + 7 * k < 64
    → acc < 2 ^ shift
    → acc + v * 2 ^ shift < 2 ^ 64
    → At buf pos (put_varint v ++ rest)
    → take_varint_loop (suc k) buf pos acc shift
      ≡ some (acc + v * 2 ^ shift, pos + length (put_varint v))
take_varint_loop-put_varint zero v acc shift buf rest pos hv hs ha h at =
    let e = put_varint_last v (omega arith) in
    rw e (last_round zero buf rest pos acc v shift (rw e at at) (omega arith) ha h)
take_varint_loop-put_varint (suc k) v acc shift buf rest pos hv hs ha h at =
    elim (Bool-cases (leb 128 v)) [
      | inl t ↦
          let big : 128 ≤ v = leb→le 128 v t in
          let g = v % 128 in
          let e = put_varint_more v big in
          let here : At buf pos ((g + 128) ∷ (put_varint (v / 128) ++ rest)) = rw e at at in
          let split = split_group v shift in
          let end : pos + 1 + length (put_varint (v / 128)) ≡ pos + length (put_varint v) =
            rw e (omega arith) in
          inner_round (suc k) buf (put_varint (v / 128) ++ rest) pos acc g shift here (omega arith)
            (omega arith) ha (omega arith)
          ∙ take_varint_loop-put_varint k (v / 128) (acc + g * 2 ^ shift) (shift + 7) buf rest
              (pos + 1) (omega (arith, pow-suc 128 (suc k))) (omega arith)
              (omega (arith, shift_seven shift, group_bound g (2 ^ shift) (omega arith)))
              (omega arith) (At-cons buf (g + 128) (put_varint (v / 128) ++ rest) pos here)
          ∙ ap₂ (λ (x p : ℕ). some (x, p)) (omega arith) end
      | inr f ↦
          let small : v < 128 = ground arith in
          let e = put_varint_last v small in
          rw e (last_round (suc k) buf rest pos acc v shift (rw e at at) small ha h)
    ]

-- More rounds than the shift allows make no difference: the guard on the shift ends the loop.
take_varint_loop_rounds :
    (f g : ℕ) (buf : List ℕ) (pos v shift : ℕ)
    → 64 ≤ shift + 7 * suc f
    → 64 ≤ shift + 7 * suc g
    → take_varint_loop (suc f) buf pos v shift ≡ take_varint_loop (suc g) buf pos v shift
unfolding take_varint_loop
take_varint_loop_rounds zero zero buf pos v shift hf hg = refl
take_varint_loop_rounds zero (suc g) buf pos v shift hf hg =
    let full : leb 64 (shift + 7) ≡ true = le→leb 64 (shift + 7) (omega arith) in
    elim (Option-cases (get_elem? buf pos)) [ inl e ↦ rw e | inr (b, e) ↦ rw (e, full) ]
take_varint_loop_rounds (suc f) zero buf pos v shift hf hg =
    let full : leb 64 (shift + 7) ≡ true = le→leb 64 (shift + 7) (omega arith) in
    elim (Option-cases (get_elem? buf pos)) [ inl e ↦ rw e | inr (b, e) ↦ rw (e, full) ]
take_varint_loop_rounds (suc f) (suc g) buf pos v shift hf hg =
    elim (Option-cases (get_elem? buf pos)) [
      | inl e ↦ rw e
      | inr (b, e) ↦
          let v' : ℕ = bit_or v (bit_and b 0x7f * 2 ^ shift % 2 ^ 64) in
          rw (
            e,
            take_varint_loop_rounds f g buf (pos + 1) v' (shift + 7) (omega arith) (omega arith),
          )
    ]

-- Wherever an encoded u64 stands in a buffer, `take_varint` reads it back and stops behind it.
pub take_varint-put_varint :
    (buf rest : List ℕ) (pos v : ℕ)
    → IsU64 v
    → At buf pos (put_varint v ++ rest)
    → take_varint buf pos ≡ some (v, pos + length (put_varint v))
unfolding take_varint
take_varint-put_varint buf rest pos v h at =
    take_varint_loop_rounds 63 9 buf pos 0 0 (omega arith) (omega arith)
    ∙ take_varint_loop-put_varint 9 v 0 0 buf rest pos (omega arith) (omega arith) (omega arith)
        (omega arith) at
    ∙ ap (λ (x : ℕ). some (x, pos + length (put_varint v))) (omega arith)
