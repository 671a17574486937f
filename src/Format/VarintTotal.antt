-- ===== src/Format/VarintTotal.antt =====
-- format.rs: `take_varint` on any buffer, well formed or not.
use arkeion.Common.{
  ℕ, zero, suc, ◌+◌, ◌-◌, ◌/◌, ◌*◌, ◌%◌, ◌^◌, ◌≤◌, ◌<◌, ◌≡◌, ◌≢◌, ◌↔◌, ◌∙◌, ap, sym, refl, arith,
  bit_and, bit_or, false, Option, some, List, inl, inr, length, get_elem?, leb, ◌==◌, Bool-cases,
  Option-cases, get_elem?-lt_length,
}
use arkeion.Common.Bits.{bit_or-lt, bit_or_shifted, low_seven, pow-pos}
use arkeion.Format.Varint.{shift_seven, split_group, group_bound}
use native.Mathlib.Nat.{pow-le-pow_right, pow-suc, mul-le-mul_right, mod-lt, mod-add-div'}
use mathlib.Core.Path.{ap₂}
use arkeion.Common.Words.{IsU64}
use arkeion.Format.{take_varint_loop, take_varint}

take_varint_loop-bounds :
    (rounds : ℕ) (buf : List ℕ) (pos acc shift v p : ℕ)
    → IsU64 acc
    → shift < 64
    → take_varint_loop rounds buf pos acc shift ≡ some (v, p)
    → IsU64 v × (pos < p) × (7 * p + shift < 7 * pos + 71) × (p ≤ length buf)
unfolding take_varint_loop
take_varint_loop-bounds zero buf pos acc shift v p ha hs e = cc
take_varint_loop-bounds (suc rounds) buf pos acc shift v p ha hs e =
    elim (Option-cases (get_elem? buf pos)) [
      | inl missing ↦ cc missing
      | inr (b, there) ↦
          let v' : ℕ = bit_or acc (bit_and b 0x7f * 2 ^ shift % 2 ^ 64) in
          let fits : IsU64 v' = bit_or-lt 64 acc _ ha (omega arith) in
          ground (
            arith,
            there,
            get_elem?-lt_length buf pos b there,
            fits,
            take_varint_loop-bounds rounds buf (pos + 1) v' (shift + 7) v p fits,
          )
    ]

-- A number that `take_varint` reads is a u64 in one to ten bytes of the buffer.
pub take_varint-bounds :
    (buf : List ℕ) (pos v p : ℕ)
    → take_varint buf pos ≡ some (v, p)
    → IsU64 v × (pos < p) × (p ≤ pos + 10) × (p ≤ length buf)
unfolding take_varint
take_varint-bounds buf pos v p e =
    omega (arith, take_varint_loop-bounds 64 buf pos 0 0 v p (omega arith) (omega arith) e)

pow_sum : (k s : ℕ) → 2 ^ (k + s) ≡ 2 ^ k * 2 ^ s
pow_sum k zero =
    let same : k + 0 ≡ k = omega arith in
    let one : 2 ^ k ≡ 2 ^ k * 2 ^ 0 = omega arith in ap (λ (e : ℕ). 2 ^ e) same ∙ one
pow_sum k (suc s) =
    let double : 2 ^ suc (k + s) ≡ 2 ^ (k + s) * 2 = pow-suc 2 (k + s) in
    let split : 2 ^ k * 2 ^ suc s ≡ 2 ^ k * (2 ^ s * 2) = ap (λ (t : ℕ). 2 ^ k * t) (pow-suc 2 s) in
    let next : k + suc s ≡ suc (k + s) = omega arith in
    ap (λ (e : ℕ). 2 ^ e) next ∙ omega (arith, double, split, pow_sum k s)

-- What is read so far and a group of seven bits behind it; what passes bit 63 is dropped.
with_group :
    (acc g shift : ℕ)
    → acc < 2 ^ shift
    → shift < 64
    → bit_or acc (g * 2 ^ shift % 2 ^ 64) ≡ (acc + g * 2 ^ shift) % 2 ^ 64
with_group acc g shift ha hs =
    let k = 64 - shift in
    let all : k + shift ≡ 64 = omega (arith, hs) in
    let whole : 2 ^ k * 2 ^ shift ≡ 2 ^ 64 = sym (pow_sum k shift) ∙ ap (λ (e : ℕ). 2 ^ e) all in
    let q = g / 2 ^ k in
    let r = g % 2 ^ k in
    let small : suc r ≤ 2 ^ k = mod-lt g (pow-pos k) in
    let fits : suc r * 2 ^ shift ≤ 2 ^ k * 2 ^ shift = mul-le-mul_right (2 ^ shift) small in
    let next : suc r * 2 ^ shift ≡ r * 2 ^ shift + 2 ^ shift = omega arith in
    let parts : g * 2 ^ shift ≡ q * 2 ^ 64 + r * 2 ^ shift =
      let cut : g ≡ r + q * 2 ^ k = sym (mod-add-div' g (2 ^ k)) in
      let spread : (r + q * 2 ^ k) * 2 ^ shift ≡ q * (2 ^ k * 2 ^ shift) + r * 2 ^ shift =
        omega arith in
      ap (λ (t : ℕ). t * 2 ^ shift) cut ∙ spread ∙ ap (λ (t : ℕ). q * t + r * 2 ^ shift) whole in
    let kept : g * 2 ^ shift % 2 ^ 64 ≡ r * 2 ^ shift =
      omega (arith, parts, next, fits, whole, ha) in
    ap (bit_or acc) kept
    ∙ bit_or_shifted shift acc r ha
    ∙ omega (arith, parts, next, fits, whole, ha)

group-lt : (b : ℕ) → bit_and b 0x7f < 128
group-lt b = omega (arith, low_seven b)

-- A group that another one follows is not cut.
with_group_inner :
    (acc b shift : ℕ)
    → acc < 2 ^ shift
    → shift + 7 < 64
    → (bit_or acc (bit_and b 0x7f * 2 ^ shift % 2 ^ 64) ≡ acc + bit_and b 0x7f * 2 ^ shift)
      × (acc + bit_and b 0x7f * 2 ^ shift < 2 ^ (shift + 7))
with_group_inner acc b shift ha hs =
    let cut = with_group acc (bit_and b 0x7f) shift ha (omega (arith, hs)) in
    let bound = group_bound (bit_and b 0x7f) (2 ^ shift) (group-lt b) in
    let upto : shift + 7 ≤ 63 = omega (arith, hs) in
    let top : 2 ^ (shift + 7) ≤ 2 ^ 63 = pow-le-pow_right (omega arith) upto in
    (
      omega (arith, cut, bound, top, shift_seven shift, ha),
      omega (arith, bound, shift_seven shift, ha),
    )

join_groups : (g u s : ℕ) → g < 128 → (g + 128 * u) * 2 ^ s ≡ g * 2 ^ s + u * 2 ^ (s + 7)
join_groups g u s h =
    split_group (g + 128 * u) s
    ∙ ap₂ (λ (a b : ℕ). a * 2 ^ s + b * 2 ^ (s + 7)) (omega (arith, h)) (omega (arith, h))

-- From a position on, a count of bytes with the top bit set and then one without, and the number
-- that their low seven bits make, the lowest group first.
abbrev pub Groups : List ℕ → ℕ → ℕ → ℕ → Type 0
Groups buf pos zero u =
    (b : ℕ) × (get_elem? buf pos ≡ some b) × (bit_and b 0x80 ≡ 0) × (u ≡ bit_and b 0x7f)
Groups buf pos (suc n) u =
    (b : ℕ) × (rest : ℕ) × (get_elem? buf pos ≡ some b)
    × (bit_and b 0x80 ≢ 0)
    × Groups buf (pos + 1) n rest
    × (u ≡ bit_and b 0x7f + 128 * rest)

-- A number that was read behind `acc`, as the groups that it was read from.
abbrev ReadFrom : List ℕ → ℕ → ℕ → ℕ → ℕ → ℕ → Type 0
ReadFrom buf pos acc shift v p =
    (n : ℕ) × (u : ℕ) × (shift + 7 * n < 64)
    × Groups buf pos n u
    × (p ≡ pos + suc n)
    × (v ≡ (acc + u * 2 ^ shift) % 2 ^ 64)

take_varint_loop-ReadFrom :
    (rounds : ℕ) (buf : List ℕ) (pos acc shift v p : ℕ)
    → acc < 2 ^ shift
    → shift < 64
    → take_varint_loop rounds buf pos acc shift ≡ some (v, p)
    → ReadFrom buf pos acc shift v p
unfolding take_varint_loop
take_varint_loop-ReadFrom zero buf pos acc shift v p ha hs e = cc
take_varint_loop-ReadFrom (suc rounds) buf pos acc shift v p ha hs e =
    elim (Option-cases (get_elem? buf pos)) [
      | inl missing ↦ cc missing
      | inr (b, there) ↦
          let g : ℕ = bit_and b 0x7f in
          let v' : ℕ = bit_or acc (g * 2 ^ shift % 2 ^ 64) in
          elim (Bool-cases (bit_and b 0x80 == 0)) [
            | inl last ↦
                let one : ◌≡◌ {A = Option (ℕ × ℕ)} (some (v', pos + 1)) (some (v, p)) =
                  rw (there, last) at e in
                let low : bit_and b 0x80 ≡ 0 = ground (arith, last) in
                let end : p ≡ pos + 1 = ground (arith, one) in
                let same : v' ≡ v = ground (arith, one) in
                (
                  0,
                  g,
                  ground (arith, hs),
                  (b, there, low, refl),
                  end,
                  sym same ∙ with_group acc g shift ha hs,
                )
            | inr more ↦ elim (Bool-cases (leb 64 (shift + 7))) [
              | inl full ↦ absurd (ground (arith, there, more, full, e))
              | inr room ↦
                  let fits : shift + 7 < 64 = ground (arith, room) in
                  let (sum, below) = with_group_inner acc b shift ha fits in
                  let rest : take_varint_loop rounds buf (pos + 1) v' (shift + 7) ≡ some (v, p) =
                    rw (there, more, room) at e in
                  let (n, u, bound, c, end, value) =
                    take_varint_loop-ReadFrom rounds buf (pos + 1) v' (shift + 7) v p
                      (omega (arith, sum, below)) fits rest in
                  let high : bit_and b 0x80 ≢ 0 = ground (arith, more) in
                  (
                    suc n,
                    g + 128 * u,
                    omega (arith, bound),
                    (b, u, there, high, c, refl),
                    omega (arith, end),
                    value
                        ∙ ap (λ (t : ℕ). t % 2 ^ 64)
                            (omega (arith, sum, join_groups g u shift (group-lt b))),
                  )
            ]
          ]
    ]

Groups-take_varint_loop :
    (n rounds : ℕ) (buf : List ℕ) (pos acc shift u : ℕ)
    → acc < 2 ^ shift
    → Groups buf pos n u
    → shift + 7 * n < 64
    → n < rounds
    → take_varint_loop rounds buf pos acc shift ≡ some ((acc + u * 2 ^ shift) % 2 ^ 64, pos + suc n)
unfolding take_varint_loop
Groups-take_varint_loop n zero buf pos acc shift u ha c hs hr = absurd (omega (arith, hr))
Groups-take_varint_loop zero (suc rounds) buf pos acc shift u ha (b, there, low, only) hs hr =
    rw (there, low, only, with_group acc (bit_and b 0x7f) shift ha (omega (arith, hs))) refl
Groups-take_varint_loop (suc n) (suc rounds) buf pos acc shift u ha (b, rest, there, high, c, both)
      hs hr =
    let g : ℕ = bit_and b 0x7f in
    let v' : ℕ = bit_or acc (g * 2 ^ shift % 2 ^ 64) in
    let (sum, below) = with_group_inner acc b shift ha (omega (arith, hs)) in
    let e =
      Groups-take_varint_loop n rounds buf (pos + 1) v' (shift + 7) rest (omega (arith, sum, below))
        c (omega (arith, hs)) (omega (arith, hr)) in
    let more : (bit_and b 0x80 == 0) ≡ false = ground (arith, high) in
    let room : leb 64 (shift + 7) ≡ false = ground (arith, hs) in
    let end : pos + 1 + suc n ≡ pos + suc (suc n) = omega arith in
    let value : v' + rest * 2 ^ (shift + 7) ≡ acc + u * 2 ^ shift =
      omega (arith, sum, join_groups g rest shift (group-lt b))
      ∙ ap (λ (t : ℕ). acc + t * 2 ^ shift) (sym both) in
    rw (there, more, room) (e ∙ ap₂ (λ (x p : ℕ). some (x % 2 ^ 64, p)) value end)

-- `take_varint` reads a number, and stops at a position, exactly when that is behind fewer than ten
-- bytes of the buffer with the top bit set and then one without it, and the number is that of their
-- low seven bits, the lowest group first, modulo 2^64; on all other bytes it reads none.
pub take_varint_iff :
    (buf : List ℕ) (pos v p : ℕ)
    → (take_varint buf pos ≡ some (v, p))
      ↔ ((n : ℕ) × (u : ℕ) × (n < 10) × Groups buf pos n u × (p ≡ pos + suc n) × (v ≡ u % 2 ^ 64))
unfolding take_varint
take_varint_iff buf pos v p = (
  λ e.
      let (n, u, bound, c, end, value) =
        take_varint_loop-ReadFrom 64 buf pos 0 0 v p (omega arith) (omega arith) e in
      (n, u, omega (arith, bound), c, end, value ∙ ap (λ (t : ℕ). t % 2 ^ 64) (omega arith)),
  λ (n, u, few, c, end, value).
      Groups-take_varint_loop n 64 buf pos 0 0 u (omega arith) c (omega (arith, few))
        (omega (arith, few))
      ∙ ap₂ (λ (x p : ℕ). some (x, p)) (ap (λ (t : ℕ). t % 2 ^ 64) (omega arith) ∙ sym value)
          (sym end),
)
