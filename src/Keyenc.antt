-- ===== src/Keyenc.antt =====
-- keyenc.rs (and `rowid_be` of record.rs): index and row keys whose byte order is the order of
-- the values. An encoder that appends to a vector is the function to the bytes that it appends.
pub mod Magnitude
pub mod Oint
pub mod OintOrder
pub mod Fixed
pub mod Real
pub mod Order
pub mod Prefix
use arkeion.Common.{
  ℕ, zero, suc, ◌+◌, ◌-◌, ◌/◌, ◌^◌, bit_and, bit_or, bit_xor, Bool, not, Option, none, some, List,
  [], ◌∷◌, ◌++◌, map, replicate, drop, length, get_elem?, ltb, leb, ◌==◌, if◌then◌else◌, ◌>>=◌,
}
use arkeion.Common.BitLength.{leading_zeros}
use arkeion.Common.Cursor.{get_range?}
use arkeion.Common.Words.{be_bytes, from_be}
use arkeion.Record.{Value, null, bool, integer, real, text, blob}

-- `8 - (u.leading_zeros() / 8)`: 0 for 0.
unfoldable pub nbytes : ℕ → ℕ
nbytes u = 8 - leading_zeros u / 8

-- `i64` to 8 bytes, the sign bit inverted.
unfoldable pub rowid_be : ℕ → List ℕ
rowid_be rowid = be_bytes 8 (bit_xor rowid (2 ^ 63))

unfoldable pub rowid_from_be : List ℕ → Option ℕ
rowid_from_be bytes = if length bytes == 8 then some (bit_xor (from_be bytes) (2 ^ 63)) else none

-- All bits of a negative number are inverted; of another the sign bit is set.
pub real_be : ℕ → List ℕ
real_be bits = be_bytes 8 (
    if not (bit_and bits 0x8000_0000_0000_0000 == 0)
    then 2 ^ 64 - 1 - bits
    else bit_or bits 0x8000_0000_0000_0000)

-- The loop of `encode_bytes` and of `encode_text_prefix`: a zero byte is written `00 FF`.
pub escape : List ℕ → List ℕ
escape [] = []
escape (b ∷ bs) = if b == 0 then b ∷ 0xff ∷ escape bs else b ∷ escape bs

pub encode_bytes : List ℕ → List ℕ
unfolding escape
encode_bytes b = escape b ++ (0x00 ∷ 0x00 ∷ [])

unfoldable pub encode_text_prefix : List ℕ → List ℕ
unfolding escape
encode_text_prefix s = 0x01 ∷ escape s

unfoldable pub encode_index_value : Value → List ℕ
unfolding rowid_be real_be encode_bytes
encode_index_value null = 0x00 ∷ []
encode_index_value (integer n) = 0x01 ∷ rowid_be n
encode_index_value (real f) = 0x01 ∷ real_be f
encode_index_value (bool b) = 0x01 ∷ (if b then 1 else 0) ∷ []
encode_index_value (text s) = 0x01 ∷ encode_bytes s
encode_index_value (blob b) = 0x01 ∷ encode_bytes b

-- The significant bytes of a magnitude, `&u.to_be_bytes()[8 - nbytes..]`.
unfoldable pub significant : ℕ → List ℕ
significant u = drop (8 - nbytes u) (be_bytes 8 u)

abbrev pub complement : ℕ → ℕ
complement b = 255 - b

-- A header with the sign and the count of significant bytes, and these; those of a negative
-- number are complemented.
unfoldable pub encode_oint : ℕ → List ℕ
encode_oint v =
    if ltb v (2 ^ 63)
    then bit_or 0x80 (nbytes v) ∷ significant v
    else (0x7f - nbytes (2 ^ 64 - 1 - v)) ∷ map complement (significant (2 ^ 64 - 1 - v))

-- The bytes read, moved to the low end of an array of eight.
pub low_end : ℕ → List ℕ → ℕ
low_end n bytes = from_be (replicate (8 - n) 0 ++ bytes)

-- The two branches on the header; `n` is the count of bytes that it announces.
pub decode_nonneg : List ℕ → ℕ → ℕ → Option (ℕ × ℕ)
decode_nonneg buf pos n =
    if ltb 8 n
    then none
    else get_range? buf pos (pos + n) >>= λ bytes. some (low_end n bytes, pos + n)

pub decode_neg : List ℕ → ℕ → ℕ → Option (ℕ × ℕ)
decode_neg buf pos n =
    if ltb 8 n
    then none
    else get_range? buf pos (pos + n) >>= λ bytes.
        some (2 ^ 64 - 1 - low_end n (map complement bytes), pos + n)

-- The integer and the position behind it.
unfoldable pub decode_oint : List ℕ → ℕ → Option (ℕ × ℕ)
decode_oint buf pos = do
  header ← get_elem? buf pos
  if leb 0x80 header
      then decode_nonneg buf (pos + 1) (header - 0x80)
      else decode_neg buf (pos + 1) (0x7f - header)
