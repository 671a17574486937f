-- ===== src/Record.antt =====
-- record.rs: typed cell values and the encoding of a record. A `Text` is its UTF-8 bytes, an
-- `Integer` its 64-bit pattern and a `Real` its `to_bits`. The borrowed view `ValueRef` of a value
-- is the value. A `usize` addition wraps, as in a build without overflow checks.
pub mod Zigzag
pub mod Payload
pub mod RoundTrip
pub mod Skip
pub mod Project
use Prim.Native.String.{String}
use arkeion.Common.{
  ℕ, zero, suc, ◌+◌, ◌-◌, ◌*◌, ◌/◌, ◌%◌, ◌^◌, bit_and, bit_xor, Bool, true, false, not, ◌&&◌, ◌||◌,
  Option, none, some, List, [], ◌∷◌, ◌++◌, length, get_elem?, get_or, take, ltb, leb, ◌==◌,
  if◌then◌else◌,
}
use arkeion.Common.Cursor.{get_range?}
use arkeion.Common.Words.{le_bytes, from_le}
pub use arkeion.Format.Prefixed.{add_usize}
use arkeion.Format.{put_varint, take_varint}
use arkeion.Error.{corrupt_record, Result, ok, err, ◌>>=◌, ok_or}

pub data Value : Type 0 where
  null : Value
  bool : Bool → Value
  integer : ℕ → Value
  real : ℕ → Value
  text : List ℕ → Value
  blob : List ℕ → Value

abbrev pub bad {ℓ} : {A : Type ℓ} → String → Result A
bad reason = err (corrupt_record reason)

abbrev pub tag_null : ℕ
tag_null = 0

abbrev pub tag_false : ℕ
tag_false = 1

abbrev pub tag_true : ℕ
tag_true = 2

abbrev pub tag_int : ℕ
tag_int = 3

abbrev pub tag_real : ℕ
tag_real = 4

abbrev pub tag_text : ℕ
tag_text = 5

abbrev pub tag_blob : ℕ
tag_blob = 6

-- `(v << 1) ^ (v >> 63)`: the arithmetic shift gives all ones for a negative number.
unfoldable pub zigzag : ℕ → ℕ
zigzag v = bit_xor (v * 2 % 2 ^ 64) (if ltb v (2 ^ 63) then 0 else 2 ^ 64 - 1)

unfoldable pub unzigzag : ℕ → ℕ
unzigzag u = bit_xor (u / 2) ((2 ^ 64 - bit_and u 1) % 2 ^ 64)

abbrev pub tag_of : Value → ℕ
tag_of null = tag_null
tag_of (bool false) = tag_false
tag_of (bool true) = tag_true
tag_of (integer n) = tag_int
tag_of (real f) = tag_real
tag_of (text s) = tag_text
tag_of (blob b) = tag_blob

unfoldable pub encode_payload : Value → List ℕ
encode_payload null = []
encode_payload (bool b) = []
encode_payload (integer n) = put_varint (zigzag n)
encode_payload (real f) = le_bytes 8 f
encode_payload (text s) = put_varint (length s) ++ s
encode_payload (blob b) = put_varint (length b) ++ b

-- The two passes over the columns `i`, `i + 1`, ..; `col` may fail.
pub tags_pass : (ℕ → Result Value) → ℕ → ℕ → Result (List ℕ)
tags_pass col zero i = ok []
tags_pass col (suc n) i = do v ← col i; rest ← tags_pass col n (i + 1); ok (tag_of v ∷ rest)

pub payloads_pass : (ℕ → Result Value) → ℕ → ℕ → Result (List ℕ)
payloads_pass col zero i = ok []
payloads_pass col (suc n) i = do
  v ← col i
  rest ← payloads_pass col n (i + 1)
  ok (encode_payload v ++ rest)

unfoldable pub encode_resolved : ℕ → (ℕ → Result Value) → Result (List ℕ)
unfolding tags_pass payloads_pass
encode_resolved ncols col = do
  tags ← tags_pass col ncols 0
  payloads ← payloads_pass col ncols 0
  ok (put_varint ncols ++ (tags ++ payloads))

unfoldable pub encode_values : List Value → Result (List ℕ)
unfolding encode_resolved
encode_values values = encode_resolved (length values) (λ i. ok (get_or values i null))

-- UTF-8 validation, as `String::from_utf8`: how many continuation bytes are due, and the range
-- of the next one.
abbrev pub Utf8State : Type 0
Utf8State = ℕ × ℕ × ℕ

abbrev pub between : ℕ → ℕ → ℕ → Bool
between lo b hi = leb lo b && leb b hi

pub utf8_start : ℕ → Option Utf8State
utf8_start b =
    if ltb b 0x80
    then some (0, 0, 0)
    else if between 0xc2 b 0xdf
    then some (1, 0x80, 0xbf)
    else if b == 0xe0
    then some (2, 0xa0, 0xbf)
    else if b == 0xed
    then some (2, 0x80, 0x9f)
    else if between 0xe1 b 0xef
    then some (2, 0x80, 0xbf)
    else if b == 0xf0
    then some (3, 0x90, 0xbf)
    else if between 0xf1 b 0xf3
    then some (3, 0x80, 0xbf)
    else if b == 0xf4
    then some (3, 0x80, 0x8f)
    else none

pub utf8_next : ℕ → ℕ → ℕ → ℕ → Option Utf8State
unfolding utf8_start
utf8_next zero lo hi b = utf8_start b
utf8_next (suc due) lo hi b = if between lo b hi then some (due, 0x80, 0xbf) else none

pub utf8_run : Utf8State → List ℕ → Bool
unfolding utf8_next
utf8_run (due, lo, hi) [] = due == 0
utf8_run (due, lo, hi) (b ∷ bs) = elim (utf8_next due lo hi b) [
  | none ↦ false
  | some s ↦ utf8_run s bs
]

unfoldable pub is_utf8 : List ℕ → Bool
unfolding utf8_run
is_utf8 = utf8_run (0, 0, 0)

-- The payload of a tag at `pos`, and the position behind it.
pub decode_int : List ℕ → ℕ → Result (Value × ℕ)
decode_int buf pos = do
  (u, pos) ← ok_or (take_varint buf pos) (corrupt_record "entero truncado")
  ok (integer (unzigzag u), pos)

pub decode_real : List ℕ → ℕ → Result (Value × ℕ)
decode_real buf pos = do
  bytes ← ok_or (get_range? buf pos (add_usize pos 8)) (corrupt_record "real truncado")
  ok (real (from_le bytes), add_usize pos 8)

pub decode_text : List ℕ → ℕ → Result (Value × ℕ)
decode_text buf pos = do
  (len, pos) ← ok_or (take_varint buf pos) (corrupt_record "longitud de texto truncada")
  bytes ← ok_or (get_range? buf pos (add_usize pos len)) (corrupt_record "texto truncado")
  if is_utf8 bytes then ok (text bytes, add_usize pos len) else bad "texto no UTF-8"

pub decode_blob : List ℕ → ℕ → Result (Value × ℕ)
decode_blob buf pos = do
  (len, pos) ← ok_or (take_varint buf pos) (corrupt_record "longitud de blob truncada")
  bytes ← ok_or (get_range? buf pos (add_usize pos len)) (corrupt_record "blob truncado")
  ok (blob bytes, add_usize pos len)

unfoldable pub decode_payload : List ℕ → ℕ → ℕ → Result (Value × ℕ)
unfolding decode_int decode_real decode_text decode_blob
decode_payload buf pos tag =
    if tag == tag_null
    then ok (null, pos)
    else if tag == tag_false
    then ok (bool false, pos)
    else if tag == tag_true
    then ok (bool true, pos)
    else if tag == tag_int
    then decode_int buf pos
    else if tag == tag_real
    then decode_real buf pos
    else if tag == tag_text
    then decode_text buf pos
    else if tag == tag_blob
    then decode_blob buf pos
    else bad "tag de valor desconocido"

pub decode_payloads : List ℕ → ℕ → List ℕ → Result (List Value × ℕ)
decode_payloads buf pos [] = ok ([], pos)
decode_payloads buf pos (tag ∷ tags) = do
  (v, pos) ← decode_payload buf pos tag
  (vs, pos) ← decode_payloads buf pos tags
  ok (v ∷ vs, pos)

-- The count of columns, their tags and the position of the first payload.
pub decode_tags : List ℕ → Result (List ℕ × ℕ)
decode_tags buf = do
  (ncols, pos) ← ok_or (take_varint buf 0) (corrupt_record "cabecera de registro truncada")
  tags ← ok_or (get_range? buf pos (add_usize pos ncols)) (corrupt_record "tags truncados")
  ok (tags, add_usize pos ncols)

unfoldable pub decode_values : List ℕ → Result (List Value)
unfolding decode_payloads decode_tags
decode_values buf = do
  (tags, pos) ← decode_tags buf
  (values, pos) ← decode_payloads buf pos tags
  if not (pos == length buf) then bad "bytes sobrantes tras el registro" else ok values

-- The position behind the payload of a tag at `pos`.
pub skip_bytes : List ℕ → ℕ → Result ℕ
skip_bytes buf pos = do
  (len, pos) ← ok_or (take_varint buf pos) (corrupt_record "longitud truncada")
  if ltb (length buf) (add_usize pos len) then bad "payload truncado" else ok (add_usize pos len)

unfoldable pub skip_payload : List ℕ → ℕ → ℕ → Result ℕ
unfolding skip_bytes
skip_payload buf pos tag =
    if tag == tag_null || tag == tag_false || tag == tag_true
    then ok pos
    else if tag == tag_int
    then (ok_or (take_varint buf pos) (corrupt_record "entero truncado") >>= λ (u, pos). ok pos)
    else if tag == tag_real
    then (if ltb (length buf) (add_usize pos 8) then bad "real truncado" else ok (add_usize pos 8))
    else if tag == tag_text || tag == tag_blob
    then skip_bytes buf pos
    else bad "tag de valor desconocido"

pub skip_payloads : List ℕ → ℕ → List ℕ → Result ℕ
skip_payloads buf pos [] = ok pos
skip_payloads buf pos (tag ∷ tags) = do pos ← skip_payload buf pos tag; skip_payloads buf pos tags

-- The bytes of the blob at `pos`, or none if the column's tag is another.
pub blob_at : List ℕ → ℕ → ℕ → Result (Option (List ℕ))
blob_at buf pos tag =
    if not (tag == tag_blob)
    then ok none
    else (ok_or (take_varint buf pos) (corrupt_record "longitud de blob truncada") >>= λ (len, pos).
        ok_or (get_range? buf pos (add_usize pos len)) (corrupt_record "blob truncado") >>= λ bytes.
        ok (some bytes))

unfoldable pub col_blob_bytes : List ℕ → ℕ → Result (Option (List ℕ))
unfolding blob_at skip_payloads
col_blob_bytes buf col = do
  (ncols, pos) ← ok_or (take_varint buf 0) (corrupt_record "cabecera de registro truncada")
  if leb ncols col
      then ok none
      else (ok_or (get_range? buf pos (add_usize pos ncols)) (corrupt_record "tags truncados")
          >>= λ tags. skip_payloads buf (add_usize pos ncols) (take col tags) >>= λ pos.
              blob_at buf pos (get_or tags col 0))

-- The loop over the tags from column `i` on: the columns of `wanted`, which is increasing.
pub project : List ℕ → ℕ → ℕ → List ℕ → List ℕ → Result (List (Option Value))
project buf pos i tags [] = ok []
project buf pos i [] (w ∷ wanted) = do rest ← project buf pos i [] wanted; ok (none ∷ rest)
project buf pos i (tag ∷ tags) (w ∷ wanted) =
    if w == i
    then (decode_payload buf pos tag >>= λ (v, pos).
        project buf pos (i + 1) tags wanted >>= λ rest. ok (some v ∷ rest))
    else (skip_payload buf pos tag >>= λ pos. project buf pos (i + 1) tags (w ∷ wanted))

unfoldable pub decode_cols_sorted : List ℕ → List ℕ → Result (List (Option Value))
unfolding project decode_tags
decode_cols_sorted buf wanted = do (tags, pos) ← decode_tags buf; project buf pos 0 tags wanted
