-- ===== src/Record/Payload.antt =====
-- One payload: what is encoded is decoded at its tag, and the positions that are read.
use arkeion.Common.{ℕ, ◌+◌, ◌≡◌, ap, arith, true, false, List, ◌++◌, length, length-append}
use arkeion.Common.Cursor.{At, At-length, At-get_range?}
use arkeion.Common.Words.{IsU64, le_bytes, length-le_bytes, from_le-le_bytes}
pub use arkeion.Format.Prefixed.{IsBuffer}
use arkeion.Format.Prefixed.{take_prefixed}
use arkeion.Format.{put_varint}
use arkeion.Format.Varint.{take_varint-put_varint}
use arkeion.Error.{ok}
use arkeion.Record.{
  Value, null, bool, integer, real, text, blob, add_usize, zigzag, tag_of, encode_payload, is_utf8,
  decode_int, decode_real, decode_text, decode_blob, decode_payload,
}
use arkeion.Record.Zigzag.{unzigzag-zigzag}

-- A value that the types of the source allow: numbers of 64 bits, and texts in UTF-8.
abbrev pub IsValue : Value → Type 0
IsValue null = Unit
IsValue (bool b) = Unit
IsValue (integer n) = IsU64 n
IsValue (real f) = IsU64 f
IsValue (text s) = is_utf8 s ≡ true
IsValue (blob b) = Unit

decode_text-encode :
    (buf rest s : List ℕ) (pos : ℕ)
    → IsBuffer buf
    → is_utf8 s ≡ true
    → At buf pos ((put_varint (length s) ++ s) ++ rest)
    → decode_text buf pos ≡ ok (text s, pos + length (put_varint (length s) ++ s))
unfolding decode_text
decode_text-encode buf rest s pos small valid at =
    let (number, bytes, end) = take_prefixed buf rest s pos small at in
    rw (number, bytes, valid, end)

decode_blob-encode :
    (buf rest b : List ℕ) (pos : ℕ)
    → IsBuffer buf
    → At buf pos ((put_varint (length b) ++ b) ++ rest)
    → decode_blob buf pos ≡ ok (blob b, pos + length (put_varint (length b) ++ b))
unfolding decode_blob
decode_blob-encode buf rest b pos small at =
    let (number, bytes, end) = take_prefixed buf rest b pos small at in rw (number, bytes, end)

decode_int-encode :
    (buf rest : List ℕ) (pos n : ℕ)
    → IsU64 n
    → At buf pos (put_varint (zigzag n) ++ rest)
    → decode_int buf pos ≡ ok (integer n, pos + length (put_varint (zigzag n)))
unfolding decode_int
decode_int-encode buf rest pos n h at =
    let (fits, back) = unzigzag-zigzag n h in
    rw (take_varint-put_varint buf rest pos (zigzag n) fits at, back)

decode_real-encode :
    (buf rest : List ℕ) (pos f : ℕ)
    → IsBuffer buf
    → IsU64 f
    → At buf pos (le_bytes 8 f ++ rest)
    → decode_real buf pos ≡ ok (real f, pos + length (le_bytes 8 f))
unfolding decode_real
decode_real-encode buf rest pos f small h at =
    let eight = length-le_bytes 8 f in
    let room = At-length buf (le_bytes 8 f ++ rest) pos at in
    let end : add_usize pos 8 ≡ pos + length (le_bytes 8 f) =
      omega (arith, eight, room, length-append (le_bytes 8 f) rest) in
    rw (
      At-get_range? buf (le_bytes 8 f) rest pos (add_usize pos 8) at end,
      end,
      from_le-le_bytes 8 f h,
    )

-- Wherever the payload of a value stands in a buffer, it is decoded at the value's tag.
pub decode_payload-encode_payload :
    (buf rest : List ℕ) (pos : ℕ) (v : Value)
    → IsBuffer buf
    → IsValue v
    → At buf pos (encode_payload v ++ rest)
    → decode_payload buf pos (tag_of v) ≡ ok (v, pos + length (encode_payload v))
unfolding decode_payload encode_payload
decode_payload-encode_payload buf rest pos null small h at = ap (λ p. ok (null, p)) (omega arith)
decode_payload-encode_payload buf rest pos (bool false) small h at =
    ap (λ p. ok (bool false, p)) (omega arith)
decode_payload-encode_payload buf rest pos (bool true) small h at =
    ap (λ p. ok (bool true, p)) (omega arith)
decode_payload-encode_payload buf rest pos (integer n) small h at =
    decode_int-encode buf rest pos n h at
decode_payload-encode_payload buf rest pos (real f) small h at =
    decode_real-encode buf rest pos f small h at
decode_payload-encode_payload buf rest pos (text s) small h at =
    decode_text-encode buf rest s pos small h at
decode_payload-encode_payload buf rest pos (blob b) small h at =
    decode_blob-encode buf rest b pos small at
