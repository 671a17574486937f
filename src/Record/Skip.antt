-- ===== src/Record/Skip.antt =====
-- Skipping a payload against decoding it.
use arkeion.Common.{
  ℕ, ◌+◌, ◌-◌, ◌^◌, ◌≤◌, ◌<◌, ◌≡◌, refl, arith, some, List, length, le→ltb-false, lt→leb-false,
}
use arkeion.Format.{take_varint}
use arkeion.Format.VarintTotal.{take_varint-bounds}
use arkeion.Error.{ok}
use arkeion.Record.{
  Value, add_usize, bad, tag_blob, decode_text, decode_blob, decode_payload, skip_bytes,
  skip_payload,
}
use arkeion.Record.Payload.{IsBuffer}

skip_bytes-decode_blob :
    (buf : List ℕ) (pos p : ℕ) (v : Value)
    → decode_blob buf pos ≡ ok (v, p)
    → skip_bytes buf pos ≡ ok p
unfolding decode_blob skip_bytes
skip_bytes-decode_blob buf pos p v e = ground arith

skip_bytes-decode_text :
    (buf : List ℕ) (pos p : ℕ) (v : Value)
    → decode_text buf pos ≡ ok (v, p)
    → skip_bytes buf pos ≡ ok p
unfolding decode_text skip_bytes
skip_bytes-decode_text buf pos p v e = ground arith

-- Where a payload decodes, skipping it reaches the same position.
pub skip_payload-decode_payload :
    (buf : List ℕ) (pos tag p : ℕ) (v : Value)
    → decode_payload buf pos tag ≡ ok (v, p)
    → skip_payload buf pos tag ≡ ok p
unfolding decode_payload skip_payload
skip_payload-decode_payload buf pos tag p v e =
    ground (arith, skip_bytes-decode_text buf pos p v, skip_bytes-decode_blob buf pos p v)

-- In a buffer of less than 2^63 bytes, a blob length that leads past the last address wraps
-- around: the skip succeeds with a position before the payload, where decoding the payload is
-- refused.
pub skip_payload-wraps :
    (buf : List ℕ) (pos len q : ℕ)
    → IsBuffer buf
    → take_varint buf pos ≡ some (len, q)
    → 2 ^ 64 ≤ q + len
    → (skip_payload buf pos tag_blob ≡ ok (q + len - 2 ^ 64))
      × (q + len - 2 ^ 64 < q)
      × (decode_payload buf pos tag_blob ≡ bad "blob truncado")
unfolding decode_payload skip_payload
skip_payload-wraps buf pos len q small number far =
    let (word, after, near, inside) = take_varint-bounds buf pos len q number in
    let wrapped : add_usize q len ≡ q + len - 2 ^ 64 = omega arith in
    rw
      (
        number,
        wrapped,
        le→ltb-false (length buf) (q + len - 2 ^ 64) (omega arith),
        lt→leb-false q (q + len - 2 ^ 64) (omega arith),
      )
      (refl, omega arith, refl)
