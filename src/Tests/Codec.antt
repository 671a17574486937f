-- ===== src/Tests/Codec.antt =====
-- Runs of the codecs of format.rs, keyenc.rs and record.rs, and their theorems at concrete inputs.
use arkeion.Common.{
  ℕ, suc, ◌*◌, ◌%◌, ◌+◌, ◌-◌, ◌^◌, ◌<◌, ◌≡◌, ◌↔◌, refl, arith, true, some, List, [], ◌∷◌, ◌++◌, map,
  length, get_elem?, replicate,
}
use arkeion.Common.Cursor.{At-start}
use arkeion.Common.BitLength.{bit_length, leading_zeros}
use arkeion.Common.Words.{be_bytes, compare_ℤ, signed}
use arkeion.Common.Lex.{lex, then_cmp}
use arkeion.Error.{ok}
use arkeion.Format.{FileHeader, MetaSlot, put_varint, take_varint, encode_header, decode_header}
use arkeion.Format.Varint.{take_varint-put_varint}
use arkeion.Format.VarintTotal.{Groups, take_varint_iff}
use arkeion.Format.Layout.{HeaderFits, decode_header-encode_header}
use arkeion.Record.{
  Value, null, integer, real, text, blob, zigzag, unzigzag, tag_blob, bad, encode_payload,
  encode_values, decode_payload, decode_values, is_utf8, skip_payload, col_blob_bytes,
  decode_cols_sorted,
}
use arkeion.Record.RoundTrip.{decode_values-encode_values}
use arkeion.Record.Skip.{skip_payload-wraps}
use arkeion.Record.Project.{decode_cols_sorted-decode_values, col_blob_bytes-decode_values, blob_of}
use arkeion.Keyenc.{
  nbytes, significant, encode_oint, decode_oint, encode_index_value, encode_text_prefix,
}
use arkeion.Keyenc.Oint.{decode_oint-encode_oint}
use arkeion.Keyenc.OintOrder.{encode_oint-order}
use arkeion.Keyenc.Order.{compare_entry, encode_index_value-order}
use arkeion.Keyenc.Prefix.{starts_with, encode_text_prefix_iff}

-- A number of two bytes, and one behind it.
abbrev varint_300 : List ℕ
varint_300 = 0xac ∷ 0x02 ∷ []

put_varint_300 : put_varint 300 ≡ varint_300
unfolding put_varint
put_varint_300 = refl

take_varint_300 : take_varint varint_300 0 ≡ some (300, 2)
unfolding take_varint
take_varint_300 = refl

-- Of a tenth byte only the lowest bit is kept: this is not an error.
take_varint_too_long : take_varint (replicate 9 0x80 ++ (0x02 ∷ [])) 0 ≡ some (0, 10)
unfolding take_varint
take_varint_too_long = refl

encode_oint_minus_two : encode_oint (2 ^ 64 - 2) ≡ 0x7e ∷ 0xfe ∷ []
unfolding encode_oint nbytes significant leading_zeros bit_length be_bytes
encode_oint_minus_two = refl

take_varint-put_varint_example :
    take_varint (put_varint 300 ++ (7 ∷ [])) 0 ≡ some (300, 0 + length (put_varint 300))
take_varint-put_varint_example =
    take_varint-put_varint (put_varint 300 ++ (7 ∷ [])) (7 ∷ []) 0 300 (omega arith)
      (At-start (put_varint 300 ++ (7 ∷ [])))

take_varint_iff_example : (take_varint varint_300 0 ≡ some (300, 2)) ↔ (
    (n : ℕ) × (u : ℕ) × (n < 10) × Groups varint_300 0 n u × (2 ≡ 0 + suc n) × (300 ≡ u % 2 ^ 64))
take_varint_iff_example = take_varint_iff varint_300 0 300 2

abbrev slot : MetaSlot
slot = record { version = 7; last_commit_page = 12; n_pages = 13 }

abbrev file_header : FileHeader
file_header = record {
  flags = 1;
  file_id = replicate 16 3;
  kdf_salt = replicate 16 4;
  ecc_nsym = 8;
}

file_header-HeaderFits : HeaderFits file_header
file_header-HeaderFits = record { flags = omega arith; file_id = refl; kdf_salt = refl }

decode_header-encode_header_example :
    decode_header (encode_header file_header (replicate 64 0)) ≡ some (ok file_header)
decode_header-encode_header_example =
    decode_header-encode_header file_header (replicate 64 0) (omega arith) file_header-HeaderFits

abbrev row : List Value
row = null ∷ integer 2 ∷ text (65 ∷ []) ∷ blob (9 ∷ 8 ∷ []) ∷ []

abbrev row_bytes : List ℕ
row_bytes = 4 ∷ 0 ∷ 3 ∷ 5 ∷ 6 ∷ 4 ∷ 1 ∷ 65 ∷ 2 ∷ 9 ∷ 8 ∷ []

encode_values-row : encode_values row ≡ ok row_bytes
unfolding encode_values encode_payload put_varint zigzag
encode_values-row = refl

decode_values-row : decode_values row_bytes ≡ ok row
unfolding decode_values decode_payload take_varint is_utf8 unzigzag
decode_values-row = refl

ascii_IsValue : is_utf8 (65 ∷ []) ≡ true
unfolding is_utf8
ascii_IsValue = refl

decode_values-encode_values_example : decode_values row_bytes ≡ ok row
decode_values-encode_values_example =
    decode_values-encode_values row row_bytes encode_values-row (omega arith)
      (tt, (omega arith, (ascii_IsValue, (tt, tt))))

blob_decoded : decode_payload (2 ∷ 9 ∷ 8 ∷ []) 0 tag_blob ≡ ok (blob (9 ∷ 8 ∷ []), 3)
unfolding decode_payload take_varint
blob_decoded = refl

decode_cols_sorted-decode_values_example :
    decode_cols_sorted row_bytes (1 ∷ 3 ∷ 9 ∷ []) ≡ ok (map (get_elem? row) (1 ∷ 3 ∷ 9 ∷ []))
decode_cols_sorted-decode_values_example =
    decode_cols_sorted-decode_values row_bytes (1 ∷ 3 ∷ 9 ∷ []) row decode_values-row
      (omega arith, (omega arith, (omega arith, tt)))

col_blob_bytes-decode_values_example : col_blob_bytes row_bytes 3 ≡ ok (blob_of (get_elem? row 3))
col_blob_bytes-decode_values_example =
    col_blob_bytes-decode_values row_bytes row 3 (omega arith) decode_values-row

-- A blob whose length is 2^64 - 4, at position 1: the skip goes back to position 7.
abbrev huge_blob : List ℕ
huge_blob = 0xfc ∷ replicate 8 0xff ++ (0x01 ∷ 7 ∷ [])

huge_blob_length : take_varint huge_blob 0 ≡ some (2 ^ 64 - 4, 10)
unfolding take_varint
huge_blob_length = refl

skip_payload-wraps_example :
    (skip_payload huge_blob 0 tag_blob ≡ ok (10 + (2 ^ 64 - 4) - 2 ^ 64))
    × (10 + (2 ^ 64 - 4) - 2 ^ 64 < 10)
    × (decode_payload huge_blob 0 tag_blob ≡ bad "blob truncado")
skip_payload-wraps_example =
    skip_payload-wraps huge_blob 0 (2 ^ 64 - 4) 10 (omega arith) huge_blob_length (omega arith)

decode_oint-encode_oint_example :
    decode_oint (encode_oint (2 ^ 64 - 2) ++ (7 ∷ [])) 0
    ≡ some (2 ^ 64 - 2, 0 + length (encode_oint (2 ^ 64 - 2)))
decode_oint-encode_oint_example =
    decode_oint-encode_oint (encode_oint (2 ^ 64 - 2) ++ (7 ∷ [])) (7 ∷ []) 0 (2 ^ 64 - 2)
      (omega arith) (At-start (encode_oint (2 ^ 64 - 2) ++ (7 ∷ [])))

encode_oint-order_example :
    lex (encode_oint (2 ^ 64 - 2) ++ (1 ∷ [])) (encode_oint 300 ++ (2 ∷ []))
    ≡ then_cmp (compare_ℤ (signed (2 ^ 64 - 2)) (signed 300)) (lex (1 ∷ []) (2 ∷ []))
encode_oint-order_example =
    encode_oint-order (2 ^ 64 - 2) 300 (1 ∷ []) (2 ∷ []) (omega arith) (omega arith)

abbrev minus_one : Value
minus_one = real (2 ^ 63 + 1023 * 2 ^ 52)

abbrev minus_zero : Value
minus_zero = real (2 ^ 63)

encode_index_value-order_example :
    lex (encode_index_value minus_one ++ (1 ∷ [])) (encode_index_value minus_zero ++ (2 ∷ []))
    ≡ then_cmp (compare_entry minus_one minus_zero) (lex (1 ∷ []) (2 ∷ []))
encode_index_value-order_example =
    encode_index_value-order minus_one minus_zero (1 ∷ []) (2 ∷ [])
      ((omega arith, omega arith), (omega arith, omega arith))

encode_text_prefix_iff_example :
    starts_with (encode_index_value (text (65 ∷ 0 ∷ 66 ∷ []))) (encode_text_prefix (65 ∷ 0 ∷ []))
    ≡ starts_with (65 ∷ 0 ∷ 66 ∷ []) (65 ∷ 0 ∷ [])
encode_text_prefix_iff_example = encode_text_prefix_iff (65 ∷ 0 ∷ 66 ∷ []) (65 ∷ 0 ∷ [])
