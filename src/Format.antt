-- ===== src/Format.antt =====
-- format.rs: constants and binary layouts of the file. A buffer is the list of its bytes, a
-- `PageId` its number. An encoder that appends to a vector is the function to what it appends.
pub mod Varint
pub mod VarintTotal
pub mod VarintLen
pub mod Layout
pub mod Prefixed
use arkeion.Common.{
  ℕ, zero, suc, ◌+◌, ◌-◌, ◌*◌, ◌/◌, ◌%◌, ◌^◌, max, bit_and, bit_or, Bool, true, false, not, Option,
  none, some, List, [], ◌∷◌, ◌++◌, length, get_elem?, get_or, ltb, leb, ◌==◌, if◌then◌else◌, ◌>>=◌,
}
use arkeion.Common.BitLength.{leading_zeros}
use arkeion.Common.Words.{le_bytes, from_le}
use arkeion.Common.Fields.{Writes, write_all, slice, eq_bytes}
use arkeion.Error.{
  Error, not_a_database, unsupported_format, unsupported_page_size, Result, ok, err,
}

abbrev pub page_size : ℕ
page_size = 4096

abbrev pub nonce_len : ℕ
nonce_len = 12

abbrev pub tag_len : ℕ
tag_len = 16

abbrev pub crypto_reserve : ℕ
crypto_reserve = nonce_len + tag_len

abbrev pub body_size : ℕ
body_size = page_size - crypto_reserve

-- "ARKEION1", "ARKMETA1" and "ARKCMT01"
abbrev pub magic_header : List ℕ
magic_header = b'A' ∷ b'R' ∷ b'K' ∷ b'E' ∷ b'I' ∷ b'O' ∷ b'N' ∷ b'1' ∷ []

abbrev pub magic_meta : List ℕ
magic_meta = b'A' ∷ b'R' ∷ b'K' ∷ b'M' ∷ b'E' ∷ b'T' ∷ b'A' ∷ b'1' ∷ []

abbrev pub magic_commit : List ℕ
magic_commit = b'A' ∷ b'R' ∷ b'K' ∷ b'C' ∷ b'M' ∷ b'T' ∷ b'0' ∷ b'1' ∷ []

abbrev pub format_version : ℕ
format_version = 5

abbrev pub meta_page_a : ℕ
meta_page_a = 1

abbrev pub first_data_page : ℕ
first_data_page = 3

-- Offset of a slot of fixed size, or of the first record.
pub byte_offset : ℕ → ℕ
byte_offset id = id * page_size

abbrev pub le_u32 : List ℕ → ℕ → ℕ
le_u32 b off = from_le (slice b off (off + 4))

abbrev pub le_u64 : List ℕ → ℕ → ℕ
le_u64 b off = from_le (slice b off (off + 8))

-- The file header, the body of page 0.
pub record FileHeader : Type 0 where
  pub flags : ℕ
  pub file_id : List ℕ
  pub kdf_salt : List ℕ
  pub ecc_nsym : ℕ

abbrev pub header_layout : FileHeader → Writes
header_layout h =
    (0, magic_header)
    ∷ (8, le_bytes 4 format_version)
    ∷ (12, le_bytes 4 page_size)
    ∷ (16, le_bytes 4 h.flags)
    ∷ (20, h.file_id)
    ∷ (36, h.kdf_salt)
    ∷ (52, h.ecc_nsym ∷ [])
    ∷ []

unfoldable pub encode_header : FileHeader → List ℕ → List ℕ
encode_header h body = write_all body (header_layout h)

-- None is the panic of an index behind the end of the body.
unfoldable pub decode_header : List ℕ → Option (Result FileHeader)
decode_header body =
    if ltb (length body) 8
    then none
    else if not (eq_bytes (slice body 0 8) magic_header)
    then some (err not_a_database)
    else if ltb (length body) 12
    then none
    else if ltb format_version (le_u32 body 8)
    then some (err (unsupported_format (le_u32 body 8)))
    else if ltb (length body) 16
    then none
    else if not (le_u32 body 12 == page_size)
    then some (err (unsupported_page_size (le_u32 body 12)))
    else if ltb (length body) 53
    then none
    else some (
        ok (record {
          flags = le_u32 body 16;
          file_id = slice body 20 36;
          kdf_salt = slice body 36 52;
          ecc_nsym = get_or body 52 0;
        }))

-- The cache of the last commit, in the body of page 1 or 2.
pub record MetaSlot : Type 0 where
  pub version : ℕ
  pub last_commit_page : ℕ
  pub n_pages : ℕ

-- The slots alternate by the parity of the version.
unfoldable pub slot_page : ℕ → ℕ
slot_page version = meta_page_a + version % 2

abbrev pub meta_layout : MetaSlot → Writes
meta_layout m =
    (0, magic_meta)
    ∷ (8, le_bytes 8 m.version)
    ∷ (16, le_bytes 8 m.last_commit_page)
    ∷ (24, le_bytes 8 m.n_pages)
    ∷ []

unfoldable pub encode_meta : MetaSlot → List ℕ → List ℕ
encode_meta m body = write_all body (meta_layout m)

unfoldable pub decode_meta : List ℕ → Option MetaSlot
decode_meta body =
    if not (eq_bytes (slice body 0 8) magic_meta)
    then none
    else some (record {
      version = le_u64 body 8;
      last_commit_page = le_u64 body 16;
      n_pages = le_u64 body 24;
    })

-- The loop of `put_varint`: each round takes seven bits off, so `v + 1` rounds are enough.
unfoldable pub put_varint_loop : ℕ → ℕ → List ℕ
put_varint_loop zero v = []
put_varint_loop (suc rounds) v =
    let more = put_varint_loop rounds (v / 2 ^ 7) in
    if v / 2 ^ 7 == 0 then bit_and v 0x7f ∷ [] else bit_or (bit_and v 0x7f) 0x80 ∷ more

unfoldable pub put_varint : ℕ → List ℕ
unfolding put_varint_loop
put_varint v = put_varint_loop (suc v) v

unfoldable pub varint_len : ℕ → ℕ
varint_len v = (max (64 - leading_zeros v) 1 + 6) / 7

-- The loop of `take_varint`. A shift to the left of a `u64` drops the bits that pass the top.
pub take_varint_loop : ℕ → List ℕ → ℕ → ℕ → ℕ → Option (ℕ × ℕ)
take_varint_loop zero buf pos v shift = none
take_varint_loop (suc rounds) buf pos v shift = do
  b ← get_elem? buf pos
  let v' = bit_or v (bit_and b 0x7f * 2 ^ shift % 2 ^ 64)
  let more = take_varint_loop rounds buf (pos + 1) v' (shift + 7)
  if bit_and b 0x80 == 0 then some (v', pos + 1) else if leb 64 (shift + 7) then none else more

-- The number and the position behind it. The shift grows in every round and the loop ends when it
-- comes to 64, so as many rounds are enough.
unfoldable pub take_varint : List ℕ → ℕ → Option (ℕ × ℕ)
unfolding take_varint_loop
take_varint buf pos = take_varint_loop 64 buf pos 0 0
