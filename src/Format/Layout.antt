-- ===== src/Format/Layout.antt =====
-- format.rs: the file header and the meta slots, written and read.
use arkeion.Common.{
  ℕ, ◌+◌, ◌^◌, ◌≤◌, ◌<◌, ◌≡◌, ◌≢◌, refl, ap, ◌∙◌, arith, false, ltb, some, List, get_elem?, length,
}
use arkeion.Common.Words.{le_bytes, from_le, from_le-le_bytes, length-le_bytes, IsU32, IsU64}
use arkeion.Common.Fields.{
  Writes, write_all, Contiguous, slice, slice-write_all, get_or-write_all, length-write_all,
}
use arkeion.Error.{ok}
use arkeion.Format.{
  page_size, magic_header, magic_meta, format_version, FileHeader, header_layout, meta_layout,
  encode_header, decode_header, MetaSlot, encode_meta, decode_meta, slot_page,
}

-- A word that a layout wrote is read back from its place.
pub read_word :
    (body : List ℕ) (ws : Writes) (end i a w v : ℕ)
    → Contiguous 0 ws end
    → end ≤ length body
    → get_elem? ws i ≡ some (a, le_bytes w v)
    → v < 256 ^ w
    → from_le (slice (write_all body ws) a (a + w)) ≡ v
read_word body ws end i a w v c h e fits =
    ap from_le (
      slice-write_all body ws end i a (a + w) (le_bytes w v) c h e
        (omega (arith, length-le_bytes w v)))
    ∙ from_le-le_bytes w v fits

meta_layout-Contiguous : (m : MetaSlot) → Contiguous 0 (meta_layout m) 32
meta_layout-Contiguous m = omega (
  arith,
  length-le_bytes 8 m.version,
  length-le_bytes 8 m.last_commit_page,
  length-le_bytes 8 m.n_pages,
)

-- A meta slot whose fields are u64 is read back from any body of at least 32 bytes that it was
-- written into.
pub decode_meta-encode_meta :
    (m : MetaSlot) (body : List ℕ)
    → 32 ≤ length body
    → IsU64 m.version × IsU64 m.last_commit_page × IsU64 m.n_pages
    → decode_meta (encode_meta m body) ≡ some m
unfolding decode_meta encode_meta
decode_meta-encode_meta m body h w =
    let ws = meta_layout m in
    let c = meta_layout-Contiguous m in
    rw (
      slice-write_all body ws 32 0 0 8 magic_meta c h refl refl,
      read_word body ws 32 1 8 8 m.version c h refl w.0,
      read_word body ws 32 2 16 8 m.last_commit_page c h refl w.1,
      read_word body ws 32 3 24 8 m.n_pages c h refl w.2,
    )

-- The header's fields have the widths of the struct.
pub record HeaderFits (h : FileHeader) : Type 0 where
  pub flags : IsU32 h.flags
  pub file_id : length h.file_id ≡ 16
  pub kdf_salt : length h.kdf_salt ≡ 16

header_layout-Contiguous : (h : FileHeader) → HeaderFits h → Contiguous 0 (header_layout h) 53
header_layout-Contiguous h w = omega (
  arith,
  w.file_id,
  w.kdf_salt,
  length-le_bytes 4 format_version,
  length-le_bytes 4 page_size,
  length-le_bytes 4 h.flags,
)

-- A file header whose fields fit is read back from any body of at least 53 bytes that it was
-- written into.
pub decode_header-encode_header :
    (h : FileHeader) (body : List ℕ)
    → 53 ≤ length body
    → HeaderFits h
    → decode_header (encode_header h body) ≡ some (ok h)
unfolding decode_header encode_header
decode_header-encode_header h body long w =
    let ws = header_layout h in
    let c = header_layout-Contiguous h w in
    let size : length (write_all body ws) ≡ length body = length-write_all body ws 53 c long in
    let has_8 : ltb (length (write_all body ws)) 8 ≡ false = ground (arith, size, long) in
    let has_12 : ltb (length (write_all body ws)) 12 ≡ false = ground (arith, size, long) in
    let has_16 : ltb (length (write_all body ws)) 16 ≡ false = ground (arith, size, long) in
    let has_53 : ltb (length (write_all body ws)) 53 ≡ false = ground (arith, size, long) in
    rw (
      has_8,
      has_12,
      has_16,
      has_53,
      slice-write_all body ws 53 0 0 8 magic_header c long refl refl,
      read_word body ws 53 1 8 4 format_version c long refl (omega arith),
      read_word body ws 53 2 12 4 page_size c long refl (omega arith),
      read_word body ws 53 3 16 4 h.flags c long refl w.flags,
      slice-write_all body ws 53 4 20 36 h.file_id c long refl (omega (arith, w.file_id)),
      slice-write_all body ws 53 5 36 52 h.kdf_salt c long refl (omega (arith, w.kdf_salt)),
      get_or-write_all body ws 53 6 52 h.ecc_nsym 0 c long refl,
    )

-- Consecutive versions use different meta slots, each on page 1 or 2.
pub slot_page-alternates :
    (v : ℕ) → (slot_page v ≢ slot_page (v + 1)) × (1 ≤ slot_page v) × (slot_page v ≤ 2)
unfolding slot_page
slot_page-alternates v = ground arith
