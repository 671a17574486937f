-- ===== src/Btree/Node.antt =====
-- btree/node.rs: the pages of leaves, inner nodes and overflow chains: cells, their sizes, and what
-- reading and writing them share. A page is the list of its bytes, and an index is inside it.
pub mod Write
pub mod Parse
pub mod Search
pub mod InnerPage
pub mod LeafPage
pub mod RoundTrip
pub mod Views
pub mod Split
pub mod Append
use Prim.Native.String.{String}
use Prim.Native.Nat.Ordering.{lt, eq, gt}
use arkeion.Common.{
  ℕ, zero, suc, ◌+◌, ◌-◌, ◌*◌, ◌/◌, bit_and, bit_or, min, Bool, true, false, not, ◌&&◌, Option,
  none, some, List, [], ◌∷◌, ◌++◌, length, get_or, take, drop, ltb, ◌==◌, if◌then◌else◌,
}
use arkeion.Common.Cursor.{get_range?}
use arkeion.Common.Words.{le_bytes, from_le}
use arkeion.Common.Lex.{lex}
use arkeion.Common.Fields.{write_at, slice}
use arkeion.Format.{body_size, put_varint, varint_len, take_varint}
use arkeion.Format.Prefixed.{add_usize}
use arkeion.Error.{corrupt, Result, ok, err, ◌>>=◌, ok_or}

abbrev pub type_leaf : ℕ
type_leaf = 0x01

abbrev pub type_inner : ℕ
type_inner = 0x02

abbrev pub type_overflow : ℕ
type_overflow = 0x03

abbrev pub max_key_len : ℕ
max_key_len = 1024

abbrev pub max_inline_cell : ℕ
max_inline_cell = 1280

abbrev pub leaf_hdr : ℕ
leaf_hdr = 4

abbrev pub inner_hdr : ℕ
inner_hdr = 12

abbrev pub overflow_hdr : ℕ
overflow_hdr = 12

abbrev pub overflow_data : ℕ
overflow_data = body_size - overflow_hdr

abbrev pub cell_overflow_flag : ℕ
cell_overflow_flag = 0x01

abbrev pub leaf_prefix_flag : ℕ
leaf_prefix_flag = 0x01

abbrev pub leaf_min_prefix : ℕ
leaf_min_prefix = 6

-- `overflow` has the value's length and the first page of its chain.
pub data Payload : Type 0 where
  inline : List ℕ → Payload
  overflow : ℕ → ℕ → Payload

pub record LeafCell : Type 0 where
  pub key : List ℕ
  pub payload : Payload

pub record InnerCell : Type 0 where
  pub key : List ℕ
  pub child : ℕ

abbrev pub bad_page {ℓ} : {A : Type ℓ} → ℕ → String → Result A
bad_page page reason = err (corrupt page reason)

unfoldable pub node_type : List ℕ → ℕ
node_type body = get_or body 0 0

abbrev pub ncells_of : List ℕ → ℕ
ncells_of body = from_le (slice body 2 4)

-- Reads at a position, each with the position behind what it read.
unfoldable pub get_varint : ℕ → List ℕ → ℕ → Result (ℕ × ℕ)
get_varint page buf pos = ok_or (take_varint buf pos) (corrupt page "varint inválido")

unfoldable pub get_slice : ℕ → List ℕ → ℕ → ℕ → Result (List ℕ × ℕ)
get_slice page buf pos len = do
  s ← ok_or (get_range? buf pos (add_usize pos len)) (corrupt page "celda truncada")
  ok (s, add_usize pos len)

unfoldable pub get_u64 : ℕ → List ℕ → ℕ → Result (ℕ × ℕ)
get_u64 page buf pos = do (s, pos) ← get_slice page buf pos 8; ok (from_le s, pos)

unfoldable pub leaf_is_compressed : List ℕ → Bool
leaf_is_compressed body = not (bit_and (get_or body 1 0) leaf_prefix_flag == 0)

-- The common prefix of the keys of a leaf, and where its cells start.
unfoldable pub leaf_prefix_and_start : ℕ → List ℕ → Result (List ℕ × ℕ)
leaf_prefix_and_start page body =
    if not (leaf_is_compressed body)
    then ok ([], leaf_hdr)
    else (get_varint page body leaf_hdr >>= λ (plen, pos). get_slice page body pos plen)

pub data PrefixCmp : Type 0 where
  below above : PrefixCmp
  within : List ℕ → PrefixCmp

unfoldable pub cmp_prefix : List ℕ → List ℕ → PrefixCmp
cmp_prefix prefix target =
    let n = min (length prefix) (length target) in
    elim (lex (take n target) (take n prefix)) [
      | lt ↦ below
      | gt ↦ above
      | eq ↦
          if ltb (length target) (length prefix)
          then below
          else within (drop (length prefix) target)
    ]

-- The loop of `keys_lcp`.
abbrev pub common_prefix : List ℕ → List ℕ → ℕ
common_prefix (x ∷ xs) (y ∷ ys) = if x == y then suc (common_prefix xs ys) else 0
common_prefix _ _ = 0

abbrev pub last_key : LeafCell → List LeafCell → List ℕ
last_key c [] = c.key
last_key c (d ∷ ds) = last_key d ds

unfoldable pub keys_lcp : List LeafCell → ℕ
keys_lcp [] = 0
keys_lcp (c ∷ cs) = common_prefix c.key (last_key c cs)

-- Sizes.
abbrev pub payload_size : Payload → ℕ
payload_size (inline v) = varint_len (length v) + length v
payload_size (overflow total_len first) = varint_len total_len + 8

unfoldable pub leaf_suffix_cell_size : LeafCell → ℕ → ℕ
leaf_suffix_cell_size c plen =
    let slen = length c.key - plen in 1 + varint_len slen + slen + payload_size c.payload

unfoldable pub leaf_cell_size : LeafCell → ℕ
leaf_cell_size c = 1 + varint_len (length c.key) + length c.key + payload_size c.payload

unfoldable pub inner_cell_size : InnerCell → ℕ
inner_cell_size c = varint_len (length c.key) + length c.key + 8

unfoldable pub inline_cell_size : List ℕ → ℕ → ℕ
inline_cell_size key value_len =
    1 + varint_len (length key) + length key + varint_len value_len + value_len

-- The array of pointers at the end of the page.
abbrev pub ptr_at : List ℕ → ℕ → ℕ
ptr_at body i = length body - 2 * (i + 1)

unfoldable pub cell_ptr : List ℕ → ℕ → ℕ
cell_ptr body i = from_le (slice body (ptr_at body i) (ptr_at body i + 2))

unfoldable pub set_cell_ptr : List ℕ → ℕ → ℕ → List ℕ
set_cell_ptr body i off = write_at body (ptr_at body i) (le_bytes 2 off)

-- The key of a cell at `off` and the position behind it; for a leaf, the flags first.
unfoldable pub inner_key_at : ℕ → List ℕ → ℕ → Result (List ℕ × ℕ)
inner_key_at page body off = do (klen, pos) ← get_varint page body off; get_slice page body pos klen

-- The first half right of a split, by a loop over the cells from `i` on.
unfoldable pub split_loop {ℓ} : {A : Type ℓ} → (A → ℕ) → ℕ → ℕ → ℕ → ℕ → List A → ℕ
split_loop size total count i acc [] = count - 1
split_loop size total count i acc (c ∷ cs) =
    let rest = split_loop size total count (i + 1) (acc + size c) cs in
    if ltb ((acc + size c) * 2) total then rest else min (i + 1) (count - 1)

abbrev pub sum_of {ℓ} : {A : Type ℓ} → (A → ℕ) → List A → ℕ
sum_of size [] = 0
sum_of size (c ∷ cs) = size c + sum_of size cs

unfoldable pub split_point {ℓ} : {A : Type ℓ} → List A → (A → ℕ) → ℕ
split_point cells size = split_loop size (sum_of size cells) (length cells) 0 0 cells
