-- ===== src/Btree/Node/Write.antt =====
-- btree/node.rs: writing a node into a page. A write takes the page and a position, and returns
-- the page and the position behind what it wrote; none stands for `false`, with the page unchanged.
pub mod Cells
pub mod Slots
pub mod Pages
use arkeion.Common.{
  ℕ, zero, suc, ◌+◌, ◌-◌, ◌*◌, ◌/◌, ◌^◌, bit_and, bit_or, Bool, true, false, not, ◌&&◌, Option,
  none, some, List, [], ◌∷◌, ◌++◌, length, get_elem?, take, drop, replicate, ltb, leb, ◌==◌,
  if◌then◌else◌,
}
use arkeion.Common.Words.{le_bytes}
use arkeion.Common.Fields.{write_at, Writes, write_all}
use arkeion.Format.{put_varint, varint_len}
use arkeion.Btree.Node.{
  type_leaf, type_inner, type_overflow, leaf_hdr, inner_hdr, overflow_hdr, cell_overflow_flag,
  leaf_prefix_flag, leaf_min_prefix, Payload, inline, overflow, LeafCell, InnerCell, keys_lcp,
  leaf_suffix_cell_size, leaf_cell_size, inner_cell_size, sum_of, set_cell_ptr,
}

abbrev pub Cursor : Type 0
Cursor = List ℕ × ℕ

-- `body[p..p + x.len()].copy_from_slice(x); p += x.len()`
unfoldable pub put : List ℕ → Cursor → Cursor
put x (body, p) = (write_at body p x, p + length x)

-- The loop of `put_varint_at`; `v + 1` rounds are enough.
unfoldable pub put_varint_at_loop : ℕ → ℕ → Cursor → Cursor
put_varint_at_loop zero v c = c
put_varint_at_loop (suc rounds) v c =
    let more = put_varint_at_loop rounds (v / 2 ^ 7) (put (bit_or (bit_and v 0x7f) 0x80 ∷ []) c) in
    if v / 2 ^ 7 == 0 then put (bit_and v 0x7f ∷ []) c else more

unfoldable pub put_varint_at : ℕ → Cursor → Cursor
put_varint_at v c = put_varint_at_loop (suc v) v c

unfoldable pub write_leaf_cell_at : List ℕ → Payload → Cursor → Cursor
write_leaf_cell_at key (inline v) c =
    put v (put_varint_at (length v) (put key (put_varint_at (length key) (put (0 ∷ []) c))))
write_leaf_cell_at key (overflow total_len first) c = put (le_bytes 8 first) (
    put_varint_at total_len
      (put key (put_varint_at (length key) (put (cell_overflow_flag ∷ []) c))))

unfoldable pub write_inner_cell_at : List ℕ → ℕ → Cursor → Cursor
write_inner_cell_at key child c = put (le_bytes 8 child) (put key (put_varint_at (length key) c))

-- One cell of a leaf by itself; `leaf_append` copies it into the page.
unfoldable pub encode_leaf_cell : List ℕ → Payload → List ℕ
encode_leaf_cell key (inline v) =
    (0 ∷ []) ++ (put_varint (length key) ++ (key ++ (put_varint (length v) ++ v)))
encode_leaf_cell key (overflow total_len first) =
    (cell_overflow_flag ∷ [])
    ++ (put_varint (length key) ++ (key ++ (put_varint total_len ++ le_bytes 8 first)))

-- The loop over the cells from `i` on: the pointer, then the cell. Of a leaf's key the first
-- `plen` bytes stand in the prefix.
unfoldable pub write_leaf_cells : ℕ → ℕ → List LeafCell → Cursor → Cursor
write_leaf_cells plen i [] c = c
write_leaf_cells plen i (cell ∷ cells) (body, off) =
    write_leaf_cells plen (i + 1) cells
      (write_leaf_cell_at (drop plen cell.key) cell.payload (set_cell_ptr body i off, off))

unfoldable pub write_inner_cells : ℕ → List InnerCell → Cursor → Cursor
write_inner_cells i [] c = c
write_inner_cells i (cell ∷ cells) (body, off) =
    write_inner_cells (i + 1) cells
      (write_inner_cell_at cell.key cell.child (set_cell_ptr body i off, off))

-- `body[content_end..ptr_start].fill(0)`, behind the cells that were written.
unfoldable pub fill_gap : ℕ → ℕ → Cursor → List ℕ
fill_gap content_end n (body, off) =
    write_at body content_end (replicate (length body - 2 * n - content_end) 0)

unfoldable pub leaf_header : ℕ → ℕ → Writes
leaf_header flags n = (0, type_leaf ∷ []) ∷ (1, flags ∷ []) ∷ (2, le_bytes 2 n) ∷ []

unfoldable pub inner_header : ℕ → ℕ → Writes
inner_header n rightmost =
    (0, type_inner ∷ []) ∷ (1, 0 ∷ []) ∷ (2, le_bytes 2 n) ∷ (4, le_bytes 8 rightmost) ∷ []

-- The two forms of a leaf: with the common prefix of `plen` bytes written once, and without.
unfoldable pub encode_compressed : ℕ → List ℕ → List LeafCell → List ℕ → Option (List ℕ)
encode_compressed plen prefix cells body =
    let n = length cells in
    let content_end =
      leaf_hdr + (varint_len plen + plen + sum_of (λ c. leaf_suffix_cell_size c plen) cells) in
    if ltb (length body) (content_end + 2 * n)
    then none
    else some (
        fill_gap content_end n (
          write_leaf_cells plen 0 cells (
            put prefix
              (put_varint_at plen (write_all body (leaf_header leaf_prefix_flag n), leaf_hdr)))))

unfoldable pub encode_plain : List LeafCell → List ℕ → Option (List ℕ)
encode_plain cells body =
    let n = length cells in
    let content_end = leaf_hdr + sum_of leaf_cell_size cells in
    if ltb (length body) (content_end + 2 * n)
    then none
    else some (
        fill_gap content_end n
          (write_leaf_cells 0 0 cells (write_all body (leaf_header 0 n), leaf_hdr)))

-- `plen`: the common prefix of two or more cells.
unfoldable pub prefix_len : List LeafCell → ℕ
prefix_len cells = if leb 2 (length cells) then keys_lcp cells else 0

-- Whether the first key is one of the vector key space.
abbrev pub is_vector : List LeafCell → Bool
is_vector [] = false
is_vector (c ∷ cs) = elim (get_elem? c.key 0) [ none ↦ false | some b ↦ b == 0x04 ]

unfoldable pub first_key : List LeafCell → List ℕ
first_key [] = []
first_key (c ∷ cs) = c.key

unfoldable pub encode_leaf : List LeafCell → List ℕ → Option (List ℕ)
encode_leaf cells body =
    let plen = prefix_len cells in
    if leb leaf_min_prefix plen && not (is_vector cells)
    then encode_compressed plen (take plen (first_key cells)) cells body
    else encode_plain cells body

unfoldable pub encode_inner : List InnerCell → ℕ → List ℕ → Option (List ℕ)
encode_inner cells rightmost body =
    let n = length cells in
    let content_end = inner_hdr + sum_of inner_cell_size cells in
    if ltb (length body) (content_end + 2 * n)
    then none
    else some (
        fill_gap content_end n
          (write_inner_cells 0 cells (write_all body (inner_header n rightmost), inner_hdr)))

unfoldable pub encode_overflow : List ℕ → ℕ → List ℕ → List ℕ
encode_overflow chunk next body =
    let end = overflow_hdr + length chunk in
    let written = write_all body (
      (0, type_overflow ∷ [])
      ∷ (1, 0 ∷ [])
      ∷ (2, le_bytes 2 (length chunk))
      ∷ (4, le_bytes 8 next)
      ∷ (overflow_hdr, chunk)
      ∷ []) in
    write_at written end (replicate (length written - end) 0)
