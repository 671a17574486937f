-- ===== src/Tests/Append.antt =====
-- An append to a leaf at a concrete input.
use arkeion.Common.{
  ℕ, ◌+◌, ◌≡◌, refl, arith, none, some, List, [], ◌∷◌, length, replicate, All, ap, map,
}
use arkeion.Error.{Result, ok, err}
use arkeion.Common.BitLength.{leading_zeros, bit_length}
use arkeion.Common.Words.{le_bytes}
use arkeion.Common.Fields.{write_at, write_all, slice}
use arkeion.Format.{varint_len, put_varint, take_varint}
use arkeion.Btree.Node.{
  inline, LeafCell, leaf_cell_size, set_cell_ptr, node_type, leaf_prefix_and_start,
  leaf_is_compressed, get_varint, get_slice,
}
use arkeion.Btree.Node.Write.{
  encode_plain, fill_gap, write_leaf_cells, write_leaf_cell_at, put, put_varint_at,
  put_varint_at_loop, leaf_header, encode_leaf_cell,
}
use arkeion.Btree.Node.Parse.{leaf_key_at}
use arkeion.Btree.Node.Views.{skip_leaf_payload}
use arkeion.Btree.Node.Parse.RoundTrip.{Ordered, leaf_keys, leaf_block}
use arkeion.Btree.Node.Write.Slots.{concat}
use arkeion.Btree.Node.Write.Cells.{IsPayload}
use arkeion.Btree.Node.LeafPage.{IsLeafCell, LeafPage}
use arkeion.Btree.Node.LeafPage.Encode.{encode_plain-LeafPage}
use arkeion.Btree.Node.Append.{leaf_append, append_inline_at, skip_cells, count_cell}
use arkeion.Btree.Node.Append.Inline.{append_inline_at-leaf_append}
use arkeion.Btree.Node.Append.Invariant.{leaf_append-LeafPage}

abbrev old_cell : LeafCell
old_cell = record { key = 5 ∷ []; payload = inline (7 ∷ []) }

abbrev new_cell : LeafCell
new_cell = record { key = 6 ∷ []; payload = inline (8 ∷ []) }

abbrev old_page : List ℕ
old_page = 1 ∷ 0 ∷ 1 ∷ 0 ∷ 0 ∷ 1 ∷ 5 ∷ 1 ∷ 7 ∷ 0 ∷ 0 ∷ 0 ∷ 0 ∷ 0 ∷ 0 ∷ 0 ∷ 4 ∷ 0 ∷ []

abbrev new_page : List ℕ
new_page = 1 ∷ 0 ∷ 2 ∷ 0 ∷ 0 ∷ 1 ∷ 5 ∷ 1 ∷ 7 ∷ 0 ∷ 1 ∷ 6 ∷ 1 ∷ 8 ∷ 9 ∷ 0 ∷ 4 ∷ 0 ∷ []

old_page-encode_plain : encode_plain (old_cell ∷ []) (replicate 18 0) ≡ some old_page
unfolding encode_plain leaf_cell_size varint_len leading_zeros bit_length fill_gap write_at
    write_leaf_cells write_leaf_cell_at put put_varint_at put_varint_at_loop set_cell_ptr write_all
    leaf_header le_bytes
old_page-encode_plain = refl

old_page-LeafPage : LeafPage old_page (old_cell ∷ []) []
unfolding IsPayload
old_page-LeafPage =
    encode_plain-LeafPage (old_cell ∷ []) (replicate 18 0) old_page ((omega arith, omega arith), tt)
      (omega arith) old_page-encode_plain

new_page-leaf_append : leaf_append 0 old_page (6 ∷ []) (inline (8 ∷ [])) ≡ ok (some (new_page, 14))
unfolding leaf_append node_type leaf_prefix_and_start leaf_is_compressed skip_cells slice
    leaf_key_at get_varint take_varint get_slice skip_leaf_payload encode_leaf_cell put_varint
    count_cell write_at set_cell_ptr le_bytes
new_page-leaf_append = refl

old_cell-IsLeafCell : All IsLeafCell (old_cell ∷ [])
unfolding IsPayload
old_cell-IsLeafCell = ((omega arith, omega arith), tt)

leaf_append-LeafPage_example :
    LeafPage new_page (old_cell ∷ new_cell ∷ []) []
    × Ordered none (leaf_keys (old_cell ∷ new_cell ∷ []))
leaf_append-LeafPage_example =
    leaf_append-LeafPage 0 old_page (old_cell ∷ []) [] (6 ∷ []) (inline (8 ∷ []))
      old_cell-IsLeafCell old_page-LeafPage new_page 14 (refl, refl, tt) refl new_page-leaf_append

start_of : Result (List ℕ × ℕ) → ℕ
start_of (ok (prefix, start)) = start
start_of (err e) = 0

-- The cell ends at 9.
old_page-end :
    9 ≡ length (old_page-LeafPage).front + length (concat (map (leaf_block 0) (old_cell ∷ [])))
unfolding start_of leaf_prefix_and_start leaf_is_compressed encode_leaf_cell put_varint
old_page-end =
    let start : 4 ≡ length (old_page-LeafPage).front =
      ap start_of ((old_page-LeafPage).prefix_read 0) in
    omega (arith, start)

append_inline_at-leaf_append_example :
    leaf_append 0 old_page (6 ∷ []) (inline (8 ∷ []))
    ≡ ok (append_inline_at old_page 9 (6 ∷ []) (8 ∷ []))
append_inline_at-leaf_append_example =
    append_inline_at-leaf_append 0 old_page (old_cell ∷ []) [] (6 ∷ []) (8 ∷ []) 9
      old_cell-IsLeafCell old_page-LeafPage (omega arith) (omega arith) old_page-end refl
