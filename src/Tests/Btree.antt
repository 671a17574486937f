-- ===== src/Tests/Btree.antt =====
-- Nodes at concrete inputs: a compressed leaf, an inner node and an overflow page.
use arkeion.Common.{suc, ℕ, ◌≡◌, refl, arith, Option, none, some, List, [], ◌∷◌, replicate, All}
use arkeion.Common.BitLength.{leading_zeros, bit_length}
use arkeion.Format.{varint_len}
use arkeion.Btree.Node.Split.{Half, split_point-Half}
use arkeion.Error.{ok, ◌>>=◌}
use arkeion.Btree.Node.Views.{leaf_for_each_prefix}
use arkeion.Btree.Node.Views.Matching.{matching}
use arkeion.Btree.Node.Views.Emit.{state_of, leaf_for_each_prefix-encode_leaf}
use arkeion.Btree.Node.{
  inline, overflow, LeafCell, InnerCell, split_point, split_loop, keys_lcp, leaf_suffix_cell_size,
  inner_cell_size,
}
use arkeion.Btree.Node.Write.{prefix_len, encode_compressed, encode_leaf, encode_inner}
use arkeion.Btree.Node.Parse.{parse_leaf, parse_inner}
use arkeion.Btree.Node.Parse.RoundTrip.{Ordered, leaf_keys, inner_keys}
use arkeion.Btree.Node.Write.Cells.{IsPayload}
use arkeion.Btree.Node.LeafPage.{IsLeafCell}
use arkeion.Btree.Node.InnerPage.{IsInnerCell}
use arkeion.Btree.Node.RoundTrip.{parse_leaf-encode_leaf, parse_inner-encode_inner}
use arkeion.Btree.Node.Search.{inner_child_indexed, leaf_find}
use arkeion.Btree.Node.Search.Inner.{child_of, separators_up_to, inner_child_indexed-encode_inner}
use arkeion.Btree.Node.Search.Lookup.{lookup}
use arkeion.Btree.Node.Search.Find.{leaf_find-encode_leaf}

abbrev key_of : ℕ → List ℕ
key_of n = 97 ∷ 98 ∷ 99 ∷ 100 ∷ 101 ∷ 102 ∷ n ∷ []

abbrev first_cell : LeafCell
first_cell = record { key = key_of 1; payload = inline (7 ∷ 8 ∷ []) }

abbrev second_cell : LeafCell
second_cell = record { key = key_of 3; payload = overflow 5000 9 }

abbrev leaf_cells : List LeafCell
leaf_cells = first_cell ∷ second_cell ∷ []

abbrev blank : List ℕ
blank = replicate 48 0

abbrev or_nil : Option (List ℕ) → List ℕ
or_nil none = []
or_nil (some body) = body

abbrev leaf_page : List ℕ
leaf_page = or_nil (encode_leaf leaf_cells blank)

leaf_page-encode_leaf : encode_leaf leaf_cells blank ≡ some leaf_page
unfolding encode_leaf prefix_len keys_lcp encode_compressed varint_len leading_zeros bit_length
    leaf_suffix_cell_size
leaf_page-encode_leaf = refl

leaf_cells-IsLeafCell : All IsLeafCell leaf_cells
unfolding IsPayload
leaf_cells-IsLeafCell =
    ((omega arith, omega arith), ((omega arith, (omega arith, omega arith)), tt))

leaf_cells-Ordered : Ordered none (leaf_keys leaf_cells)
leaf_cells-Ordered = (refl, refl, (refl, refl, tt))

parse_leaf-encode_leaf_example : parse_leaf 0 leaf_page ≡ ok leaf_cells
parse_leaf-encode_leaf_example =
    parse_leaf-encode_leaf 0 leaf_cells blank leaf_page leaf_cells-IsLeafCell leaf_cells-Ordered
      (omega arith) leaf_page-encode_leaf

leaf_find-encode_leaf_example : leaf_find 0 leaf_page (key_of 3) ≡ ok (lookup leaf_cells (key_of 3))
leaf_find-encode_leaf_example =
    leaf_find-encode_leaf 0 leaf_cells blank leaf_page (key_of 3) leaf_cells-IsLeafCell
      leaf_cells-Ordered (omega arith) leaf_page-encode_leaf

lookup_key : lookup leaf_cells (key_of 3) ≡ some (overflow 5000 9)
lookup_key = refl

leaf_for_each_prefix-encode_leaf_example :
    (leaf_for_each_prefix 0 leaf_page (97 ∷ 98 ∷ []) (λ (n : ℕ) k. ok (suc n)) 0 >>= state_of)
    ≡ matching (λ (n : ℕ) k. ok (suc n)) (97 ∷ 98 ∷ []) (leaf_keys leaf_cells) 0
leaf_for_each_prefix-encode_leaf_example =
    leaf_for_each_prefix-encode_leaf (λ (n : ℕ) k. ok (suc n)) 0 leaf_cells blank leaf_page
      (97 ∷ 98 ∷ []) 0 leaf_cells-IsLeafCell leaf_cells-Ordered (omega arith) leaf_page-encode_leaf

matching_run : matching (λ (n : ℕ) k. ok (suc n)) (97 ∷ 98 ∷ []) (leaf_keys leaf_cells) 0 ≡ ok 2
matching_run = refl

abbrev inner_cells : List InnerCell
inner_cells = record { key = 5 ∷ []; child = 11 } ∷ record { key = 5 ∷ 0 ∷ []; child = 12 } ∷ []

abbrev inner_page : List ℕ
inner_page = or_nil (encode_inner inner_cells 13 blank)

inner_page-encode_inner : encode_inner inner_cells 13 blank ≡ some inner_page
unfolding encode_inner inner_cell_size varint_len leading_zeros bit_length
inner_page-encode_inner = refl

inner_cells-IsInnerCell : All IsInnerCell inner_cells
inner_cells-IsInnerCell = ((omega arith, omega arith), ((omega arith, omega arith), tt))

inner_cells-Ordered : Ordered none (inner_keys inner_cells)
inner_cells-Ordered = (refl, refl, (refl, refl, tt))

parse_inner-encode_inner_example : parse_inner 0 inner_page ≡ ok (inner_cells, 13)
parse_inner-encode_inner_example =
    parse_inner-encode_inner 0 inner_cells 13 blank inner_page inner_cells-IsInnerCell
      inner_cells-Ordered (omega arith) (omega arith) inner_page-encode_inner

inner_child_indexed-encode_inner_example :
    inner_child_indexed 0 inner_page (5 ∷ [])
    ≡ ok (child_of inner_cells 13 (5 ∷ []), separators_up_to inner_cells (5 ∷ []))
inner_child_indexed-encode_inner_example =
    inner_child_indexed-encode_inner 0 inner_cells 13 blank inner_page (5 ∷ [])
      inner_cells-IsInnerCell inner_cells-Ordered (omega arith) (omega arith)
      inner_page-encode_inner

child_of_key : child_of inner_cells 13 (5 ∷ []) ≡ 12
child_of_key = refl

split_point-Half_example : Half (λ (n : ℕ). n) (10 ∷ 10 ∷ 80 ∷ 10 ∷ [])
split_point-Half_example = split_point-Half (λ (n : ℕ). n) (10 ∷ 10 ∷ 80 ∷ 10 ∷ []) (omega arith)

split_point_run : split_point (10 ∷ 10 ∷ 80 ∷ 10 ∷ []) (λ (n : ℕ). n) ≡ 3
unfolding split_point split_loop
split_point_run = refl
