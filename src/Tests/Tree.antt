-- ===== src/Tests/Tree.antt =====
-- A tree of an inner node over two leaves, of which one has a value on an overflow page.
use arkeion.Common.{
  ℕ, ◌≡◌, ◌≤◌, inl, inr, refl, arith, Option, none, some, List, [], ◌∷◌, ◌++◌, replicate, All, ◌==◌,
  if◌then◌else◌,
}
use arkeion.Common.BitLength.{leading_zeros, bit_length}
use arkeion.Common.LexOrder.{Below}
use arkeion.Format.{varint_len}
use arkeion.Error.{ok}
use arkeion.Btree.Loop.{done}
use arkeion.Btree.Node.{
  inline, overflow, LeafCell, InnerCell, keys_lcp, leaf_cell_size, leaf_suffix_cell_size,
  inner_cell_size,
}
use arkeion.Btree.Node.Write.{
  prefix_len, encode_plain, encode_compressed, encode_leaf, encode_inner, encode_overflow,
}
use arkeion.Btree.Node.Parse.RoundTrip.{Ordered, leaf_keys}
use arkeion.Btree.Node.RoundTrip.{parse_overflow-encode_overflow}
use arkeion.Btree.Node.Write.Cells.{IsPayload}
use arkeion.Btree.Node.LeafPage.{IsLeafCell}
use arkeion.Btree.Node.LeafPage.Shared.{encode_leaf-LeafPage}
use arkeion.Btree.Node.InnerPage.{IsInnerCell, InnerPage, encode_inner-InnerPage}
use arkeion.Btree.Read.{Source, read_chain, read_value, get, contains}
use arkeion.Btree.Read.Tree.{LeafAt, IsTree}
use arkeion.Btree.Scan.{scan}
use arkeion.Btree.Scan.Map.{from, scan-IsMap}
use arkeion.Branch.{KeyDiff, key_removed}
use arkeion.Btree.Diff.{merge_loop, merge, diff_flat}
use arkeion.Btree.Diff.Merge.{Sorted, Tells, change_at}
use arkeion.Btree.Diff.Flat.{range, diff_flat-IsMap}
use arkeion.Btree.Read.Get.{IsMap, find, has_key, get-IsMap, contains-IsMap}

abbrev pub blank : List ℕ
blank = replicate 40 0

abbrev pub low_cells : List LeafCell
low_cells = record { key = 1 ∷ []; payload = inline (7 ∷ []) } ∷ []

abbrev high_cells : List LeafCell
high_cells =
    record { key = 5 ∷ []; payload = overflow 3 4 }
    ∷ record { key = 6 ∷ []; payload = inline [] }
    ∷ []

abbrev separators : List InnerCell
separators = record { key = 5 ∷ []; child = 1 } ∷ []

abbrev or_nil : Option (List ℕ) → List ℕ
or_nil none = []
or_nil (some body) = body

abbrev pub low_page : List ℕ
low_page = or_nil (encode_leaf low_cells blank)

abbrev high_page : List ℕ
high_page = or_nil (encode_leaf high_cells blank)

abbrev root_page : List ℕ
root_page = or_nil (encode_inner separators 2 blank)

abbrev chain_page : List ℕ
chain_page = encode_overflow (1 ∷ 2 ∷ 3 ∷ []) 0 blank

abbrev pub pages : Source
pages id =
    if id == 1
    then ok low_page
    else (if id == 2 then ok high_page else (if id == 3 then ok root_page else ok chain_page))

pub low_page-encode_leaf : encode_leaf low_cells blank ≡ some low_page
unfolding encode_leaf prefix_len keys_lcp encode_compressed varint_len leading_zeros bit_length
    leaf_suffix_cell_size encode_plain leaf_cell_size
low_page-encode_leaf = refl

high_page-encode_leaf : encode_leaf high_cells blank ≡ some high_page
unfolding encode_leaf prefix_len keys_lcp encode_compressed varint_len leading_zeros bit_length
    leaf_suffix_cell_size encode_plain leaf_cell_size
high_page-encode_leaf = refl

root_page-encode_inner : encode_inner separators 2 blank ≡ some root_page
unfolding encode_inner inner_cell_size varint_len leading_zeros bit_length
root_page-encode_inner = refl

pub low_cells-IsLeafCell : All IsLeafCell low_cells
unfolding IsPayload
low_cells-IsLeafCell = ((omega arith, omega arith), tt)

high_cells-IsLeafCell : All IsLeafCell high_cells
unfolding IsPayload
high_cells-IsLeafCell =
    ((omega arith, (omega arith, omega arith)), ((omega arith, omega arith), tt))

separators-IsInnerCell : All IsInnerCell separators
separators-IsInnerCell = ((omega arith, omega arith), tt)

low-LeafAt : LeafAt pages 1 low_cells
low-LeafAt =
    let o : Ordered none (leaf_keys low_cells) = (refl, refl, tt) in
    let (p, page) =
      encode_leaf-LeafPage low_cells blank low_page low_cells-IsLeafCell o (omega arith)
        low_page-encode_leaf in
    record {
      body = low_page;
      read = refl;
      prefix = p;
      page = page;
      fits = low_cells-IsLeafCell;
      ordered = o;
    }

high-LeafAt : LeafAt pages 2 high_cells
high-LeafAt =
    let o : Ordered none (leaf_keys high_cells) = (refl, refl, (refl, refl, tt)) in
    let (p, page) =
      encode_leaf-LeafPage high_cells blank high_page high_cells-IsLeafCell o (omega arith)
        high_page-encode_leaf in
    record {
      body = high_page;
      read = refl;
      prefix = p;
      page = page;
      fits = high_cells-IsLeafCell;
      ordered = o;
    }

root-InnerPage : InnerPage root_page separators 2
root-InnerPage =
    encode_inner-InnerPage separators 2 blank root_page separators-IsInnerCell (omega arith)
      (omega arith) root_page-encode_inner

none_less_5 : (k : ℕ) → 5 ≤ k → ¬ (Below (k ∷ []) (5 ∷ []))
none_less_5 k h b = elim b [ inl l ↦ absurd (omega arith) | inr (e, b) ↦ absurd b ]

tree : IsTree pages 1 3 (low_cells ++ high_cells)
unfolding IsTree
tree = record {
  body = root_page;
  read = refl;
  cells = separators;
  rightmost = 2;
  page = root-InnerPage;
  fits = separators-IsInnerCell;
  ordered = (refl, refl, tt);
  children = record {
    left = low_cells;
    right = high_cells;
    joined = refl;
    below = (inl (omega arith), tt);
    above = (none_less_5 5 (omega arith), (none_less_5 6 (omega arith), tt));
    first = low-LeafAt;
    later = high-LeafAt;
  };
}

chain_run : read_value pages 2 (overflow 3 4) ≡ done (1 ∷ 2 ∷ 3 ∷ [])
unfolding read_value read_chain
chain_run =
    rw
      (
        read_value,
        read_chain,
        parse_overflow-encode_overflow 4 (1 ∷ 2 ∷ 3 ∷ []) 0 blank (omega arith) (omega arith)
            (omega arith),
      )
      refl

abbrev rows : List (List ℕ × List ℕ)
rows = (1 ∷ [], 7 ∷ []) ∷ (5 ∷ [], 1 ∷ 2 ∷ 3 ∷ []) ∷ (6 ∷ [], []) ∷ []

rows-IsMap : IsMap pages 3 2 rows
unfolding read_value
rows-IsMap = record {
  height = 1;
  entries = low_cells ++ high_cells;
  tree = tree;
  values = (refl, refl, (refl, chain_run, (refl, refl, tt)));
  rooted = λ e. absurd (omega arith);
  deep = omega arith;
}

get-IsMap_example : get pages 2 3 (5 ∷ []) ≡ done (find rows (5 ∷ []))
get-IsMap_example = get-IsMap pages 3 2 rows (5 ∷ []) rows-IsMap

find_run : find rows (5 ∷ []) ≡ some (1 ∷ 2 ∷ 3 ∷ [])
find_run = refl

contains-IsMap_example : contains pages 2 3 (2 ∷ []) ≡ done (has_key rows (2 ∷ []))
contains-IsMap_example = contains-IsMap pages 3 2 rows (2 ∷ []) rows-IsMap

scan-IsMap_example :
    (least : ℕ) × ((rounds : ℕ)
      → least ≤ rounds
      → scan pages 2 rounds 3 (some (2 ∷ [])) ≡ done (from (some (2 ∷ [])) rows))
scan-IsMap_example = scan-IsMap pages 3 2 (some (2 ∷ [])) rows rows-IsMap

from_run : from (some (2 ∷ [])) rows ≡ (5 ∷ [], 1 ∷ 2 ∷ 3 ∷ []) ∷ (6 ∷ [], []) ∷ []
from_run = refl

abbrev low_rows : List (List ℕ × List ℕ)
low_rows = (1 ∷ [], 7 ∷ []) ∷ []

low_rows-IsMap : IsMap pages 1 2 low_rows
unfolding read_value IsTree
low_rows-IsMap = record {
  height = 0;
  entries = low_cells;
  tree = low-LeafAt;
  values = (refl, refl, tt);
  rooted = λ e. absurd (omega arith);
  deep = omega arith;
}

rows-Sorted : Sorted rows
rows-Sorted = ((inl (omega arith), (inl (omega arith), tt)), ((inl (omega arith), tt), (tt, tt)))

diff_flat-IsMap_example :
    (ds : List KeyDiff) × Tells ds
      (range (some (2 ∷ [])) none rows)
      (range (some (2 ∷ [])) none low_rows)
    × ((least : ℕ) × ((rounds : ℕ)
          → least ≤ rounds
          → diff_flat pages 2 rounds 3 1 (some (2 ∷ [])) none ≡ done ds))
diff_flat-IsMap_example =
    diff_flat-IsMap pages 2 3 1 (some (2 ∷ [])) none rows low_rows rows-IsMap low_rows-IsMap
      rows-Sorted (tt, tt)

abbrev changes : List KeyDiff
changes = merge (range (some (2 ∷ [])) none rows) (range (some (2 ∷ [])) none low_rows)

removed_run : change_at changes (6 ∷ []) ≡ some (key_removed [])
unfolding merge_loop
removed_run = refl
