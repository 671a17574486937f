-- ===== src/Tests/Store.antt =====
-- Writes to the store of a new transaction on the pages of a tree.
use arkeion.Common.{ℕ, ◌≡◌, ◌≢◌, refl, arith, true, none, some, List, [], ◌∷◌}
use arkeion.Error.{Result, ok, err, corrupt}
use arkeion.Btree.Loop
use arkeion.Common.BitLength.{leading_zeros, bit_length}
use arkeion.Format.{varint_len}
use arkeion.Btree.Node.{inline_cell_size, leaf_cell_size, leaf_suffix_cell_size, keys_lcp}
use arkeion.Btree.Node.Write.{encode_leaf, encode_plain, encode_compressed, prefix_len}
use arkeion.Btree.Node.Parse.{parse_leaf}
use arkeion.Btree.Node.LeafPage.Shared.{encode_leaf-LeafPage}
use arkeion.Btree.Node.RoundTrip.{parse_leaf-encode_leaf}
use arkeion.Btree.Read.{node_kind, leaf_kind}
use arkeion.Btree.Read.Get.{node_kind-LeafPage}
use arkeion.Btree.Write.{make_payload, search_key, free_payload}
use arkeion.Btree.Node.{overflow}
use arkeion.Btree.Read.{read_value}
use arkeion.Btree.Write.{write_chain}
use arkeion.Btree.Write.Chain.{read_value-write_chain}
use arkeion.Btree.Insert.{insert, insert_with, insert_full, insert_first}
use arkeion.Btree.Delete.{delete, delete_rec, delete_node, delete_at, delete_found, rest_of_leaf}
use arkeion.Btree.Durable.{KeepsDurable, insert-KeepsDurable, delete-KeepsDurable}
use arkeion.Tx.Store.{
  TxStore, new, body, next_id, alloc, zeroed, read_at, free, take_append_cursor, set_append_cursor,
}
use arkeion.Tx.Store.Run.{Run, done}
use arkeion.Tx.Store.Steps.{after_alloc}
use arkeion.Tx.Store.Numbers.{IsStore}
use arkeion.Tx.Store.Durable.{new-IsStore, alloc-fresh}
use arkeion.Tests.Tree.{
  pages, blank, low_cells, low_page, low_page-encode_leaf, low_cells-IsLeafCell,
}

abbrev store : TxStore
store = new pages 5

store-IsStore : IsStore store
store-IsStore = new-IsStore pages 5

abbrev bytes : List ℕ
bytes = 1 ∷ 2 ∷ 3 ∷ []

read_value-write_chain_example :
    (first : ℕ) × (t : TxStore) × (write_chain store bytes ≡ done first t)
    × (read_value (body t) 4 (overflow 3 first) ≡ Loop.done bytes)
read_value-write_chain_example =
    read_value-write_chain store bytes 4 store-IsStore (omega arith) (omega arith) (omega arith)

abbrev result_of {ℓ} : {T : Type ℓ} → Run T → Result T
result_of none = err (corrupt 0 "")
result_of (some (r, t)) = r

abbrev store_of {ℓ} : {T : Type ℓ} → Run T → TxStore
store_of none = store
store_of (some (r, t)) = t

abbrev inserted : Run ℕ
inserted = insert 3 store 0 (2 ∷ []) (9 ∷ [])

inserted_run : insert 3 store 0 (2 ∷ []) (9 ∷ []) ≡ some (result_of inserted, store_of inserted)
unfolding insert insert_with take_append_cursor insert_full make_payload inline_cell_size varint_len
    leading_zeros bit_length insert_first alloc next_id encode_leaf prefix_len keys_lcp
    encode_compressed encode_plain leaf_cell_size leaf_suffix_cell_size set_append_cursor
inserted_run = refl

inserted_ok : result_of inserted ≡ ok 5
unfolding insert insert_with take_append_cursor insert_full make_payload inline_cell_size varint_len
    leading_zeros bit_length insert_first alloc next_id encode_leaf prefix_len keys_lcp
    encode_compressed encode_plain leaf_cell_size leaf_suffix_cell_size set_append_cursor
inserted_ok = refl

insert-KeepsDurable_example : KeepsDurable store (store_of inserted)
insert-KeepsDurable_example =
    insert-KeepsDurable 3 store (store_of inserted) 0 (2 ∷ []) (9 ∷ []) (result_of inserted)
      store-IsStore inserted_run

low_parsed : parse_leaf 1 low_page ≡ ok low_cells
low_parsed =
    parse_leaf-encode_leaf 1 low_cells blank low_page low_cells-IsLeafCell (refl, refl, tt)
      (omega arith) low_page-encode_leaf

low_kind : node_kind low_page ≡ leaf_kind
low_kind =
    let (p, page) =
      encode_leaf-LeafPage low_cells blank low_page low_cells-IsLeafCell (refl, refl, tt)
        (omega arith) low_page-encode_leaf in
    node_kind-LeafPage low_page low_cells p page

deleted_run : delete 3 store 1 (1 ∷ []) ≡ done (0, true) store
unfolding delete delete_rec read_at delete_node delete_at search_key delete_found free_payload
    rest_of_leaf free
deleted_run = rw (delete, delete_rec, read_at, low_kind, delete_node, low_parsed) refl

delete-KeepsDurable_example : KeepsDurable store store
delete-KeepsDurable_example =
    delete-KeepsDurable 3 store store 1 (1 ∷ []) (ok (0, true)) store-IsStore deleted_run

alloc-fresh_example :
    (body store (alloc store).0 ≡ err (corrupt (alloc store).0 "página transitoria liberada"))
    × (body (after_alloc store) (alloc store).0 ≡ ok zeroed)
    × ((id : ℕ) → id ≢ (alloc store).0 → body (after_alloc store) id ≡ body store id)
alloc-fresh_example = alloc-fresh store store-IsStore
