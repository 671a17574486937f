-- ===== src/Btree/Node/Append.antt =====
-- btree/node.rs: a cell behind the last one of a leaf, in the page, without writing the others again.
-- The pointers of the page and one more have room in it.
pub mod Places
pub mod Cells
pub mod Invariant
pub mod Inline
use arkeion.Common.{
  ℕ, zero, suc, ◌+◌, ◌-◌, ◌*◌, ◌%◌, ◌^◌, Bool, true, false, not, Option, none, some, List, [], ◌∷◌,
  length, drop, ltb, ◌==◌, if◌then◌else◌,
}
use arkeion.Common.Words.{le_bytes}
use arkeion.Common.Fields.{write_at, starts_with}
use arkeion.Error.{Result, ok, err, ◌>>=◌}
use arkeion.Btree.Node.{
  type_leaf, Payload, bad_page, node_type, ncells_of, leaf_prefix_and_start, set_cell_ptr,
  inline_cell_size, leaf_is_compressed,
}
use arkeion.Btree.Node.Write.{put, put_varint_at, encode_leaf_cell}
use arkeion.Btree.Node.Parse.{leaf_key_at}
use arkeion.Btree.Node.Search.{key_lt}
use arkeion.Btree.Node.Views.{skip_leaf_payload}

-- The loop over the cells: the position behind them, and the last key as it is stored.
unfoldable pub skip_cells : ℕ → List ℕ → ℕ → ℕ → Option (List ℕ) → Result (ℕ × Option (List ℕ))
skip_cells page body zero pos last = ok (pos, last)
skip_cells page body (suc n) pos last = do
  (flags, suffix, pos) ← leaf_key_at page body pos
  pos ← skip_leaf_payload page body pos flags
  skip_cells page body n pos (some suffix)

abbrev pub is_last : Option (List ℕ) → List ℕ → Bool
is_last none stored = true
is_last (some suffix) stored = key_lt suffix stored

-- What both appends do behind the bytes of the new cell: its pointer and the count.
unfoldable pub count_cell : List ℕ → ℕ → ℕ → List ℕ
count_cell body ncells end =
    write_at (set_cell_ptr body ncells end) 2 (le_bytes 2 ((ncells + 1) % 2 ^ 16))

-- The page after it and the position behind the cell.
unfoldable pub leaf_append : ℕ → List ℕ → List ℕ → Payload → Result (Option (List ℕ × ℕ))
leaf_append page body key payload =
    if not (node_type body == type_leaf)
    then bad_page page "se esperaba una hoja"
    else (leaf_prefix_and_start page body >>= λ (prefix, start).
        if not (starts_with key prefix)
        then ok none
        else (skip_cells page body (ncells_of body) start none >>= λ (end, last).
            let stored = drop (length prefix) key in
            let cell = encode_leaf_cell stored payload in
            if not (is_last last stored)
            then ok none
            else (if ltb (length body - 2 * (ncells_of body + 1)) (end + length cell)
                then ok none
                else ok (
                    some (
                      count_cell (write_at body end cell) (ncells_of body) end,
                      end + length cell,
                    )))))

-- What is stored of a key, if it has the prefix of the leaf.
unfoldable pub stored_key : List ℕ → List ℕ → Option (List ℕ)
stored_key body key = elim (leaf_is_compressed body) [
  | false ↦ some key
  | true ↦ elim (leaf_prefix_and_start 0 body) [
    | err e ↦ none
    | ok (prefix, start) ↦ if starts_with key prefix then some (drop (length prefix) key) else none
  ]
]

-- The cell's bytes are written at `end`, as in `write_leaf_cell_at`.
unfoldable pub append_inline_at : List ℕ → ℕ → List ℕ → List ℕ → Option (List ℕ × ℕ)
append_inline_at body end key value = elim (stored_key body key) [
  | none ↦ none
  | some stored ↦
      let (written, p) = put value (
        put_varint_at (length value)
          (put stored (put_varint_at (length stored) (put (0 ∷ []) (body, end))))) in
      if ltb (length body - 2 * (ncells_of body + 1)) (end + inline_cell_size stored (length value))
      then none
      else some (count_cell written (ncells_of body) end, p)
]
