-- ===== src/Btree/Node/Parse.antt =====
-- btree/node.rs: reading the cells of a node out of a page, all of them or one by its pointer.
pub mod Reads
pub mod RoundTrip
use Prim.Native.Nat.Ordering.{lt}
use arkeion.Common.{
  ℕ, zero, suc, ◌+◌, bit_and, Bool, true, false, not, ◌||◌, Option, none, some, List, [], ◌∷◌, ◌++◌,
  length, get_elem?, get_or, ◌==◌, if◌then◌else◌,
}
use arkeion.Common.Cursor.{get_range?}
use arkeion.Common.Words.{from_le}
use arkeion.Common.Fields.{slice}
use arkeion.Common.Lex.{lex}
use arkeion.Error.{corrupt, Result, ok, err, ◌>>=◌, ok_or}
use arkeion.Btree.Node.{
  type_leaf, type_inner, type_overflow, inner_hdr, overflow_hdr, cell_overflow_flag, Payload,
  inline, overflow, LeafCell, InnerCell, bad_page, node_type, ncells_of, get_varint, get_slice,
  get_u64, leaf_prefix_and_start, cell_ptr,
}

-- `read_leaf_payload`, which `parse_leaf` does in place.
unfoldable pub read_leaf_payload : ℕ → List ℕ → ℕ → ℕ → Result (Payload × ℕ)
read_leaf_payload page body pos flags =
    if not (bit_and flags cell_overflow_flag == 0)
    then (get_varint page body pos >>= λ (total_len, pos).
        get_u64 page body pos >>= λ (first, pos). ok (overflow total_len first, pos))
    else (get_varint page body pos >>= λ (vlen, pos).
        get_slice page body pos vlen >>= λ (v, pos). ok (inline v, pos))

-- The flags, the key as it is stored, and the position of the payload.
unfoldable pub leaf_key_at : ℕ → List ℕ → ℕ → Result (ℕ × List ℕ × ℕ)
leaf_key_at page body off = do
  flags ← ok_or (get_elem? body off) (corrupt page "celda truncada")
  (klen, pos) ← get_varint page body (off + 1)
  (key, pos) ← get_slice page body pos klen
  ok (flags, key, pos)

-- A key that follows the last one of the cells read, if there is one.
abbrev pub follows : Option (List ℕ) → List ℕ → Bool
follows none key = true
follows (some p) key = elim (lex p key) [ lt ↦ true | _ ↦ false ]

abbrev pub is_empty_key : List ℕ → Bool
is_empty_key [] = true
is_empty_key (b ∷ bs) = false

-- The loop of `parse_leaf`; `last` is the key of the cell before.
unfoldable pub parse_leaf_cells :
    ℕ → List ℕ → List ℕ → ℕ → ℕ → Option (List ℕ) → Result (List LeafCell × ℕ)
parse_leaf_cells page body prefix zero pos last = ok ([], pos)
parse_leaf_cells page body prefix (suc n) pos last = do
  (flags, suffix, pos) ← leaf_key_at page body pos
  let key = prefix ++ suffix
  if is_empty_key key || not (follows last key)
      then bad_page page "claves de hoja desordenadas o vacías"
      else (read_leaf_payload page body pos flags >>= λ (payload, pos).
          parse_leaf_cells page body prefix n pos (some key) >>= λ (cells, pos).
          ok (record { key = key; payload = payload } ∷ cells, pos))

unfoldable pub parse_leaf : ℕ → List ℕ → Result (List LeafCell)
parse_leaf page body =
    if not (node_type body == type_leaf)
    then bad_page page "se esperaba una hoja"
    else (leaf_prefix_and_start page body >>= λ (prefix, pos).
        parse_leaf_cells page body prefix (ncells_of body) pos none >>= λ (cells, pos). ok cells)

unfoldable pub parse_inner_cells :
    ℕ → List ℕ → ℕ → ℕ → Option (List ℕ) → Result (List InnerCell × ℕ)
parse_inner_cells page body zero pos last = ok ([], pos)
parse_inner_cells page body (suc n) pos last = do
  (klen, pos) ← get_varint page body pos
  (key, pos) ← get_slice page body pos klen
  if is_empty_key key || not (follows last key)
      then bad_page page "separadores desordenados o vacíos"
      else (get_u64 page body pos >>= λ (child, pos).
          parse_inner_cells page body n pos (some key) >>= λ (cells, pos).
          ok (record { key = key; child = child } ∷ cells, pos))

unfoldable pub inner_rightmost : List ℕ → ℕ
inner_rightmost body = from_le (slice body 4 12)

unfoldable pub parse_inner : ℕ → List ℕ → Result (List InnerCell × ℕ)
parse_inner page body =
    if not (node_type body == type_inner)
    then bad_page page "se esperaba un nodo interno"
    else (parse_inner_cells page body (ncells_of body) inner_hdr none >>= λ (cells, pos).
        ok (cells, inner_rightmost body))

-- The data of the page and the next page of the chain.
unfoldable pub parse_overflow : ℕ → List ℕ → Result (List ℕ × ℕ)
parse_overflow page body =
    if not (node_type body == type_overflow)
    then bad_page page "se esperaba una página overflow"
    else (ok_or (get_range? body overflow_hdr (overflow_hdr + ncells_of body))
          (corrupt page "overflow truncado")
        >>= λ data_of. ok (data_of, from_le (slice body 4 12)))

-- The key and the payload of the cell with the pointer `i`.
unfoldable pub leaf_cell_at : ℕ → List ℕ → ℕ → Result (List ℕ × Payload)
leaf_cell_at page body i = do
  (flags, suffix, pos) ← leaf_key_at page body (cell_ptr body i)
  (prefix, start) ← leaf_prefix_and_start page body
  (payload, pos) ← read_leaf_payload page body pos flags
  ok (prefix ++ suffix, payload)
