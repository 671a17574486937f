-- ===== src/Catalog.antt =====
-- catalog.rs: the keys of rows and of index entries in the tree of the data. A table's or an
-- index's number is a `u32`.
pub mod RowKey
pub mod IndexKey
use arkeion.Common.{
  ℕ, ◌^◌, Bool, Option, none, some, List, [], ◌∷◌, ◌++◌, get_elem?, ltb, if◌then◌else◌, ◌>>=◌,
}
use arkeion.Common.Words.{be_bytes}
use arkeion.Record.{Value}
use arkeion.Keyenc.{encode_oint, decode_oint, encode_index_value, rowid_be}

unfoldable pub row_key : ℕ → ℕ → List ℕ
row_key table_id rowid = encode_oint table_id ++ encode_oint rowid

-- The prefix of all rows of a table.
unfoldable pub row_prefix : ℕ → List ℕ
row_prefix table_id = encode_oint table_id

-- `u32::try_from` of an `i64`, given by its 64 bits.
abbrev pub try_u32 : ℕ → Option ℕ
try_u32 v = if ltb v (2 ^ 32) then some v else none

unfoldable pub decode_row_key : List ℕ → Option (ℕ × ℕ)
decode_row_key key = do
  first ← get_elem? key 0
  if ltb first 0x80
      then none
      else (decode_oint key 0 >>= λ (table_id, pos). decode_oint key pos >>= λ (rowid, pos).
          try_u32 table_id >>= λ table_id. some (table_id, rowid))

abbrev pub ks_index : ℕ
ks_index = 0x02

pub record IndexDef : Type 0 where
  pub name : List ℕ
  pub index_id : ℕ
  pub columns : List ℕ
  pub unique : Bool

-- The prefix of all entries of an index.
unfoldable pub index_id_prefix : ℕ → List ℕ
index_id_prefix index_id = ks_index ∷ be_bytes 4 index_id

-- The loop over the values of `index_value_prefix`.
pub encode_index_values : List Value → List ℕ
encode_index_values [] = []
encode_index_values (v ∷ vs) = encode_index_value v ++ encode_index_values vs

unfoldable pub index_value_prefix : IndexDef → List Value → List ℕ
unfolding index_id_prefix encode_index_values
index_value_prefix idx values = index_id_prefix idx.index_id ++ encode_index_values values

-- The loop over the columns of `index_entry_key`; none where `record[col]` is out of bounds and
-- the code stops.
pub encode_columns : List ℕ → List Value → Option (List ℕ)
encode_columns [] row = some []
encode_columns (col ∷ cols) row = do
  v ← get_elem? row col
  rest ← encode_columns cols row
  some (encode_index_value v ++ rest)

unfoldable pub index_entry_key : IndexDef → List Value → ℕ → Option (List ℕ)
unfolding index_id_prefix encode_columns
index_entry_key idx row rowid = do
  columns ← encode_columns idx.columns row
  some (index_id_prefix idx.index_id ++ (columns ++ rowid_be rowid))
