-- ===== src/Branch.antt =====
-- branch.rs: the changes of keys between two trees, decoded to changes of rows and of the schema.
-- The lossy reading of a name as UTF-8, which is the library's, is the parameter `lossy`.
pub mod Decode
use arkeion.Common.{
  ℕ, ◌+◌, Bool, ◌&&◌, Option, none, some, List, [], ◌∷◌, drop, length, get_elem?, leb, ◌==◌,
  if◌then◌else◌,
}
use arkeion.Catalog.{decode_row_key}

pub data ChangeKind : Type 0 where
  added removed modified : ChangeKind

pub record RowChange : Type 0 where
  pub table_id : ℕ
  pub rowid : ℕ
  pub kind : ChangeKind

pub record SchemaChange : Type 0 where
  pub table : List ℕ
  pub kind : ChangeKind

pub record Diff : Type 0 where
  pub schema : List SchemaChange
  pub rows : List RowChange

-- btree/mod.rs: what happened to a key, with the values before and after.
pub data KeyChange : Type 0 where
  key_added : List ℕ → KeyChange
  key_removed : List ℕ → KeyChange
  key_modified : List ℕ → List ℕ → KeyChange

pub record KeyDiff : Type 0 where
  pub key : List ℕ
  pub change : KeyChange

-- `Diff::is_empty` and `Diff::len`
abbrev pub is_empty : Diff → Bool
is_empty d = length d.schema == 0 && length d.rows == 0

abbrev pub diff_len : Diff → ℕ
diff_len d = length d.schema + length d.rows

abbrev pub kind_of : KeyChange → ChangeKind
kind_of (key_added v) = added
kind_of (key_removed v) = removed
kind_of (key_modified v w) = modified

module _ (lossy : List ℕ → List ℕ) where
  -- One round of the loop of `decode`, in front of what the later rounds push.
  unfoldable pub decode_change : KeyDiff → Diff → Diff
  decode_change d rest = elim d.key [
    | [] ↦ rest
    | b ∷ bs ↦
        if b == 0x00
        then (elim bs [
          | [] ↦ rest
          | c ∷ name ↦
              if c == 0x01
              then record rest {
                schema = record { table = lossy name; kind = kind_of d.change } ∷ rest.schema;
              }
              else rest
        ])
        else if leb 0x80 b
        then (elim (decode_row_key d.key) [
          | none ↦ rest
          | some (table_id, rowid) ↦ record rest {
            rows =
                record { table_id = table_id; rowid = rowid; kind = kind_of d.change } ∷ rest.rows;
          }
        ])
        else rest
  ]

  unfoldable pub decode : List KeyDiff → Diff
  unfolding decode_change
  decode [] = record { schema = []; rows = [] }
  decode (d ∷ ds) = decode_change d (decode ds)
