-- ===== src/Tests/Catalog.antt =====
-- Keys of rows and of index entries, and a diff, at concrete inputs (catalog.rs and branch.rs).
use arkeion.Common.{
  ℕ, ◌-◌, ◌^◌, ◌≡◌, ◌↔◌, refl, arith, true, false, inr, none, some, List, [], ◌∷◌, ◌++◌, map,
}
use arkeion.Common.Words.{compare_ℤ, signed}
use arkeion.Common.Lex.{lex, then_cmp}
use arkeion.Record.{Value, integer, text}
use arkeion.Keyenc.{rowid_be}
use arkeion.Keyenc.Prefix.{starts_with}
use arkeion.Catalog.{
  row_key, row_prefix, decode_row_key, IndexDef, index_value_prefix, index_entry_key,
}
use arkeion.Catalog.RowKey.{row_key-order, decode_row_key-row_key, row_prefix-starts_with}
use arkeion.Catalog.IndexKey.{
  values_of, compare_values, index_entry_key-index_value_prefix, index_entry_key-order,
}
use arkeion.Branch.{added, removed, modified, key_added, key_removed, key_modified, decode}
use arkeion.Branch.Decode.{
  Changed, row, table, internal, key_diff, rows_of, tables_of, decode-Changed,
}

row_key-order_example :
    lex (row_key 1 300 ++ (1 ∷ [])) (row_key 2 (2 ^ 64 - 1) ++ (2 ∷ []))
    ≡ then_cmp
        (compare_ℤ (signed 1) (signed 2))
        (then_cmp (compare_ℤ (signed 300) (signed (2 ^ 64 - 1))) (lex (1 ∷ []) (2 ∷ [])))
row_key-order_example =
    row_key-order 1 2 300 (2 ^ 64 - 1) (1 ∷ []) (2 ∷ []) (omega arith) (omega arith) (omega arith)
      (omega arith)

decode_row_key-row_key_example : decode_row_key (row_key 7 300) ≡ some (7, 300)
decode_row_key-row_key_example = decode_row_key-row_key 7 300 (omega arith) (omega arith)

row_prefix-starts_with_example :
    (starts_with (row_key 7 300) (row_prefix 8) ≡ true) ↔ (◌≡◌ {A = ℕ} 7 8)
row_prefix-starts_with_example = row_prefix-starts_with 7 8 300 (omega arith) (omega arith)

abbrev by_second : IndexDef
by_second = record { name = 105 ∷ []; index_id = 3; columns = 1 ∷ 0 ∷ []; unique = false }

abbrev first_row : List Value
first_row = integer 5 ∷ text (65 ∷ []) ∷ []

abbrev second_row : List Value
second_row = integer 6 ∷ text (65 ∷ []) ∷ []

abbrev first_values : List Value
first_values = text (65 ∷ []) ∷ integer 5 ∷ []

abbrev second_values : List Value
second_values = text (65 ∷ []) ∷ integer 6 ∷ []

first_row-values_of : values_of (1 ∷ 0 ∷ []) first_row ≡ some first_values
unfolding values_of
first_row-values_of = refl

second_row-values_of : values_of (1 ∷ 0 ∷ []) second_row ≡ some second_values
unfolding values_of
second_row-values_of = refl

abbrev first_key : List ℕ
first_key = index_value_prefix by_second first_values ++ rowid_be 1

abbrev second_key : List ℕ
second_key = index_value_prefix by_second second_values ++ rowid_be 2

index_entry_key-index_value_prefix_example : index_entry_key by_second first_row 1 ≡ some first_key
index_entry_key-index_value_prefix_example =
    index_entry_key-index_value_prefix by_second first_row first_values 1 first_row-values_of

first_row-index_entry_key : index_entry_key by_second first_row 1 ≡ some first_key
first_row-index_entry_key =
    index_entry_key-index_value_prefix by_second first_row first_values 1 first_row-values_of

second_row-index_entry_key : index_entry_key by_second second_row 2 ≡ some second_key
second_row-index_entry_key =
    index_entry_key-index_value_prefix by_second second_row second_values 2 second_row-values_of

index_entry_key-order_example :
    lex first_key second_key
    ≡ then_cmp (compare_values first_values second_values) (compare_ℤ (signed 1) (signed 2))
index_entry_key-order_example =
    index_entry_key-order by_second first_row second_row first_values second_values first_key
      second_key 1 2 first_row-values_of second_row-values_of (tt, ((omega arith, omega arith), tt))
      (omega arith) (omega arith) first_row-index_entry_key second_row-index_entry_key

-- A table and the counters of the catalog, and then two rows.
abbrev changes : List Changed
changes =
    record {
      owner = table (116 ∷ []);
      before = none;
      after = some (9 ∷ []);
      change = key_added (9 ∷ []);
    }
    ∷ record {
      owner = internal (0 ∷ 2 ∷ 0 ∷ []);
      before = some (1 ∷ []);
      after = some (2 ∷ []);
      change = key_modified (1 ∷ []) (2 ∷ []);
    }
    ∷ record {
      owner = row 1 42;
      before = some (7 ∷ []);
      after = some (8 ∷ []);
      change = key_modified (7 ∷ []) (8 ∷ []);
    }
    ∷ record {
      owner = row 1 43;
      before = some (7 ∷ []);
      after = none;
      change = key_removed (7 ∷ []);
    }
    ∷ []

decode-Changed_example :
    decode (λ s. s) (map key_diff changes)
    ≡ (record { schema = tables_of (λ s. s) changes; rows = rows_of changes })
decode-Changed_example =
    decode-Changed (λ s. s) changes
      (
        record { owned = tt; between = refl },
        (
          record { owned = (omega arith, inr (omega arith)); between = refl },
          (
            record { owned = (omega arith, omega arith); between = refl },
            (record { owned = (omega arith, omega arith); between = refl }, tt),
          ),
        ),
      )

-- What the changes are decoded to, written out.
tables_of-changes : tables_of (λ s. s) changes ≡ (record { table = 116 ∷ []; kind = added } ∷ [])
tables_of-changes = refl

rows_of-changes : rows_of changes ≡ (
    record { table_id = 1; rowid = 42; kind = modified }
    ∷ record { table_id = 1; rowid = 43; kind = removed }
    ∷ [])
rows_of-changes = refl
