-- ===== src/Lib.antt =====
-- Verification of Arkeion, an embedded append-only database in Rust: its byte formats, its
-- order-preserving keys, its record codec, the keys of rows and indexes, its B-tree on the pages of a
-- write transaction, the diff of two branches, and the commit chain with recovery and audit.
--
-- How the parts interact. A database is a file of pages. `Format` has the header page, the two meta
-- slots that cache the last commit, and the varints that records use. `Record` encodes a row as a
-- count of columns, their tags and their payloads. `Keyenc` encodes values and rowids so that the
-- order of the bytes is the order of the values, but that of two zeros -0.0 comes first and that a NaN
-- has a place by its sign, and the B-tree relies on it; `Catalog` makes keys of rows and of index
-- entries from these, and `Branch` reads the rows off changed keys. A commit
-- appends data pages, among them the nodes of the B-tree, and one commit page. `Btree` has the
-- nodes (their cells in a page, the array of pointers, the searches in it and the split) and the
-- operations on trees of them: lookups, scans and the diff on a source of pages, insert and delete on
-- the store of a transaction, which `Tx` has and which copies a durable page before it is changed.
-- `Commit` has the codec of the commit page, the hash chain through the commits, recovery on opening,
-- and the audit of the whole history.
--
-- The files, and the code that they model:
--   Common and below  natural numbers, lists, bytes of words, bit operations, layouts of fields in a
--                     body, positions in a buffer, lexicographic comparison
--   Error             src/error.rs: `Error`; with `AsOf` and `MergeConflict` of src/tx.rs
--   Format            src/format.rs: `FileHeader`, `MetaSlot` (`encode_into`, `decode`,
--                     `slot_page`), `put_varint`, `varint_len`, `take_varint`, `le_u32`, `le_u64`
--   Record            src/record.rs: `Value`, `encode_values`, `encode_resolved_into`,
--                     `decode_values`, `skip_payload`, `col_blob_bytes`, `decode_cols_sorted`
--   Keyenc            src/keyenc.rs, and `rowid_be`, `rowid_from_be` of src/record.rs; Keyenc.Real
--                     reads an `f64` as IEEE 754 says, and Keyenc.Order has the order of values that
--                     `cmp_nulls_first` of src/exec.rs has for the values of one type
--   Commit            src/commit.rs: `CommitHeader`, `Head`, `recover`, `meta_for`
--   Commit.Log        the logs that recovery follows, independent of its scan
--   Commit.Verify     src/commit.rs: `verify`, `verify_anchored`
--   Catalog           src/catalog.rs: `row_key`, `row_prefix`, `decode_row_key`, `index_id_prefix`,
--                     `index_value_prefix`, `index_entry_key`, `IndexDef`
--   Btree.Node        src/btree/node.rs: `LeafCell`, `InnerCell`, sizes, pointers, `split_point`;
--                     Node.Write `encode_leaf`, `encode_inner`, `encode_overflow`; Node.Parse
--                     `parse_leaf`, `parse_inner`, `parse_overflow`, `leaf_cell_at`; Node.Search
--                     `inner_child_indexed`, `leaf_seek`, `leaf_find`, `leaf_lower_bound`; Node.Views
--                     `leaf_cell_view`, `leaf_for_each_prefix`; Node.Append `leaf_append`,
--                     `append_inline_at`. Node.InnerPage and Node.LeafPage say what a written page is
--   Btree.Read        src/btree/mod.rs: `get`, `contains`, `read_value`; Read.Tree says what a tree of
--                     pages is, and Btree.Loop is the result of a loop on fuel
--   Btree.Scan        src/btree/mod.rs: `CursorState` (`descend`, `next_leaf`, `advance`), `scan`,
--                     `scan_from`, `scan_state`
--   Btree.Diff        src/btree/mod.rs: `diff`, `diff_range`, `diff_inner`, `diff_flat`,
--                     `child_intervals`, `collect_range`, `max_lower`, `min_upper`, `range_valid`
--   Btree.Write, Btree.Insert, Btree.Delete, Btree.Cursor
--                     src/btree/mod.rs: `write_chain`, `free_payload`, `insert`, `insert_rec`,
--                     `delete`, `delete_rec`, `AppendCursor`; each Steps says which steps of the
--                     store they go through, and Btree.Durable what follows of the durable pages
--   Tx.Store          src/tx.rs: `TxStore`; Store.Run is the result of an operation with the store
--                     after it, Store.Steps the steps of a store, Store.Numbers what holds of its
--                     numbers, and Store.Durable that the steps keep it
--   Branch            src/branch.rs, with `KeyChange` and `KeyDiff` of src/btree/mod.rs
--   Tests             runs at concrete inputs, and the theorems at them
--
-- How state and values correspond. A byte is a natural number. An `i64` is its 64-bit pattern, of
-- which `signed` is the integer; an `f64` is its `to_bits`; a string is its UTF-8 bytes. A function
-- that appends to a vector is the function to what it appends; a function that moves a `&mut usize`
-- also returns the new position, and one that writes into a page returns the page after it.
-- `usize` additions on lengths that come from a record wrap at 2^64, as in a release build; version
-- numbers and page numbers are taken to stay below 2^64. `leaf_append` and `append_inline_at`
-- subtract the place of the pointers from the length of a page; on a page whose count of cells is
-- corrupt the difference is 0 here, where it wraps in a release build, and the theorems are on
-- pages of leaves. An index behind the end of the body of a file header, which panics, is none. The
-- pager is a record: the body of each page whose tag validates, the count of pages, the file's
-- identifier and the valid meta slots; for the
-- store of a transaction it is its function that reads a page. The map of the dirty pages is a
-- function, an operation on the store gives the store after it also where it fails, and a failed
-- `debug_assert!` is passed over, as in a release build. SHA-256, which the code calls in another
-- crate, is the parameter `sha256` of all the bytes that a hasher is fed; the lossy reading of a name
-- as UTF-8 is the parameter `lossy`.
--
-- Bounds and fuel. `put_varint` runs on `v + 1` rounds, of which each divides by 128; `take_varint`
-- on 64, of which each adds 7 to the shift, and the shift ends the loop at 64. The backward walk of
-- the audit has no bound of its own in the code: it takes fuel, and none is the walk that has not
-- ended. The forward scan of recovery
-- runs once per page. The binary searches of a node run on as many rounds as it has cells, since
-- each round takes at least one cell off the range. The operations on a tree take fuel, since pages
-- may link in a circle: for the descents and for the overflow chains as much as the height of the
-- tree and the length of a chain and one more, and for the loops of a cursor a count of rounds that
-- the theorems give. None is then the fuel that ran out, and on a store also the panic of
-- `body_mut` on a page that is not dirty.
--
-- Not modelled: page sealing and compression, the pager's directory and cache, `advance_view` and
-- `for_each_prefix` of the trees, the transaction layer above the store, the rest of the catalog, SQL,
-- full-text and vector search, and the command-line tools.
-- Display texts of errors, and the data of an I/O error, are left out.
pub mod Common
pub mod Error
pub mod Format
pub mod Record
pub mod Keyenc
pub mod Commit
pub mod Catalog
pub mod Branch
pub mod Btree
pub mod Tx
pub mod Tests
