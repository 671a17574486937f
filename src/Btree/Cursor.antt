-- ===== src/Btree/Cursor.antt =====
-- btree/mod.rs: the cursor of appends to the last leaf of a tree.
use arkeion.Common.{ℕ, List}

pub record AppendCursor : Type 0 where
  pub root : ℕ
  pub leaf : ℕ
  pub end : ℕ
  pub last_key : List ℕ
