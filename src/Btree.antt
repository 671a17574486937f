-- ===== src/Btree.antt =====
-- btree/: the tree of the data, and the pages of its nodes.
pub mod Node
pub mod Loop
pub mod Read
pub mod Cursor
pub mod Write
pub mod Insert
pub mod Delete
pub mod Durable
pub mod Scan
pub mod Diff
