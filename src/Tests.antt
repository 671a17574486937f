-- ===== src/Tests.antt =====
-- Runs of the definitions at concrete inputs, and the theorems at them.
pub mod Codec
pub mod Commit
pub mod Catalog
pub mod Btree
pub mod Append
pub mod Tree
pub mod Store
