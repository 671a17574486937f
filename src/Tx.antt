-- ===== src/Tx.antt =====
-- tx.rs: the pages of a write transaction.
pub mod Store
