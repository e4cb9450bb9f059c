-- ===== src/Routing.antt =====
-- node/src/bitmask and node/src/types/threads_table.rs: which thread processes which account.
pub mod Bitmask
pub mod Table
pub mod Address
mod Examples
pub mod Merge
