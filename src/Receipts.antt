-- ===== src/Receipts.antt =====
-- The local store of trade receipts and listing locks (src/receipts/store.js).
pub mod Columns
pub mod Table
pub mod Store
pub mod Patch
pub mod Rows
pub mod Keyed
pub mod Writes
pub mod Writing
pub mod Invariant
pub mod Refines
pub mod Patched
pub mod Migration
mod Tests
