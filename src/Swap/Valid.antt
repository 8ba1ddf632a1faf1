-- ===== src/Swap/Valid.antt =====
-- What holds of the messages that the schema lets through.
pub mod Refuses
pub mod Terms
pub mod Signatures
pub mod Canonical
