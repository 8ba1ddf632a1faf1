-- ===== src/Ln.antt =====
-- Lightning invoices and peers.
pub mod Bolt11
pub mod Invoices
pub mod Peers
