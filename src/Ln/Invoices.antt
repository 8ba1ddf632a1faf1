-- ===== src/Ln/Invoices.antt =====
-- What decoding an invoice gives.
pub mod Tagged
pub mod Amounts
mod Tests
