-- ===== src/Swap.antt =====
-- The swap protocol: message schema, trade state machine, signatures and payer-side checks.
pub mod Constants
pub mod Schema
pub mod Envelope
pub mod Listings
pub mod Machine
pub mod Prepay
pub mod Payer
pub mod Valid
pub mod Trades
mod Tests
