-- ===== src/Solana.antt =====
-- The Solana side of a swap.
pub mod Bytes
pub mod Keys
pub mod Accounts
pub mod OnChain
pub mod Checked
pub mod Funded
pub mod Layout
pub mod Written
pub mod Escrows
pub mod Instructions
pub mod ConfigInstructions
pub mod Payload
pub mod Pool
pub mod Endpoints
pub mod Guardrail
pub mod TopUp
mod Tests
