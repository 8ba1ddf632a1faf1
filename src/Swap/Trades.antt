-- ===== src/Swap/Trades.antt =====
-- What holds of the trade state machine.
pub mod Accepts
pub mod Invariant
pub mod Apply
pub mod Preserved
pub mod Agreement
pub mod Graph
pub mod History
pub mod Authority
pub mod Replay
pub mod Returns
pub mod Total
