-- ===== src/Swap/Tests.antt =====
-- A concrete swap, run through the state machine, and the theorems at it.
mod Sample
mod Runs
mod Theorems
mod Payments
mod Chains
mod Bodies
mod Ids
