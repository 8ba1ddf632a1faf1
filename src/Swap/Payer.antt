-- ===== src/Swap/Payer.antt =====
-- What the payer's checks of src/swap/verify.js show.
pub mod Sound
pub mod Covers
pub mod Secured
