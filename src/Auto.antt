-- ===== src/Auto.antt =====
-- The trade automation (src/prompt/tradeAuto.js).
pub mod Events
pub mod Intake
pub mod Precheck
pub mod Stages
pub mod Attempts
pub mod Offers
pub mod Matching
pub mod Answers
mod Tests
