-- ===== src/Js.antt =====
-- The JavaScript values and conversions that the program uses.
pub mod Text
pub mod Value
pub mod Convert
pub mod Parse
pub mod Stringify
pub mod Reply
