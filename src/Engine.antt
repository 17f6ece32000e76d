-- ===== src/Engine.antt =====
-- pkg/engine: from the bytes of an input to the lines the parsers are given, and the account of where
-- every line went.
pub mod Line
pub mod Split
pub mod Fold
pub mod Prepare
pub mod Select
pub mod Ledger
pub mod Account
