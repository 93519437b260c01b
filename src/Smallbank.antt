-- ===== src/Smallbank.antt =====
-- The smallbank transaction family (examples/smallbank/smallbank_go).
pub mod Balance
pub mod Accounts
pub mod Handler
