-- ===== src/Intkey.antt =====
-- examples/intkey_go: the intkey transaction family.
pub mod Value
pub mod Handler
pub mod Yaml
pub mod Client
