-- ===== src/Processor.antt =====
-- The package `processor`: errors, the context of a transaction, the workers and the router.
pub mod Errors
pub mod Store
pub mod Request
pub mod Context
pub mod Worker
pub mod Router
pub mod Register
pub mod Start
pub mod Shutdown
