-- ===== src/Consensus.antt =====
-- The package `consensus`: what an engine exchanges with the validator.
pub mod MessageTypes
pub mod Types
pub mod Interface
pub mod Rpc
pub mod Service
pub mod Engine
pub mod Startup
pub mod Shutdown
pub mod Start
