-- ===== src/Tests.antt =====
-- Runs of the models on concrete inputs, and the theorems at concrete inputs.
pub mod Memory
pub mod Wire
mod Validator
pub mod XoTests
pub mod SmallbankTests
mod ProcessorTests
mod DevmodeTests
mod ConsensusTests
mod SigningTests
pub mod ClientTests
pub mod IntkeyCodec
pub mod IntkeyTests
mod ShowTests
mod RefusedTests
mod ServedTests
