-- ===== src/Tests.antt =====
-- Concrete inputs, and the theorems of the library applied to them.
pub mod Host
pub mod Turns
pub mod Fixtures
pub mod Contracts
pub mod Wire
pub mod Runtime
pub mod Ledger
pub mod Commuting
pub mod Ceilings
pub mod Signal
pub mod Forgetting
