-- ===== src/Runtime.antt =====
-- crates/aiai-runtime: the activation state machine, subject continuity, delegation scopes, the
-- ports, and the session that gates every step of a turn.
pub mod Activation
pub mod Continuity
pub mod Scope
pub mod Ports
pub mod Display
pub mod Action
pub mod Session
pub mod Ledger
