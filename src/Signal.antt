-- ===== src/Signal.antt =====
-- The signal crate, crates/aiai-signal/src: which behaviour signals a schema admits, how a client
-- makes one from an observation, and how a receiver checks what arrives.
pub mod Token
pub mod Wire
pub mod Domain
pub mod Schema
pub mod Transform
pub mod Display
pub mod Validate
