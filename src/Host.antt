-- ===== src/Host.antt =====
-- packages/aiai-contracts/src: the TypeScript package with which a host reads and writes the values
-- of the contract. A string is the list of its UTF-16 code units, a thrown exception an error.
pub mod Text
pub mod Violation
pub mod Scalar
pub mod Capability
pub mod Identifier
pub mod Activation
pub mod Canonical
pub mod Error
pub mod Version
pub mod Envelope
