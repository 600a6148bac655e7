-- ===== src/Contracts.antt =====
-- crates/aiai-contracts: canonical scalars, versions, names and identifiers, the closed failure
-- taxonomy, the generic envelopes and canonical JSON; the handshake of lib.rs is in `Handshake`, and
-- what crosses the wire as a text in `Wire`.
pub mod Decimal
pub mod Scalar
pub mod Version
pub mod Names
pub mod Capability
pub mod Identifier
pub mod Error
pub mod Envelope
pub mod Handshake
pub mod Canonical
pub mod Wire
