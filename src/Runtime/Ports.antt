-- ===== src/Runtime/Ports.antt =====
-- crates/aiai-runtime/src/ports.rs: the boundaries that the kernel reads explicitly. A product
-- implements the traits, so each is an interface; a method on `&mut self` returns the new state.
-- `Clock` and `Authority` have methods on `&self`, and an implementation may keep state inside it all
-- the same, in a `RefCell`. A value of `C` or `A` is what the implementation is at the moment of the
-- call, that state included; each call of a history brings a value of its own.
use artificial_intelligence.Base.{List, Result}
use artificial_intelligence.Contracts.Scalar.{DecimalU64}
use artificial_intelligence.Contracts.Capability.{CapabilityName}
use artificial_intelligence.Contracts.Identifier.{ProposalId}
use artificial_intelligence.Contracts.Error.{ContextPort}
use artificial_intelligence.Contracts.Envelope.{ProposalEnvelope}

pub data PortKind : Type 0 where
  clock identifier_generation inference authority : PortKind

unfoldable pub context_port : PortKind → ContextPort
context_port clock = ContextPort.clock
context_port identifier_generation = ContextPort.identifier_generation
context_port inference = ContextPort.inference
context_port authority = ContextPort.authority

pub record PortError : Type 0 where
  pub port : PortKind

pub record Clock (C : Type 0) : Type 0 where
  pub now_unix_ms : C → Result DecimalU64 PortError

pub record IdentifierGeneration (G : Type 0) : Type 0 where
  pub next_proposal_id : G → Result ProposalId PortError × G

pub record Candidate (P : Type 0) : Type 0 where
  pub requested_capability : CapabilityName
  pub proposal : P

-- `Inference`, with its associated types as parameters.
pub record Inference (I Q P : Type 0) : Type 0 where
  pub propose : I → Q → Result (List (Candidate P)) PortError × I

pub data AuthorityDecision : Type 0 where
  admit : CapabilityName → AuthorityDecision
  withhold : AuthorityDecision

pub record Authority (A P : Type 0) : Type 0 where
  pub decide : A → ProposalEnvelope P → Result AuthorityDecision PortError
