-- ===== src/Contracts/Error.antt =====
-- crates/aiai-contracts/src/error.rs: the closed failure taxonomy. A text is its bytes; the box
-- around the details leaves no trace.
pub mod Failures
pub mod Display
pub mod Laws
use artificial_intelligence.Base.{
  Bool, Bytes, Option, codes, false, if◌then◌else◌, is_none, none, some, true, ◌&&◌,
}
use artificial_intelligence.Contracts.Capability.{CapabilityName}
use artificial_intelligence.Contracts.Identifier.{SubjectId, ProposalId, OperationId}

pub data ErrorCode : Type 0 where
  malformed_envelope unsupported_contract_version unknown_variant missing_context : ErrorCode
  runtime_inactive inference_unavailable subject_continuity_violation : ErrorCode
  unknown_proposal duplicate_proposal_id authority_withheld authority_scope_exceeded : ErrorCode
  sequence_exhausted signal_schema_violation : ErrorCode

pub data FailureKind : Type 0 where
  unavailable withheld gated rejected exhausted : FailureKind

unfoldable pub kind : ErrorCode → FailureKind
kind missing_context = unavailable
kind inference_unavailable = unavailable
kind authority_withheld = withheld
kind authority_scope_exceeded = withheld
kind runtime_inactive = gated
kind sequence_exhausted = exhausted
kind malformed_envelope = rejected
kind unsupported_contract_version = rejected
kind unknown_variant = rejected
kind subject_continuity_violation = rejected
kind unknown_proposal = rejected
kind duplicate_proposal_id = rejected
kind signal_schema_violation = rejected

-- `matches!(self.kind(), FailureKind::Unavailable)`
abbrev is_unavailable : FailureKind → Bool
is_unavailable unavailable = true
is_unavailable _ = false

unfoldable pub is_retryable : ErrorCode → Bool
unfolding kind
is_retryable code = is_unavailable (kind code)

unfoldable pub code_str : ErrorCode → Bytes
code_str malformed_envelope = codes "malformed_envelope"
code_str unsupported_contract_version = codes "unsupported_contract_version"
code_str unknown_variant = codes "unknown_variant"
code_str missing_context = codes "missing_context"
code_str runtime_inactive = codes "runtime_inactive"
code_str inference_unavailable = codes "inference_unavailable"
code_str subject_continuity_violation = codes "subject_continuity_violation"
code_str unknown_proposal = codes "unknown_proposal"
code_str duplicate_proposal_id = codes "duplicate_proposal_id"
code_str authority_withheld = codes "authority_withheld"
code_str authority_scope_exceeded = codes "authority_scope_exceeded"
code_str sequence_exhausted = codes "sequence_exhausted"
code_str signal_schema_violation = codes "signal_schema_violation"

unfoldable pub kind_str : FailureKind → Bytes
kind_str unavailable = codes "unavailable"
kind_str withheld = codes "withheld"
kind_str gated = codes "gated"
kind_str rejected = codes "rejected"
kind_str exhausted = codes "exhausted"

pub data ContextPort : Type 0 where
  clock identifier_generation inference authority : ContextPort

unfoldable pub port_str : ContextPort → Bytes
port_str clock = codes "clock"
port_str identifier_generation = codes "identifier_generation"
port_str inference = codes "inference"
port_str authority = codes "authority"

pub data VariantKind : Type 0 where
  wake_reason proposal_kind action_archetype archetype_field : VariantKind

pub data SchemaViolation : Type 0 where
  unknown_archetype unknown_field missing_field value_out_of_domain : SchemaViolation
  excess_precision excess_cardinality non_canonical_encoding : SchemaViolation
  invalid_field_combination schema_version_mismatch : SchemaViolation

unfoldable pub violation_str : SchemaViolation → Bytes
violation_str unknown_archetype = codes "unknown_archetype"
violation_str unknown_field = codes "unknown_field"
violation_str missing_field = codes "missing_field"
violation_str value_out_of_domain = codes "value_out_of_domain"
violation_str excess_precision = codes "excess_precision"
violation_str excess_cardinality = codes "excess_cardinality"
violation_str non_canonical_encoding = codes "non_canonical_encoding"
violation_str invalid_field_combination = codes "invalid_field_combination"
violation_str schema_version_mismatch = codes "schema_version_mismatch"

pub record Details : Type 0 where
  pub required_contract_version : Option Bytes
  pub supported_contract_version : Option Bytes
  pub port : Option ContextPort
  pub variant_kind : Option VariantKind
  pub bound_subject_id : Option SubjectId
  pub attempted_subject_id : Option SubjectId
  pub proposal_id : Option ProposalId
  pub requested_capability : Option CapabilityName
  pub schema_violation : Option SchemaViolation
  pub field : Option Bytes

-- `Details::default()`
abbrev pub no_details : Details
no_details = record {
  required_contract_version = none;
  supported_contract_version = none;
  port = none;
  variant_kind = none;
  bound_subject_id = none;
  attempted_subject_id = none;
  proposal_id = none;
  requested_capability = none;
  schema_violation = none;
  field = none;
}

-- `details == Details::default()`: no member is present.
abbrev pub is_default : Details → Bool
is_default d =
    is_none d.required_contract_version
    && is_none d.supported_contract_version
    && is_none d.port
    && is_none d.variant_kind
    && is_none d.bound_subject_id
    && is_none d.attempted_subject_id
    && is_none d.proposal_id
    && is_none d.requested_capability
    && is_none d.schema_violation
    && is_none d.field

pub record FoundationError : Type 0 where
  pub code : ErrorCode
  pub operation_id : Option OperationId
  pub details : Option Details

-- `FoundationError::new`
abbrev pub new : ErrorCode → Option OperationId → Details → FoundationError
new code operation_id details = record {
  code = code;
  operation_id = operation_id;
  details = if is_default details then none else some details;
}
