-- ===== src/Contracts/Error/Failures.antt =====
-- The constructors of `FoundationError` in error.rs, one for each code.
use artificial_intelligence.Base.{Bytes, Option, some}
use artificial_intelligence.Contracts.Capability.{CapabilityName}
use artificial_intelligence.Contracts.Identifier.{SubjectId, ProposalId, OperationId}
use artificial_intelligence.Contracts.Error.{
  ErrorCode, ContextPort, VariantKind, SchemaViolation, FoundationError, no_details, new,
}

abbrev pub malformed_envelope : Option OperationId → FoundationError
malformed_envelope op = new ErrorCode.malformed_envelope op no_details

abbrev pub unsupported_contract_version :
    Option OperationId → Option Bytes → Bytes → FoundationError
unsupported_contract_version op required supported =
    new ErrorCode.unsupported_contract_version op (record no_details {
      required_contract_version = required;
      supported_contract_version = some supported;
    })

abbrev pub unknown_variant : Option OperationId → VariantKind → FoundationError
unknown_variant op k =
    new ErrorCode.unknown_variant op (record no_details { variant_kind = some k })

abbrev pub missing_context : Option OperationId → ContextPort → FoundationError
missing_context op p = new ErrorCode.missing_context op (record no_details { port = some p })

abbrev pub runtime_inactive : Option OperationId → FoundationError
runtime_inactive op = new ErrorCode.runtime_inactive op no_details

abbrev pub inference_unavailable : Option OperationId → FoundationError
inference_unavailable op = new ErrorCode.inference_unavailable op no_details

abbrev pub subject_continuity_violation :
    Option OperationId → SubjectId → SubjectId → FoundationError
subject_continuity_violation op bound attempted =
    new ErrorCode.subject_continuity_violation op
      (record no_details { bound_subject_id = some bound; attempted_subject_id = some attempted })

abbrev pub unknown_proposal : Option OperationId → ProposalId → FoundationError
unknown_proposal op id =
    new ErrorCode.unknown_proposal op (record no_details { proposal_id = some id })

abbrev pub duplicate_proposal_id : Option OperationId → ProposalId → FoundationError
duplicate_proposal_id op id =
    new ErrorCode.duplicate_proposal_id op (record no_details { proposal_id = some id })

abbrev pub authority_withheld : Option OperationId → ProposalId → CapabilityName → FoundationError
authority_withheld op id capability =
    new ErrorCode.authority_withheld op
      (record no_details { proposal_id = some id; requested_capability = some capability })

abbrev pub authority_scope_exceeded :
    Option OperationId → ProposalId → CapabilityName → FoundationError
authority_scope_exceeded op id capability =
    new ErrorCode.authority_scope_exceeded op
      (record no_details { proposal_id = some id; requested_capability = some capability })

abbrev pub sequence_exhausted : Option OperationId → FoundationError
sequence_exhausted op = new ErrorCode.sequence_exhausted op no_details

abbrev pub signal_schema_violation :
    Option OperationId → SchemaViolation → Option Bytes → FoundationError
signal_schema_violation op violation field =
    new ErrorCode.signal_schema_violation op
      (record no_details { schema_violation = some violation; field = field })
