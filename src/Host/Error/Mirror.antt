-- ===== src/Host/Error/Mirror.antt =====
-- The failures of error.ts beside those of crates/aiai-contracts/src/error.rs.
use mathlib.Core.Option
use artificial_intelligence.Base.{codes, refl, some, true, ◌≡◌}
use artificial_intelligence.Contracts.Error
use artificial_intelligence.Contracts.Error.{
  ErrorCode, ContextPort, VariantKind, SchemaViolation, Details, FoundationError, code_str,
  kind_str, port_str, violation_str,
}
use artificial_intelligence.Host.Text.{Units}
use artificial_intelligence.Host.Error.{
  error_codes, failure_kind, is_retryable, includes, FoundationErrorDetails, FoundationErrorValue,
}

-- The token of a variant kind: the name of the variant in snake case.
abbrev pub variant_str : VariantKind → Units
variant_str VariantKind.wake_reason = codes "wake_reason"
variant_str VariantKind.proposal_kind = codes "proposal_kind"
variant_str VariantKind.action_archetype = codes "action_archetype"
variant_str VariantKind.archetype_field = codes "archetype_field"

-- An error of the crates as the host's value: every member as its string.
abbrev pub details_str : Details → FoundationErrorDetails
details_str d = record {
  required_contract_version = d.required_contract_version;
  supported_contract_version = d.supported_contract_version;
  port = Option.map port_str d.port;
  variant_kind = Option.map variant_str d.variant_kind;
  bound_subject_id = Option.map (λ i. i.as_str) d.bound_subject_id;
  attempted_subject_id = Option.map (λ i. i.as_str) d.attempted_subject_id;
  proposal_id = Option.map (λ i. i.as_str) d.proposal_id;
  requested_capability = Option.map (λ n. n.as_str) d.requested_capability;
  schema_violation = Option.map violation_str d.schema_violation;
  field = d.field;
}

abbrev pub error_str : FoundationError → FoundationErrorValue
error_str e = record {
  code = code_str e.code;
  operation_id = Option.map (λ i. i.as_str) e.operation_id;
  details = Option.map details_str e.details;
}

-- The host knows every code of the crates, gives it the same kind of failure, and says of the same
-- codes that the operation may be attempted again.
pub failure_kind-mirrors :
    (c : ErrorCode)
    → (includes error_codes (code_str c) ≡ true)
      × (failure_kind (code_str c) ≡ some (kind_str (Error.kind c)))
      × (is_retryable (code_str c) ≡ Error.is_retryable c)
unfolding failure_kind is_retryable Error.is_retryable Error.kind kind_str code_str
failure_kind-mirrors ErrorCode.malformed_envelope = (refl, refl, refl)
failure_kind-mirrors _ = (refl, refl, refl)
