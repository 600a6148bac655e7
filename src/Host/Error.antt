-- ===== src/Host/Error.antt =====
-- packages/aiai-contracts/src/error.ts: the failures. A code, a port, a kind or a violation is the
-- string of its vocabulary.
pub mod Decode
pub mod Laws
pub mod Details
pub mod Closed
pub mod Mirror
use artificial_intelligence.Base.{
  Bool, List, Option, [], codes, false, if◌then◌else◌, none, some, ◌==◌, ◌||◌, ◌∷◌, bytes_ord,
}
use artificial_intelligence.Contracts.Identifier.{IdentifierKind, subject, proposal, operation}
use artificial_intelligence.Host.Text.{Units}
use artificial_intelligence.Host.Identifier.{is_identifier}
use artificial_intelligence.Host.Capability.{is_capability_name}
use artificial_intelligence.Host.Canonical.{
  CanonicalJsonValue, Elements, Entries, null, boolean, string, array, object, nil, element, end,
  entry,
}

-- `ERROR_CODES`; `ErrorCode` is one of these strings.
abbrev pub error_codes : List Units
error_codes =
    codes "malformed_envelope"
    ∷ codes "unsupported_contract_version"
    ∷ codes "unknown_variant"
    ∷ codes "missing_context"
    ∷ codes "runtime_inactive"
    ∷ codes "inference_unavailable"
    ∷ codes "subject_continuity_violation"
    ∷ codes "unknown_proposal"
    ∷ codes "duplicate_proposal_id"
    ∷ codes "authority_withheld"
    ∷ codes "authority_scope_exceeded"
    ∷ codes "sequence_exhausted"
    ∷ codes "signal_schema_violation"
    ∷ []

abbrev pub ErrorCode : Type 0
ErrorCode = Units

-- `CONTEXT_PORTS`
abbrev pub context_ports : List Units
context_ports =
    codes "clock" ∷ codes "identifier_generation" ∷ codes "inference" ∷ codes "authority" ∷ []

-- `VARIANT_KINDS`
abbrev pub variant_kinds : List Units
variant_kinds =
    codes "wake_reason"
    ∷ codes "proposal_kind"
    ∷ codes "action_archetype"
    ∷ codes "archetype_field"
    ∷ []

-- `SCHEMA_VIOLATIONS`
abbrev pub schema_violations : List Units
schema_violations =
    codes "unknown_archetype"
    ∷ codes "unknown_field"
    ∷ codes "missing_field"
    ∷ codes "value_out_of_domain"
    ∷ codes "excess_precision"
    ∷ codes "excess_cardinality"
    ∷ codes "non_canonical_encoding"
    ∷ codes "invalid_field_combination"
    ∷ codes "schema_version_mismatch"
    ∷ []

abbrev pub FailureKind : Type 0
FailureKind = Units

-- `FAILURE_KIND_BY_CODE`
abbrev pub failure_kind_by_code : List (ErrorCode × FailureKind)
failure_kind_by_code =
    (codes "missing_context", codes "unavailable")
    ∷ (codes "inference_unavailable", codes "unavailable")
    ∷ (codes "authority_withheld", codes "withheld")
    ∷ (codes "authority_scope_exceeded", codes "withheld")
    ∷ (codes "runtime_inactive", codes "gated")
    ∷ (codes "sequence_exhausted", codes "exhausted")
    ∷ (codes "malformed_envelope", codes "rejected")
    ∷ (codes "unsupported_contract_version", codes "rejected")
    ∷ (codes "unknown_variant", codes "rejected")
    ∷ (codes "subject_continuity_violation", codes "rejected")
    ∷ (codes "unknown_proposal", codes "rejected")
    ∷ (codes "duplicate_proposal_id", codes "rejected")
    ∷ (codes "signal_schema_violation", codes "rejected")
    ∷ []

-- `table[key]`; the value of a missing key is `undefined`.
abbrev pub index_of {ℓ} : {V : Type ℓ} → List (Units × V) → Units → Option V
index_of [] key = none
index_of ((name, value) ∷ table) key = if name == key then some value else index_of table key

-- `failureKind`
unfoldable pub failure_kind : ErrorCode → Option FailureKind
failure_kind code = index_of failure_kind_by_code code

-- `isRetryable`
unfoldable pub is_retryable : ErrorCode → Bool
unfolding failure_kind
is_retryable code = elim (failure_kind code) [
  | none ↦ false
  | some kind ↦ kind == codes "unavailable"
]

pub record FoundationErrorDetails : Type 0 where
  pub required_contract_version : Option Units
  pub supported_contract_version : Option Units
  pub port : Option Units
  pub variant_kind : Option Units
  pub bound_subject_id : Option Units
  pub attempted_subject_id : Option Units
  pub proposal_id : Option Units
  pub requested_capability : Option Units
  pub schema_violation : Option Units
  pub field : Option Units

-- `{}`
abbrev pub no_details : FoundationErrorDetails
no_details = record {
  required_contract_version = none;
  supported_contract_version = none;
  port = none;
  variant_kind = none;
  bound_subject_id = none;
  attempted_subject_id = none;
  proposal_id = none;
  requested_capability = none;
  schema_violation = none;
  field = none;
}

pub record FoundationErrorValue : Type 0 where
  pub code : ErrorCode
  pub operation_id : Option Units
  pub details : Option FoundationErrorDetails

-- `malformedEnvelope`
abbrev pub malformed_envelope : Option Units → FoundationErrorValue
malformed_envelope operation_id = record {
  code = codes "malformed_envelope";
  operation_id = operation_id;
  details = none;
}

-- `vocabulary.includes(value)`
abbrev pub includes : List Units → Units → Bool
includes [] value = false
includes (word ∷ vocabulary) value = word == value || includes vocabulary value

-- `oneOf`
unfoldable pub one_of : List Units → CanonicalJsonValue → Option Units
one_of vocabulary (string value) = if includes vocabulary value then some value else none
one_of vocabulary _ = none

-- `value[member]` of an object.
abbrev pub get : Entries → Units → Option CanonicalJsonValue
get end name = none
get (entry member value entries) name =
    let rest = get entries name in if member == name then some value else rest

-- A member that must be an identifier of a kind, as a string.
abbrev pub identifier_of : IdentifierKind → CanonicalJsonValue → Option Units
identifier_of kind (string value) = if is_identifier kind value then some value else none
identifier_of kind _ = none

-- `correlationOf`
unfoldable pub correlation_of : CanonicalJsonValue → Option Units
correlation_of (object entries) = elim (get entries (codes "operation_id")) [
  | none ↦ none
  | some candidate ↦ identifier_of operation candidate
]
correlation_of _ = none
