-- ===== src/Host/Error/Decode.antt =====
-- `decodeFoundationError` and `encodeFoundationError` of packages/aiai-contracts/src/error.ts. A
-- loop over `Object.entries` is a recursion on the members; `none` is a refusal.
use artificial_intelligence.Base.{
  List, Option, Result, [], codes, err, if◌then◌else◌, none, not, ok_or, some, ◌==◌, ◌∷◌, bytes_ord,
}
use artificial_intelligence.Contracts.Identifier.{subject, proposal, operation}
use artificial_intelligence.Host.Text.{Units}
use artificial_intelligence.Host.Capability.{is_capability_name}
use artificial_intelligence.Host.Canonical.{CanonicalJsonValue, Entries, string, object, end, entry}
use artificial_intelligence.Host.Error.{
  error_codes, context_ports, variant_kinds, schema_violations, FoundationErrorDetails, no_details,
  FoundationErrorValue, malformed_envelope, includes, one_of, identifier_of, correlation_of,
}

-- `DETAIL_MEMBERS`
abbrev pub detail_members : List Units
detail_members =
    codes "required_contract_version"
    ∷ codes "supported_contract_version"
    ∷ codes "port"
    ∷ codes "variant_kind"
    ∷ codes "bound_subject_id"
    ∷ codes "attempted_subject_id"
    ∷ codes "proposal_id"
    ∷ codes "requested_capability"
    ∷ codes "schema_violation"
    ∷ codes "field"
    ∷ []

-- A member that must be a string, and one that must be a capability name.
abbrev pub string_of : CanonicalJsonValue → Option Units
string_of (string value) = some value
string_of _ = none

abbrev pub capability_of : CanonicalJsonValue → Option Units
capability_of (string value) = if is_capability_name value then some value else none
capability_of _ = none

-- What follows a member that was read: `undefined` refuses.
infixl 5 ◌>>?◌
abbrev pub ◌>>?◌ {ℓ κ} : {A : Type ℓ} {B : Type κ} → Option A → (A → B) → Option B
none >>? f = none
some a >>? f = some (f a)

-- The `switch` of `decodeDetails`, with the assignment of each case.
unfoldable pub set_detail :
    Units → CanonicalJsonValue → FoundationErrorDetails → Option FoundationErrorDetails
unfolding one_of
set_detail member nested details =
    if member == codes "required_contract_version"
    then string_of nested >>? (λ u. record details { required_contract_version = some u })
    else if member == codes "supported_contract_version"
    then string_of nested >>? (λ u. record details { supported_contract_version = some u })
    else if member == codes "field"
    then string_of nested >>? (λ u. record details { field = some u })
    else if member == codes "port"
    then one_of context_ports nested >>? (λ u. record details { port = some u })
    else if member == codes "variant_kind"
    then one_of variant_kinds nested >>? (λ u. record details { variant_kind = some u })
    else if member == codes "schema_violation"
    then one_of schema_violations nested >>? (λ u. record details { schema_violation = some u })
    else if member == codes "bound_subject_id"
    then identifier_of subject nested >>? (λ u. record details { bound_subject_id = some u })
    else if member == codes "attempted_subject_id"
    then identifier_of subject nested >>? (λ u. record details { attempted_subject_id = some u })
    else if member == codes "proposal_id"
    then identifier_of proposal nested >>? (λ u. record details { proposal_id = some u })
    else capability_of nested >>? (λ u. record details { requested_capability = some u })

-- One round of the loop of `decodeDetails`.
unfoldable pub take_detail :
    Units → CanonicalJsonValue → FoundationErrorDetails → Option FoundationErrorDetails
unfolding set_detail
take_detail member nested details =
    if not (includes detail_members member) then none else set_detail member nested details

-- The loop of `decodeDetails`.
unfoldable pub details_loop : Entries → FoundationErrorDetails → Option FoundationErrorDetails
details_loop end details = some details
details_loop (entry member nested entries) details = elim (take_detail member nested details) [
  | none ↦ none
  | some details' ↦ details_loop entries details'
]

-- `decodeDetails`
unfoldable pub decode_details : CanonicalJsonValue → Option FoundationErrorDetails
unfolding details_loop take_detail
decode_details (object entries) = details_loop entries no_details
decode_details _ = none

-- The variables of `decodeFoundationError`.
pub record Decoded : Type 0 where
  pub code : Option Units
  pub operation_id : Option Units
  pub details : Option FoundationErrorDetails

abbrev pub nothing_decoded : Decoded
nothing_decoded = record { code = none; operation_id = none; details = none }

-- The `switch` of `decodeFoundationError`.
unfoldable pub take_member : Units → CanonicalJsonValue → Decoded → Option Decoded
unfolding one_of decode_details
take_member member nested decoded =
    if member == codes "code"
    then one_of error_codes nested >>? (λ u. record decoded { code = some u })
    else if member == codes "operation_id"
    then identifier_of operation nested >>? (λ u. record decoded { operation_id = some u })
    else if member == codes "details"
    then decode_details nested >>? (λ d. record decoded { details = some d })
    else none

-- The loop of `decodeFoundationError`.
unfoldable pub members_loop : Entries → Decoded → Option Decoded
members_loop end decoded = some decoded
members_loop (entry member nested entries) decoded = elim (take_member member nested decoded) [
  | none ↦ none
  | some decoded' ↦ members_loop entries decoded'
]

-- The variables after the loop, as the value that is returned.
abbrev pub complete : Decoded → Option FoundationErrorValue
complete decoded = decoded.code >>? (λ code. record {
  code = code;
  operation_id = decoded.operation_id;
  details = decoded.details;
})

abbrev pub decoded_entries : CanonicalJsonValue → Option Decoded
decoded_entries (object entries) = members_loop entries nothing_decoded
decoded_entries _ = none

-- The end of `decodeFoundationError`, behind the loop.
abbrev pub conclude :
    CanonicalJsonValue → Option Decoded → Result FoundationErrorValue FoundationErrorValue
conclude value none = err (malformed_envelope (correlation_of value))
conclude value (some decoded) = ok_or (complete decoded) (malformed_envelope (correlation_of value))

-- `decodeFoundationError`; the error is the failure that it throws.
unfoldable pub decode_foundation_error :
    CanonicalJsonValue → Result FoundationErrorValue FoundationErrorValue
unfolding members_loop take_member correlation_of
decode_foundation_error value = conclude value (decoded_entries value)

-- `error.details[member]`
abbrev pub get_detail : Units → FoundationErrorDetails → Option Units
get_detail member details =
    if member == codes "required_contract_version"
    then details.required_contract_version
    else if member == codes "supported_contract_version"
    then details.supported_contract_version
    else if member == codes "port"
    then details.port
    else if member == codes "variant_kind"
    then details.variant_kind
    else if member == codes "bound_subject_id"
    then details.bound_subject_id
    else if member == codes "attempted_subject_id"
    then details.attempted_subject_id
    else if member == codes "proposal_id"
    then details.proposal_id
    else if member == codes "requested_capability"
    then details.requested_capability
    else if member == codes "schema_violation"
    then details.schema_violation
    else if member == codes "field"
    then details.field
    else none

-- A member that is present, in front of the others.
abbrev pub optional : Units → Option Units → Entries → Entries
optional member none entries = entries
optional member (some value) entries = entry member (string value) entries

-- The loop of `encodeFoundationError` over `DETAIL_MEMBERS`.
unfoldable pub encode_members : List Units → FoundationErrorDetails → Entries
encode_members [] details = end
encode_members (member ∷ members) details =
    optional member (get_detail member details) (encode_members members details)

abbrev pub encode_details : Option FoundationErrorDetails → Entries
encode_details none = end
encode_details (some details) =
    entry (codes "details") (object (encode_members detail_members details)) end

-- `encodeFoundationError`
unfoldable pub encode_foundation_error : FoundationErrorValue → CanonicalJsonValue
unfolding encode_members
encode_foundation_error error = object (
    entry (codes "code") (string error.code)
      (optional (codes "operation_id") error.operation_id (encode_details error.details)))
