-- ===== src/Host/Error/Laws.antt =====
-- Which failures there are, and that a failure survives its wire form.
use artificial_intelligence.Base.{Bool, Option, arith, codes, none, ok, refl, some, true, ◌∙◌, ◌≡◌}
use artificial_intelligence.Contracts.Identifier.{subject, proposal, operation}
use artificial_intelligence.Host.Text.{Units}
use artificial_intelligence.Host.Identifier.{is_identifier}
use artificial_intelligence.Host.Capability.{is_capability_name}
use artificial_intelligence.Host.Canonical.{Entries, string, end}
use artificial_intelligence.Host.Error.{
  error_codes, context_ports, variant_kinds, schema_violations, FoundationErrorDetails, no_details,
  FoundationErrorValue, includes,
}
use artificial_intelligence.Host.Error.Decode.{
  detail_members, take_detail, details_loop, decode_details, Decoded, nothing_decoded, take_member,
  members_loop, decode_foundation_error, optional, encode_members, encode_details,
  encode_foundation_error,
}

-- Where the value is present, it passes the test.
abbrev pub Passes : (Units → Bool) → Option Units → Type 0
Passes test none = Unit
Passes test (some value) = test value ≡ true

-- The types of the members of `FoundationErrorDetails`.
pub record IsDetails (d : FoundationErrorDetails) : Type 0 where
  pub port : Passes (includes context_ports) d.port
  pub variant_kind : Passes (includes variant_kinds) d.variant_kind
  pub bound_subject_id : Passes (is_identifier subject) d.bound_subject_id
  pub attempted_subject_id : Passes (is_identifier subject) d.attempted_subject_id
  pub proposal_id : Passes (is_identifier proposal) d.proposal_id
  pub requested_capability : Passes is_capability_name d.requested_capability
  pub schema_violation : Passes (includes schema_violations) d.schema_violation

abbrev pub PassesDetails : Option FoundationErrorDetails → Type 0
PassesDetails none = Unit
PassesDetails (some d) = IsDetails d

-- The types of the members of `FoundationErrorValue`.
pub record IsFailure (e : FoundationErrorValue) : Type 0 where
  pub code : includes error_codes e.code ≡ true
  pub operation_id : Passes (is_identifier operation) e.operation_id
  pub details : PassesDetails e.details

-- A member that may be absent is read back into its place.
details_loop-optional :
    (member : Units) (test : Units → Bool) (o : Option Units) (rest : Entries)
    (put : Option Units → FoundationErrorDetails)
    → ((u : Units) → test u ≡ true → take_detail member (string u) (put none) ≡ some (put (some u)))
    → Passes test o
    → details_loop (optional member o rest) (put none) ≡ details_loop rest (put o)
unfolding details_loop
details_loop-optional member test none rest put reads h = refl
details_loop-optional member test (some u) rest put reads h = rw (reads u h, details_loop)

abbrev pub any_text : Units → Bool
any_text u = true

pub any-Passes : (o : Option Units) → Passes any_text o
any-Passes none = tt
any-Passes (some u) = refl

details_loop-end : (d : FoundationErrorDetails) → details_loop end d ≡ some d
unfolding details_loop
details_loop-end d = refl

-- The members are read back one after the other, each into the record that the earlier ones made.
decode-encode_details :
    (d : FoundationErrorDetails)
    → IsDetails d
    → details_loop (encode_members detail_members d) no_details ≡ some d
unfolding encode_members take_detail
decode-encode_details d h =
    let a1 = record no_details { required_contract_version = d.required_contract_version } in
    let a2 = record a1 { supported_contract_version = d.supported_contract_version } in
    let a3 = record a2 { port = d.port } in
    let a4 = record a3 { variant_kind = d.variant_kind } in
    let a5 = record a4 { bound_subject_id = d.bound_subject_id } in
    let a6 = record a5 { attempted_subject_id = d.attempted_subject_id } in
    let a7 = record a6 { proposal_id = d.proposal_id } in
    let a8 = record a7 { requested_capability = d.requested_capability } in
    let a9 = record a8 { schema_violation = d.schema_violation } in
    details_loop-optional (codes "required_contract_version") any_text d.required_contract_version _
      (λ o. record no_details { required_contract_version = o }) (λ u k. refl)
      (any-Passes d.required_contract_version)
    ∙ details_loop-optional (codes "supported_contract_version") any_text
        d.supported_contract_version _ (λ o. record a1 { supported_contract_version = o })
        (λ u k. refl) (any-Passes d.supported_contract_version)
    ∙ details_loop-optional (codes "port") (includes context_ports) d.port _
        (λ o. record a2 { port = o }) (λ u k. rw k refl) h.port
    ∙ details_loop-optional (codes "variant_kind") (includes variant_kinds) d.variant_kind _
        (λ o. record a3 { variant_kind = o }) (λ u k. rw k refl) h.variant_kind
    ∙ details_loop-optional (codes "bound_subject_id") (is_identifier subject) d.bound_subject_id _
        (λ o. record a4 { bound_subject_id = o }) (λ u k. rw k refl) h.bound_subject_id
    ∙ details_loop-optional (codes "attempted_subject_id") (is_identifier subject)
        d.attempted_subject_id _ (λ o. record a5 { attempted_subject_id = o }) (λ u k. rw k refl)
        h.attempted_subject_id
    ∙ details_loop-optional (codes "proposal_id") (is_identifier proposal) d.proposal_id _
        (λ o. record a6 { proposal_id = o }) (λ u k. rw k refl) h.proposal_id
    ∙ details_loop-optional (codes "requested_capability") is_capability_name d.requested_capability
        _ (λ o. record a7 { requested_capability = o }) (λ u k. rw k refl) h.requested_capability
    ∙ details_loop-optional (codes "schema_violation") (includes schema_violations)
        d.schema_violation _ (λ o. record a8 { schema_violation = o }) (λ u k. rw k refl)
        h.schema_violation
    ∙ details_loop-optional (codes "field") any_text d.field _ (λ o. record a9 { field = o })
        (λ u k. refl) (any-Passes d.field)
    ∙ details_loop-end d

members_loop-details :
    (o : Option FoundationErrorDetails) (acc : Decoded)
    → acc.details ≡ none
    → PassesDetails o
    → members_loop (encode_details o) acc ≡ some (record acc { details = o })
unfolding members_loop take_member decode_details
members_loop-details none acc e h = ground arith
members_loop-details (some d) acc e h = ground (arith, decode-encode_details d h)

members_loop-operation_id :
    (o : Option Units) (rest : Entries) (acc : Decoded)
    → acc.operation_id ≡ none
    → Passes (is_identifier operation) o
    → members_loop (optional (codes "operation_id") o rest) acc
      ≡ members_loop rest (record acc { operation_id = o })
unfolding members_loop take_member
members_loop-operation_id none rest acc e h = ground arith
members_loop-operation_id (some u) rest acc e h = ground arith

-- A failure whose members have their types is read back from its wire form, whichever of its members
-- are absent.
pub decode-encode_foundation_error :
    (e : FoundationErrorValue)
    → IsFailure e
    → decode_foundation_error (encode_foundation_error e) ≡ ok e
unfolding decode_foundation_error encode_foundation_error members_loop take_member
decode-encode_foundation_error e h =
    let c = record nothing_decoded { code = some e.code } in
    let o = record c { operation_id = e.operation_id } in
    ground (
      arith,
      h.code,
      members_loop-operation_id e.operation_id (encode_details e.details) c refl h.operation_id,
      members_loop-details e.details o refl h.details,
    )
