-- ===== src/Host/Envelope/Encode.antt =====
-- The encoders of packages/aiai-contracts/src/envelope.ts. An error is what `formatDecimalU64`
-- throws.
use artificial_intelligence.Base.{List, Result, [], codes, ok, ◌∷◌, ◌>>=◌}
use artificial_intelligence.Host.Violation.{ContractViolation}
use artificial_intelligence.Host.Scalar.{format_decimal_u64}
use artificial_intelligence.Host.Version.{format_contract_version}
use artificial_intelligence.Host.Canonical.{
  CanonicalJsonValue, Elements, string, array, object, nil, element, end, entry,
}
use artificial_intelligence.Host.Error.Decode.{encode_foundation_error, optional}
use artificial_intelligence.Host.Envelope.{
  PayloadEncoder, WakeEnvelope, ProposalEnvelope, AdmissionEnvelope, EffectRequestEnvelope, TurnOk,
  TurnOutcome, turn_ok, turn_error, FailureRecord,
}

abbrev pub Encoded : Type 0
Encoded = Result CanonicalJsonValue ContractViolation

-- `encodeWakeEnvelope`
unfoldable pub encode_wake_envelope : {R : Type 0} → WakeEnvelope R → PayloadEncoder R → Encoded
encode_wake_envelope envelope encode_reason = do
  observed ← format_decimal_u64 envelope.observed_at_unix_ms
  ok (
      object (
        entry (codes "contract_version")
          (string (format_contract_version envelope.contract_version))
          (entry (codes "operation_id") (string envelope.operation_id) (
            entry (codes "session_id") (string envelope.session_id) (
              entry (codes "observed_at_unix_ms") (string observed)
                (entry (codes "reason") (encode_reason envelope.reason) end))))))

-- `encodeProposalEnvelope`
unfoldable pub encode_proposal_envelope :
    {P : Type 0} → ProposalEnvelope P → PayloadEncoder P → Encoded
encode_proposal_envelope envelope encode_proposal = do
  sequence ← format_decimal_u64 envelope.sequence
  ok (
      object (
        entry (codes "contract_version")
          (string (format_contract_version envelope.contract_version))
          (entry (codes "operation_id") (string envelope.operation_id) (
            entry (codes "proposal_id") (string envelope.proposal_id) (
              entry (codes "sequence") (string sequence) (
                entry (codes "requested_capability") (string envelope.requested_capability)
                  (entry (codes "proposal") (encode_proposal envelope.proposal) end)))))))

-- `encodeAdmissionEnvelope`
unfoldable pub encode_admission_envelope :
    {A : Type 0} → AdmissionEnvelope A → PayloadEncoder A → Encoded
encode_admission_envelope envelope encode_action = do
  sequence ← format_decimal_u64 envelope.sequence
  ok (
      object (
        entry (codes "contract_version")
          (string (format_contract_version envelope.contract_version))
          (entry (codes "operation_id") (string envelope.operation_id) (
            entry (codes "proposal_id") (string envelope.proposal_id) (
              entry (codes "sequence") (string sequence) (
                entry (codes "granted_capability") (string envelope.granted_capability)
                  (entry (codes "action") (encode_action envelope.action) end)))))))

-- `encodeEffectRequestEnvelope`
unfoldable pub encode_effect_request_envelope :
    {F : Type 0} → EffectRequestEnvelope F → PayloadEncoder F → Encoded
encode_effect_request_envelope envelope encode_effect = do
  sequence ← format_decimal_u64 envelope.sequence
  ok (
      object (
        entry (codes "contract_version")
          (string (format_contract_version envelope.contract_version))
          (entry (codes "operation_id") (string envelope.operation_id) (
            entry (codes "sequence") (string sequence)
              (entry (codes "effect") (encode_effect envelope.effect) end)))))

-- `items.map(encode)`
unfoldable pub encode_each :
    {T : Type 0} → (T → Encoded) → List T → Result Elements ContractViolation
encode_each encode [] = ok nil
encode_each encode (item ∷ items) = do
  first ← encode item
  rest ← encode_each encode items
  ok (element first rest)

-- The member `ok` of `encodeTurnOutcome`.
unfoldable pub encode_turn_ok :
    {P F : Type 0} → TurnOk P F → PayloadEncoder P → PayloadEncoder F → Encoded
encode_turn_ok turn encode_proposal encode_effect = do
  revision ← format_decimal_u64 turn.session_revision
  proposals ← encode_each (λ item. encode_proposal_envelope item encode_proposal) turn.proposals
  requests ←
      encode_each (λ item. encode_effect_request_envelope item encode_effect) turn.effect_requests
  ok (
      object (
        entry (codes "contract_version") (string (format_contract_version turn.contract_version)) (
          entry (codes "operation_id") (string turn.operation_id) (
            entry (codes "session_revision") (string revision) (
              entry (codes "proposals") (array proposals)
                (entry (codes "effect_requests") (array requests) end))))))

-- `encodeTurnOutcome`
unfoldable pub encode_turn_outcome :
    {P F : Type 0} → TurnOutcome P F → PayloadEncoder P → PayloadEncoder F → Encoded
encode_turn_outcome (turn_error error) encode_proposal encode_effect =
    ok (object (entry (codes "error") (encode_foundation_error error) end))
encode_turn_outcome (turn_ok turn) encode_proposal encode_effect = do
  encoded ← encode_turn_ok turn encode_proposal encode_effect
  ok (object (entry (codes "ok") encoded end))

-- `encodeFailureRecord`
unfoldable pub encode_failure_record : FailureRecord → Encoded
encode_failure_record failure = do
  recorded_at ← format_decimal_u64 failure.recorded_at_unix_ms
  ok (
      object (
        entry (codes "contract_version") (string (format_contract_version failure.contract_version))
          (entry (codes "recorded_at_unix_ms") (string recorded_at) (
            entry (codes "error") (encode_foundation_error failure.error)
              (optional (codes "session_id") failure.session_id end)))))
