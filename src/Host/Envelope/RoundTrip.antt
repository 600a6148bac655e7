-- ===== src/Host/Envelope/RoundTrip.antt =====
-- That every envelope of envelope.ts survives its wire form.
use artificial_intelligence.Base.{All, List, Result, [], codes, ok, refl, true, ◌∷◌, ◌≡◌}
use artificial_intelligence.Contracts.Identifier.{operation, proposal, session}
use artificial_intelligence.Host.Identifier.{is_identifier}
use artificial_intelligence.Host.Capability.{is_capability_name}
use artificial_intelligence.Host.Version.{format_contract_version}
use artificial_intelligence.Host.Version.Mirror.{IsSafe}
use artificial_intelligence.Host.Canonical.{
  CanonicalJsonValue, Elements, string, object, nil, element, end, entry,
}
use artificial_intelligence.Host.Envelope.{
  Thrown, PayloadDecoder, PayloadEncoder, WakeEnvelope, ProposalEnvelope, AdmissionEnvelope,
  EffectRequestEnvelope, members,
}
use artificial_intelligence.Host.Envelope.Decode.{
  decode_wake_envelope, decode_proposal_envelope, decode_admission_envelope,
  decode_effect_request_envelope, decode_each,
}
use artificial_intelligence.Host.Envelope.Encode.{
  Encoded, encode_wake_envelope, encode_proposal_envelope, encode_admission_envelope,
  encode_effect_request_envelope, encode_each,
}
use artificial_intelligence.Host.Envelope.Readers.{
  IsCounter, counter_str, format-counter, read_version-format, read_decimal-format,
  read_identifier-true, read_capability-true,
}

-- A value is encoded, and decoding what was written gives it back.
abbrev pub Survives {μ} :
    {T : Type 0} {E : Type μ} → Encoded → (CanonicalJsonValue → Result T E) → T → Type μ
Survives encoded decode value =
    (json : CanonicalJsonValue) × (encoded ≡ ok json) × (decode json ≡ ok value)

-- What the host's types say of the members of each envelope.
module _ {T : Type 0} where
  pub record IsWake (e : WakeEnvelope T) : Type 0 where
    pub version : IsSafe e.contract_version
    pub operation_id : is_identifier operation e.operation_id ≡ true
    pub session_id : is_identifier session e.session_id ≡ true
    pub observed : IsCounter e.observed_at_unix_ms

  pub record IsProposal (e : ProposalEnvelope T) : Type 0 where
    pub version : IsSafe e.contract_version
    pub operation_id : is_identifier operation e.operation_id ≡ true
    pub proposal_id : is_identifier proposal e.proposal_id ≡ true
    pub sequence : IsCounter e.sequence
    pub capability : is_capability_name e.requested_capability ≡ true

  pub record IsAdmission (e : AdmissionEnvelope T) : Type 0 where
    pub version : IsSafe e.contract_version
    pub operation_id : is_identifier operation e.operation_id ≡ true
    pub proposal_id : is_identifier proposal e.proposal_id ≡ true
    pub sequence : IsCounter e.sequence
    pub capability : is_capability_name e.granted_capability ≡ true

  pub record IsEffect (e : EffectRequestEnvelope T) : Type 0 where
    pub version : IsSafe e.contract_version
    pub operation_id : is_identifier operation e.operation_id ≡ true
    pub sequence : IsCounter e.sequence

-- A product's codec reads back what it wrote of a payload.
abbrev pub ReadsBack : {X T : Type 0} → PayloadEncoder T → PayloadDecoder X T → T → Type 0
ReadsBack encode decode payload = decode (encode payload) ≡ ok payload

module _ {X : Type 0} where
  -- A wake whose members have their types, and whose reason its product's codec reads back, is
  -- encoded, and the host decodes what it wrote to the same wake.
  pub wake-Survives :
      {R : Type 0} (e : WakeEnvelope R) (encode : PayloadEncoder R) (decode : PayloadDecoder X R)
      → IsWake e
      → ReadsBack encode decode e.reason
      → Survives (encode_wake_envelope e encode) (λ json. decode_wake_envelope json decode) e
  unfolding encode_wake_envelope decode_wake_envelope members
  wake-Survives e encode decode h payload =
      let write = format-counter e.observed_at_unix_ms h.observed in
      (
        object (
            entry (codes "contract_version") (string (format_contract_version e.contract_version)) (
              entry (codes "operation_id") (string e.operation_id) (
                entry (codes "session_id") (string e.session_id) (
                  entry (codes "observed_at_unix_ms") (string (counter_str e.observed_at_unix_ms))
                    (entry (codes "reason") (encode e.reason) end))))),
        rw write refl,
        rw
            (
              read_version-format {X = X} _ e.contract_version h.version,
              read_identifier-true {X = X} _ e.operation_id operation h.operation_id,
              read_identifier-true {X = X} _ e.session_id session h.session_id,
              read_decimal-format {X = X} _ e.observed_at_unix_ms h.observed,
              payload,
            )
            refl,
      )

  pub proposal-Survives :
      {P : Type 0} (encode : PayloadEncoder P) (decode : PayloadDecoder X P)
      (e : ProposalEnvelope P)
      → IsProposal e
      → ReadsBack encode decode e.proposal
      → Survives
          (encode_proposal_envelope e encode)
          (λ json. decode_proposal_envelope json decode)
          e
  unfolding encode_proposal_envelope decode_proposal_envelope members
  proposal-Survives encode decode e h payload = (
    object (
        entry (codes "contract_version") (string (format_contract_version e.contract_version)) (
          entry (codes "operation_id") (string e.operation_id) (
            entry (codes "proposal_id") (string e.proposal_id) (
              entry (codes "sequence") (string (counter_str e.sequence)) (
                entry (codes "requested_capability") (string e.requested_capability)
                  (entry (codes "proposal") (encode e.proposal) end)))))),
    rw (format-counter e.sequence h.sequence) refl,
    rw
        (
          read_version-format {X = X} _ e.contract_version h.version,
          read_identifier-true {X = X} _ e.operation_id operation h.operation_id,
          read_identifier-true {X = X} _ e.proposal_id proposal h.proposal_id,
          read_decimal-format {X = X} _ e.sequence h.sequence,
          read_capability-true {X = X} _ e.requested_capability h.capability,
          payload,
        )
        refl,
  )

  -- An admission whose members have their types, and whose payload its product's codec reads back,
  -- is encoded, and the host decodes what it wrote to the same admission.
  pub admission-Survives :
      {A : Type 0} (encode : PayloadEncoder A) (decode : PayloadDecoder X A)
      (e : AdmissionEnvelope A)
      → IsAdmission e
      → ReadsBack encode decode e.action
      → Survives
          (encode_admission_envelope e encode)
          (λ json. decode_admission_envelope json decode)
          e
  unfolding encode_admission_envelope decode_admission_envelope members
  admission-Survives encode decode e h payload = (
    object (
        entry (codes "contract_version") (string (format_contract_version e.contract_version)) (
          entry (codes "operation_id") (string e.operation_id) (
            entry (codes "proposal_id") (string e.proposal_id) (
              entry (codes "sequence") (string (counter_str e.sequence)) (
                entry (codes "granted_capability") (string e.granted_capability)
                  (entry (codes "action") (encode e.action) end)))))),
    rw (format-counter e.sequence h.sequence) refl,
    rw
        (
          read_version-format {X = X} _ e.contract_version h.version,
          read_identifier-true {X = X} _ e.operation_id operation h.operation_id,
          read_identifier-true {X = X} _ e.proposal_id proposal h.proposal_id,
          read_decimal-format {X = X} _ e.sequence h.sequence,
          read_capability-true {X = X} _ e.granted_capability h.capability,
          payload,
        )
        refl,
  )

  pub effect-Survives :
      {F : Type 0} (encode : PayloadEncoder F) (decode : PayloadDecoder X F)
      (e : EffectRequestEnvelope F)
      → IsEffect e
      → ReadsBack encode decode e.effect
      → Survives
          (encode_effect_request_envelope e encode)
          (λ json. decode_effect_request_envelope json decode)
          e
  unfolding encode_effect_request_envelope decode_effect_request_envelope members
  effect-Survives encode decode e h payload = (
    object (
        entry (codes "contract_version") (string (format_contract_version e.contract_version)) (
          entry (codes "operation_id") (string e.operation_id) (
            entry (codes "sequence") (string (counter_str e.sequence))
              (entry (codes "effect") (encode e.effect) end)))),
    rw (format-counter e.sequence h.sequence) refl,
    rw
        (
          read_version-format {X = X} _ e.contract_version h.version,
          read_identifier-true {X = X} _ e.operation_id operation h.operation_id,
          read_decimal-format {X = X} _ e.sequence h.sequence,
          payload,
        )
        refl,
  )

  pub each-Survives :
      {T : Type 0} (encode : T → Encoded) (decode : CanonicalJsonValue → Result T (Thrown X))
      (items : List T)
      → All (λ item. Survives (encode item) decode item) items
      → (es : Elements) × (encode_each encode items ≡ ok es) × (decode_each decode es ≡ ok items)
  unfolding encode_each decode_each
  each-Survives encode decode [] h = (nil, refl, refl)
  each-Survives encode decode (item ∷ items) ((json, written, read), h) =
      let (es, all_written, all_read) = each-Survives encode decode items h in
      (element json es, rw written (rw all_written refl), rw read (rw all_read refl))
