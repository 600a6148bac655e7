-- ===== src/Host/Envelope/Turns.antt =====
-- That a turn's report and a failure's record survive their wire form, and which payloads are a
-- turn's outcome.
use artificial_intelligence.Base.{All, All-map, Option, codes, none, refl, some, true, ◌≡◌}
use artificial_intelligence.Contracts.Identifier.{operation, session}
use artificial_intelligence.Host.Text.{Units}
use artificial_intelligence.Host.Identifier.{is_identifier}
use artificial_intelligence.Host.Scalar.{ℤ}
use artificial_intelligence.Host.Version.{ContractVersion, format_contract_version}
use artificial_intelligence.Host.Version.Mirror.{IsSafe}
use artificial_intelligence.Host.Canonical.{string, array, object, end, entry}
use artificial_intelligence.Host.Error.{FoundationErrorValue}
use artificial_intelligence.Host.Error.Decode.{encode_foundation_error}
use artificial_intelligence.Host.Error.Laws.{IsFailure, Passes, decode-encode_foundation_error}
use artificial_intelligence.Host.Envelope.{
  PayloadDecoder, PayloadEncoder, TurnOk, TurnOutcome, turn_ok, turn_error, FailureRecord, members,
  read_array,
}
use artificial_intelligence.Host.Envelope.Decode.{
  decode_proposal_envelope, decode_effect_request_envelope, decode_turn_ok, decode_turn_outcome,
}
use artificial_intelligence.Host.Envelope.Records.{decode_record, decode_failure_record}
use artificial_intelligence.Host.Envelope.Encode.{
  encode_proposal_envelope, encode_effect_request_envelope, encode_turn_ok, encode_turn_outcome,
  encode_failure_record,
}
use artificial_intelligence.Host.Envelope.Readers.{
  IsCounter, counter_str, format-counter, read_version-format, read_decimal-format,
  read_identifier-true,
}
use artificial_intelligence.Host.Envelope.RoundTrip.{
  Survives, IsProposal, IsEffect, ReadsBack, proposal-Survives, effect-Survives, each-Survives,
}

module _ {X P F : Type 0} (encode_p : PayloadEncoder P) (decode_p : PayloadDecoder X P)
    (encode_f : PayloadEncoder F) (decode_f : PayloadDecoder X F) where
  -- What the host's types say of a turn, with payloads that the codecs read back.
  pub record IsTurn (t : TurnOk P F) : Type 0 where
    pub version : IsSafe t.contract_version
    pub operation_id : is_identifier operation t.operation_id ≡ true
    pub revision : IsCounter t.session_revision
    pub proposals : All (λ e. IsProposal e × ReadsBack encode_p decode_p e.proposal) t.proposals
    pub effect_requests :
        All (λ e. IsEffect e × ReadsBack encode_f decode_f e.effect) t.effect_requests

  abbrev pub IsOutcome : TurnOutcome P F → Type 0
  IsOutcome (turn_ok turn) = IsTurn turn
  IsOutcome (turn_error error) = IsFailure error

  turn_ok-Survives :
      (t : TurnOk P F)
      → IsTurn t
      → Survives
          (encode_turn_ok t encode_p encode_f)
          (λ json. decode_turn_ok json decode_p decode_f)
          t
  unfolding encode_turn_ok decode_turn_ok members read_array
  turn_ok-Survives t h =
      let (ps, ps_written, ps_read) =
        each-Survives (λ e. encode_proposal_envelope e encode_p)
          (λ json. decode_proposal_envelope json decode_p) t.proposals
          (All-map (λ e k. proposal-Survives encode_p decode_p e k.0 k.1) t.proposals
            h.proposals) in
      let (fs, fs_written, fs_read) =
        each-Survives (λ e. encode_effect_request_envelope e encode_f)
          (λ json. decode_effect_request_envelope json decode_f) t.effect_requests
          (All-map (λ e k. effect-Survives encode_f decode_f e k.0 k.1) t.effect_requests
            h.effect_requests) in
      (
        object (
            entry (codes "contract_version") (string (format_contract_version t.contract_version)) (
              entry (codes "operation_id") (string t.operation_id) (
                entry (codes "session_revision") (string (counter_str t.session_revision)) (
                  entry (codes "proposals") (array ps)
                    (entry (codes "effect_requests") (array fs) end))))),
        rw (format-counter t.session_revision h.revision, ps_written, fs_written) refl,
        rw
            (
              read_version-format {X = X} _ t.contract_version h.version,
              read_identifier-true {X = X} _ t.operation_id operation h.operation_id,
              read_decimal-format {X = X} _ t.session_revision h.revision,
              ps_read,
              fs_read,
            )
            refl,
      )

  -- The outcome of a turn, a report or a failure whose members have their types, is encoded, and the
  -- host decodes what it wrote to the same outcome: with every proposal and effect request of the
  -- report in its place, where the codecs of the product read their payloads back.
  pub outcome-Survives :
      (o : TurnOutcome P F)
      → IsOutcome o
      → Survives
          (encode_turn_outcome o encode_p encode_f)
          (λ json. decode_turn_outcome json decode_p decode_f)
          o
  unfolding encode_turn_outcome decode_turn_outcome
  outcome-Survives (turn_ok turn) h =
      let (json, written, read) = turn_ok-Survives turn h in
      (object (entry (codes "ok") json end), rw written refl, rw read refl)
  outcome-Survives (turn_error error) h = (
    object (entry (codes "error") (encode_foundation_error error) end),
    refl,
    rw (decode-encode_foundation_error error h) refl,
  )

-- What the host's types say of a failure's record.
pub record IsRecord (r : FailureRecord) : Type 0 where
  pub version : IsSafe r.contract_version
  pub recorded_at : IsCounter r.recorded_at_unix_ms
  pub session_id : Passes (is_identifier session) r.session_id
  pub error : IsFailure r.error

module _ {X : Type 0} where
  record_with :
      (v : ContractVersion) (at : ℤ) (o : Option Units) (e : FoundationErrorValue)
      → IsSafe v
      → IsCounter at
      → Passes (is_identifier session) o
      → IsFailure e
      → Survives
          (encode_failure_record
            (record { contract_version = v; recorded_at_unix_ms = at; session_id = o; error = e }))
          (λ json. decode_failure_record {X = X} json)
          (record { contract_version = v; recorded_at_unix_ms = at; session_id = o; error = e })
  unfolding encode_failure_record decode_failure_record decode_record
  record_with v at none e safe counter k failure = (
    object (
        entry (codes "contract_version") (string (format_contract_version v)) (
          entry (codes "recorded_at_unix_ms") (string (counter_str at))
            (entry (codes "error") (encode_foundation_error e) end))),
    rw (format-counter at counter) refl,
    rw
        (
          read_version-format {X = X} _ v safe,
          read_decimal-format {X = X} _ at counter,
          decode-encode_foundation_error e failure,
        )
        refl,
  )
  record_with v at (some s) e safe counter k failure = (
    object (
        entry (codes "contract_version") (string (format_contract_version v)) (
          entry (codes "recorded_at_unix_ms") (string (counter_str at)) (
            entry (codes "error") (encode_foundation_error e)
              (entry (codes "session_id") (string s) end)))),
    rw (format-counter at counter) refl,
    rw
        (
          read_version-format {X = X} _ v safe,
          read_decimal-format {X = X} _ at counter,
          decode-encode_foundation_error e failure,
          read_identifier-true {X = X} _ s session k,
        )
        refl,
  )

  -- A record of a failure whose members have their types is encoded, with or without a session, and
  -- the host decodes what it wrote to the same record.
  pub record-Survives :
      (r : FailureRecord)
      → IsRecord r
      → Survives (encode_failure_record r) (λ json. decode_failure_record {X = X} json) r
  record-Survives r h =
      record_with r.contract_version r.recorded_at_unix_ms r.session_id r.error h.version
        h.recorded_at h.session_id h.error
