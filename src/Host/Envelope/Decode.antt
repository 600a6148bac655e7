-- ===== src/Host/Envelope/Decode.antt =====
-- The decoders of packages/aiai-contracts/src/envelope.ts. The members are read in the order of the
-- object that each returns.
use artificial_intelligence.Base.{
  List, Result, [], codes, if◌then◌else◌, map_err, ok, ◌==◌, ◌∷◌, bytes_ord, ◌>>=◌,
}
use artificial_intelligence.Contracts.Identifier.{operation, proposal, session}
use artificial_intelligence.Host.Text.{Units}
use artificial_intelligence.Host.Canonical.{
  CanonicalJsonValue, Elements, object, nil, element, end, entry,
}
use artificial_intelligence.Host.Error.{get, FoundationErrorValue}
use artificial_intelligence.Host.Error.Decode.{decode_foundation_error}
use artificial_intelligence.Host.Envelope.{
  Thrown, foundation, PayloadDecoder, WakeEnvelope, ProposalEnvelope, AdmissionEnvelope,
  EffectRequestEnvelope, TurnOk, TurnOutcome, turn_ok, turn_error, refuse, members, read_identifier,
  read_decimal, read_capability, read_version, read_array, read_payload,
}

abbrev pub wake_members : List Units
wake_members =
    codes "contract_version"
    ∷ codes "operation_id"
    ∷ codes "session_id"
    ∷ codes "observed_at_unix_ms"
    ∷ codes "reason"
    ∷ []

abbrev pub proposal_members : List Units
proposal_members =
    codes "contract_version"
    ∷ codes "operation_id"
    ∷ codes "proposal_id"
    ∷ codes "sequence"
    ∷ codes "requested_capability"
    ∷ codes "proposal"
    ∷ []

abbrev pub admission_members : List Units
admission_members =
    codes "contract_version"
    ∷ codes "operation_id"
    ∷ codes "proposal_id"
    ∷ codes "sequence"
    ∷ codes "granted_capability"
    ∷ codes "action"
    ∷ []

abbrev pub effect_members : List Units
effect_members =
    codes "contract_version" ∷ codes "operation_id" ∷ codes "sequence" ∷ codes "effect" ∷ []

abbrev pub turn_ok_members : List Units
turn_ok_members =
    codes "contract_version"
    ∷ codes "operation_id"
    ∷ codes "session_revision"
    ∷ codes "proposals"
    ∷ codes "effect_requests"
    ∷ []

module _ {X : Type 0} where
  -- `decodeWakeEnvelope`
  unfoldable pub decode_wake_envelope :
      {R : Type 0} → CanonicalJsonValue → PayloadDecoder X R → Result (WakeEnvelope R) (Thrown X)
  decode_wake_envelope source decode_reason = do
    fields ← members source wake_members
    contract_version ← read_version source (get fields (codes "contract_version"))
    operation_id ← read_identifier source (get fields (codes "operation_id")) operation
    session_id ← read_identifier source (get fields (codes "session_id")) session
    observed_at_unix_ms ← read_decimal source (get fields (codes "observed_at_unix_ms"))
    reason ← read_payload source (get fields (codes "reason")) decode_reason
    ok (record {
      contract_version = contract_version;
      operation_id = operation_id;
      session_id = session_id;
      observed_at_unix_ms = observed_at_unix_ms;
      reason = reason;
    })

  -- `decodeProposalEnvelope`
  unfoldable pub decode_proposal_envelope :
      {P : Type 0}
      → CanonicalJsonValue
      → PayloadDecoder X P
      → Result (ProposalEnvelope P) (Thrown X)
  decode_proposal_envelope source decode_proposal = do
    fields ← members source proposal_members
    contract_version ← read_version source (get fields (codes "contract_version"))
    operation_id ← read_identifier source (get fields (codes "operation_id")) operation
    proposal_id ← read_identifier source (get fields (codes "proposal_id")) proposal
    sequence ← read_decimal source (get fields (codes "sequence"))
    requested_capability ← read_capability source (get fields (codes "requested_capability"))
    payload ← read_payload source (get fields (codes "proposal")) decode_proposal
    ok (record {
      contract_version = contract_version;
      operation_id = operation_id;
      proposal_id = proposal_id;
      sequence = sequence;
      requested_capability = requested_capability;
      proposal = payload;
    })

  -- `decodeAdmissionEnvelope`
  unfoldable pub decode_admission_envelope :
      {A : Type 0}
      → CanonicalJsonValue
      → PayloadDecoder X A
      → Result (AdmissionEnvelope A) (Thrown X)
  decode_admission_envelope source decode_action = do
    fields ← members source admission_members
    contract_version ← read_version source (get fields (codes "contract_version"))
    operation_id ← read_identifier source (get fields (codes "operation_id")) operation
    proposal_id ← read_identifier source (get fields (codes "proposal_id")) proposal
    sequence ← read_decimal source (get fields (codes "sequence"))
    granted_capability ← read_capability source (get fields (codes "granted_capability"))
    action ← read_payload source (get fields (codes "action")) decode_action
    ok (record {
      contract_version = contract_version;
      operation_id = operation_id;
      proposal_id = proposal_id;
      sequence = sequence;
      granted_capability = granted_capability;
      action = action;
    })

  -- `decodeEffectRequestEnvelope`
  unfoldable pub decode_effect_request_envelope :
      {F : Type 0}
      → CanonicalJsonValue
      → PayloadDecoder X F
      → Result (EffectRequestEnvelope F) (Thrown X)
  decode_effect_request_envelope source decode_effect = do
    fields ← members source effect_members
    contract_version ← read_version source (get fields (codes "contract_version"))
    operation_id ← read_identifier source (get fields (codes "operation_id")) operation
    sequence ← read_decimal source (get fields (codes "sequence"))
    effect ← read_payload source (get fields (codes "effect")) decode_effect
    ok (record {
      contract_version = contract_version;
      operation_id = operation_id;
      sequence = sequence;
      effect = effect;
    })

  -- `elements.map(decode)`
  unfoldable pub decode_each :
      {T : Type 0}
      → (CanonicalJsonValue → Result T (Thrown X))
      → Elements
      → Result (List T) (Thrown X)
  decode_each decode nil = ok []
  decode_each decode (element value elements) = do
    first ← decode value
    rest ← decode_each decode elements
    ok (first ∷ rest)

  -- `decodeTurnOk`
  unfoldable pub decode_turn_ok :
      {P F : Type 0}
      → CanonicalJsonValue
      → PayloadDecoder X P
      → PayloadDecoder X F
      → Result (TurnOk P F) (Thrown X)
  unfolding decode_each
  decode_turn_ok source decode_proposal decode_effect = do
    fields ← members source turn_ok_members
    contract_version ← read_version source (get fields (codes "contract_version"))
    operation_id ← read_identifier source (get fields (codes "operation_id")) operation
    session_revision ← read_decimal source (get fields (codes "session_revision"))
    entries ← read_array source (get fields (codes "proposals"))
    proposals ← decode_each (λ value. decode_proposal_envelope value decode_proposal) entries
    requests ← read_array source (get fields (codes "effect_requests"))
    effect_requests ←
        decode_each (λ value. decode_effect_request_envelope value decode_effect) requests
    ok (record {
      contract_version = contract_version;
      operation_id = operation_id;
      session_revision = session_revision;
      proposals = proposals;
      effect_requests = effect_requests;
    })

  -- What `decodeFoundationError` returns or throws.
  abbrev pub decode_error : CanonicalJsonValue → Result FoundationErrorValue (Thrown X)
  decode_error value = map_err foundation (decode_foundation_error value)

  -- `decodeTurnOutcome`
  unfoldable pub decode_turn_outcome :
      {P F : Type 0}
      → CanonicalJsonValue
      → PayloadDecoder X P
      → PayloadDecoder X F
      → Result (TurnOutcome P F) (Thrown X)
  decode_turn_outcome (object (entry name value end)) decode_proposal decode_effect =
      if name == codes "ok"
      then (do turn ← decode_turn_ok value decode_proposal decode_effect; ok (turn_ok turn))
      else if name == codes "error"
      then (do error ← decode_error value; ok (turn_error error))
      else refuse (object (entry name value end))
  decode_turn_outcome source decode_proposal decode_effect = refuse source
