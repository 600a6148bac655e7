-- ===== src/Runtime/Session/Turn.antt =====
-- `turn_ok` of session.rs: the closed report of a turn, assembled from the session's own state.
use artificial_intelligence.Base.{List, Result, [], err, none, ok, some, ◌++◌, ◌∷◌, ◌>>=◌}
use artificial_intelligence.BTree.{BTreeMap, get}
use artificial_intelligence.Contracts.Version.{current}
use artificial_intelligence.Contracts.Identifier.{ProposalId, OperationId, identifier_ord}
use artificial_intelligence.Contracts.Error.{FoundationError}
use artificial_intelligence.Contracts.Error.Failures.{unknown_proposal}
use artificial_intelligence.Contracts.Envelope.{ProposalEnvelope, EffectRequestEnvelope, TurnOk}
use artificial_intelligence.Runtime.Session.{RuntimeSession}

module _ {P : Type 0} where
  -- The loop over the identifiers, with the proposals so far.
  unfoldable pub gather :
      OperationId
      → BTreeMap ProposalId (ProposalEnvelope P)
      → List (ProposalEnvelope P)
      → List ProposalId
      → Result (List (ProposalEnvelope P)) FoundationError
  gather op pending proposals [] = ok proposals
  gather op pending proposals (id ∷ ids) = elim (get id pending) [
    | none ↦ err (unknown_proposal (some op) id)
    | some envelope ↦ gather op pending (proposals ++ envelope ∷ []) ids
  ]

  unfoldable pub turn_ok :
      {F : Type 0}
      → OperationId
      → List ProposalId
      → List (EffectRequestEnvelope F)
      → RuntimeSession P
      → Result (TurnOk P F) FoundationError
  turn_ok op ids effects s = do
    proposals ← gather op s.pending [] ids
    ok (record {
      contract_version = current;
      operation_id = op;
      session_revision = s.revision;
      proposals = proposals;
      effect_requests = effects;
    })
