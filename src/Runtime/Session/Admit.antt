-- ===== src/Runtime/Session/Admit.antt =====
-- crates/aiai-runtime/src/admission.rs, and `admit`, `release_decided` and `dispatch` of
-- session.rs.
use artificial_intelligence.Base.{if◌then◌else◌, map_err, none, not, ok_or, some}
use artificial_intelligence.BTree.{get, remove}
use artificial_intelligence.Contracts.Scalar.{next}
use artificial_intelligence.Contracts.Version.{current}
use artificial_intelligence.Contracts.Capability.{CapabilityName}
use artificial_intelligence.Contracts.Identifier.{ProposalId, OperationId, identifier_ord}
use artificial_intelligence.Contracts.Error.Failures.{
  runtime_inactive, unknown_proposal, authority_withheld, authority_scope_exceeded,
  sequence_exhausted,
}
use artificial_intelligence.Contracts.Envelope.{
  ProposalEnvelope, AdmissionEnvelope, EffectRequestEnvelope,
}
use artificial_intelligence.Runtime.Activation.{may_settle_in_flight}
use artificial_intelligence.Runtime.Scope.{permits}
use artificial_intelligence.Runtime.Ports
use artificial_intelligence.Runtime.Ports.{Authority, AuthorityDecision, withhold}
use artificial_intelligence.Runtime.Action.{
  Action, pure, lift, read, modify, throw, throw_if, ◌>>=◌, ◌>>◌,
}
use artificial_intelligence.Runtime.Session.{
  RuntimeSession, port_failure, bump_revision, next_sequence,
}

-- `Admitted`: in the source only `admit` can build one, and it cannot be copied.
pub record Admitted (A : Type 0) : Type 0 where
  pub envelope : AdmissionEnvelope A

-- `Admitted::into_envelope`
abbrev pub into_envelope : {A : Type 0} → Admitted A → AdmissionEnvelope A
into_envelope admitted = admitted.envelope

module _ {P : Type 0} where
  unfoldable pub release_decided : ProposalId → Action (RuntimeSession P) (ProposalEnvelope P)
  release_decided id = do
    self ← read
    revision ← lift (ok_or (next self.revision) (sequence_exhausted none))
    envelope ← lift (ok_or (get id self.pending) (unknown_proposal none id))
    modify (λ s. record s { pending = remove id s.pending })
    modify (λ s. record s { revision = revision })
    pure envelope

  -- The part of `admit` behind a grant inside the scope.
  unfoldable pub grant :
      OperationId → ProposalId → CapabilityName → Action (RuntimeSession P) (Admitted P)
  grant op id granted = do
    self ← read
    sequence ← lift (ok_or (next self.sequence) (sequence_exhausted (some op)))
    revision ← lift (ok_or (next self.revision) (sequence_exhausted (some op)))
    admitted ← lift (ok_or (get id self.pending) (unknown_proposal (some op) id))
    modify (λ s. record s { pending = remove id s.pending })
    modify (λ s. record s { sequence = sequence; revision = revision })
    pure (record {
      envelope = record {
        contract_version = current;
        operation_id = op;
        proposal_id = admitted.proposal_id;
        sequence = sequence;
        granted_capability = granted;
        action = admitted.proposal;
      };
    })

  abbrev pub refuse_withheld : OperationId → ProposalId → Action (RuntimeSession P) (Admitted P)
  refuse_withheld op id = do
    withheld ← release_decided id
    throw (authority_withheld (some op) withheld.proposal_id withheld.requested_capability)

  abbrev pub refuse_exceeded :
      OperationId → ProposalId → CapabilityName → Action (RuntimeSession P) (Admitted P)
  refuse_exceeded op id granted = do
    refused ← release_decided id
    throw (authority_scope_exceeded (some op) refused.proposal_id granted)

  -- The part of `admit` behind the authority's decision.
  unfoldable pub settle_decision :
      OperationId → ProposalId → AuthorityDecision → Action (RuntimeSession P) (Admitted P)
  unfolding release_decided grant
  settle_decision op id withhold s = refuse_withheld op id s
  settle_decision op id (Ports.admit granted) s =
      if permits s.scope granted then grant op id granted s else refuse_exceeded op id granted s

  unfoldable pub admit :
      {A : Type 0} ⦃a : Authority A P⦄
      → OperationId
      → ProposalId
      → A
      → Action (RuntimeSession P) (Admitted P)
  admit ⦃a⦄ op id authority = do
    self ← read
    throw_if (not (may_settle_in_flight self.activation)) (runtime_inactive (some op))
    proposal ← lift (ok_or (get id self.pending) (unknown_proposal (some op) id))
    decision ← lift (map_err (port_failure (some op)) (a.decide authority proposal))
    settle_decision op id decision

  -- `dispatch` takes the admission by value.
  unfoldable pub dispatch :
      OperationId → Admitted P → Action (RuntimeSession P) (EffectRequestEnvelope P)
  unfolding next_sequence bump_revision
  dispatch op admitted = do
    sequence ← next_sequence (some op)
    bump_revision
    pure (record {
      contract_version = current;
      operation_id = op;
      sequence = sequence;
      effect = admitted.envelope.action;
    })
