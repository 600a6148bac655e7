-- ===== src/Runtime/Session/Conclude.antt =====
-- The commit of `propose_candidates` of session.rs, behind its staging loop.
use artificial_intelligence.Base.{List, Result, [], ok_or, some, ◌++◌, ◌∷◌}
use artificial_intelligence.BTree.{BTreeMap, insert}
use artificial_intelligence.Contracts.Scalar.{DecimalU64, next}
use artificial_intelligence.Contracts.Identifier.{ProposalId, OperationId, identifier_ord}
use artificial_intelligence.Contracts.Error.{FoundationError}
use artificial_intelligence.Contracts.Error.Failures.{sequence_exhausted}
use artificial_intelligence.Contracts.Envelope.{ProposalEnvelope}
use artificial_intelligence.Runtime.Action.{Action, pure, lift, read, modify, ◌>>=◌, ◌>>◌}
use artificial_intelligence.Runtime.Session.{RuntimeSession}

module _ {P : Type 0} where
  -- The commit loop, from the identifiers and entries so far.
  unfoldable pub commit :
      List ProposalId
      → BTreeMap ProposalId (ProposalEnvelope P)
      → List (ProposalEnvelope P)
      → List ProposalId × BTreeMap ProposalId (ProposalEnvelope P)
  commit ids pending [] = (ids, pending)
  commit ids pending (e ∷ es) =
      commit (ids ++ e.proposal_id ∷ []) (insert e.proposal_id e pending) es

  -- What follows the staging loop, a step at a time: what was written before an error stays written.
  unfoldable pub conclude :
      OperationId
      → Result (DecimalU64 × List (ProposalEnvelope P)) FoundationError
      → Action (RuntimeSession P) (List ProposalId)
  conclude op staging = do
    (sequence, staged) ← lift staging
    self ← read
    revision ← lift (ok_or (next self.revision) (sequence_exhausted (some op)))
    let (ids, pending) = commit [] self.pending staged
    modify (λ s. record s { pending = pending })
    modify (λ s. record s { sequence = sequence })
    modify (λ s. record s { revision = revision })
    pure ids
