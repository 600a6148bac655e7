-- ===== src/Runtime/Session.antt =====
-- crates/aiai-runtime/src/session.rs: the state of a session, its counters, activation, rebinding
-- and waking. The child modules hold the other methods and the proofs. Borrowing leaves no trace:
-- `&self` methods are functions, `&mut self` methods are actions.
pub mod Snapshot
pub mod Conclude
pub mod Propose
pub mod Admit
pub mod Turn
pub mod Invariant
pub mod Restoring
pub mod Transaction
pub mod Batch
pub mod Inferring
pub mod Authority
pub mod Dispatching
pub mod Failing
pub mod Reporting
pub mod Identity
pub mod History
pub mod Emission
pub mod Retrying
pub mod Succeeding
pub mod Effecting
pub mod Commuting
pub mod Boundary
use artificial_intelligence.Base.{
  Bool, List, Option, [], false, length, map_err, none, not, ok, ok_or, some, true, ℕ,
}
use artificial_intelligence.BTree.{BTreeMap, keys, get}
use artificial_intelligence.Contracts.Scalar.{DecimalU64, next}
use artificial_intelligence.Contracts.Version.{current}
use artificial_intelligence.Contracts.Identifier.{
  SessionId, ProposalId, OperationId, identifier_ord,
}
use artificial_intelligence.Contracts.Error.{FoundationError}
use artificial_intelligence.Contracts.Error.Failures.{
  runtime_inactive, subject_continuity_violation, sequence_exhausted, missing_context,
}
use artificial_intelligence.Contracts.Envelope.{ProposalEnvelope, WakeEnvelope}
use artificial_intelligence.Runtime.Activation
use artificial_intelligence.Runtime.Activation.{
  ActivationState, ActivationTransition, dormant, apply, transition_to, may_initiate,
}
use artificial_intelligence.Runtime.Continuity.{
  SubjectBinding, ContinuityRelation, identical, continuous, distinct_subject, classify,
}
use artificial_intelligence.Runtime.Scope.{DelegationScope}
use artificial_intelligence.Runtime.Ports.{Clock, PortError, context_port}
use artificial_intelligence.Runtime.Action.{
  Action, pure, lift, read, modify, throw_if, continue, ◌>>=◌, ◌>>◌,
}

-- The payload type of a session is a type of Rust values, in `Type 0`.
pub record RuntimeSession (P : Type 0) : Type 0 where
  pub session_id : SessionId
  pub binding : SubjectBinding
  pub scope : DelegationScope
  pub activation : ActivationState
  pub sequence : DecimalU64
  pub revision : DecimalU64
  pub pending : BTreeMap ProposalId (ProposalEnvelope P)

-- `Self::port_failure`
unfoldable pub port_failure : Option OperationId → PortError → FoundationError
unfolding context_port
port_failure op error = missing_context op (context_port error.port)

-- `relation == ContinuityRelation::DistinctSubject`
abbrev pub is_distinct : ContinuityRelation → Bool
is_distinct identical = false
is_distinct (continuous c) = false
is_distinct distinct_subject = true

module _ {P : Type 0} where
  -- `RuntimeSession::new`
  unfoldable pub new : SessionId → SubjectBinding → DelegationScope → RuntimeSession P
  new session binding scope = record {
    session_id = session;
    binding = binding;
    scope = scope;
    activation = dormant;
    sequence = 0;
    revision = 0;
    pending = [];
  }

  -- `pending_proposals`, `pending_proposal` and `pending_proposal_ids`
  unfoldable pub pending_proposals : RuntimeSession P → ℕ
  pending_proposals s = length s.pending

  unfoldable pub pending_proposal : RuntimeSession P → ProposalId → Option (ProposalEnvelope P)
  pending_proposal s id = get id s.pending

  unfoldable pub pending_proposal_ids : RuntimeSession P → List ProposalId
  pending_proposal_ids s = keys s.pending

  unfoldable pub bump_revision : Action (RuntimeSession P) (Unit {0})
  bump_revision = do
    self ← read
    revision ← lift (ok_or (next self.revision) (sequence_exhausted none))
    modify (λ s. record s { revision = revision })

  unfoldable pub next_sequence : Option OperationId → Action (RuntimeSession P) DecimalU64
  next_sequence op = do
    self ← read
    following ← lift (ok_or (next self.sequence) (sequence_exhausted op))
    modify (λ s. record s { sequence = following })
    pure following

  unfoldable pub apply_activation :
      Option OperationId → ActivationTransition → Action (RuntimeSession P) ActivationState
  unfolding bump_revision
  apply_activation op transition = do
    self ← read
    following ← lift (map_err (λ _. runtime_inactive op) (apply self.activation transition))
    modify (λ s. record s { activation = following })
    bump_revision
    pure following

  -- The two arms on the resolved transition.
  abbrev pub follow :
      Option OperationId → Option ActivationTransition → Action (RuntimeSession P) ActivationState
  follow op none s = (ok s.activation, s)
  follow op (some transition) s = apply_activation op transition s

  unfoldable pub ensure_activation :
      Option OperationId → ActivationState → Action (RuntimeSession P) ActivationState
  unfolding apply_activation
  ensure_activation op target = do
    self ← read
    resolved ← lift (map_err (λ _. runtime_inactive op) (transition_to self.activation target))
    follow op resolved

  unfoldable pub rebind :
      Option OperationId → SubjectBinding → Action (RuntimeSession P) ContinuityRelation
  unfolding bump_revision
  rebind op replacement = do
    self ← read
    let relation = classify self.binding replacement
    throw_if (is_distinct relation)
        (subject_continuity_violation op self.binding.subject replacement.subject)
    modify (λ s. record s { binding = replacement })
    bump_revision
    pure relation

  unfoldable pub wake :
      {C R : Type 0} ⦃c : Clock C⦄
      → OperationId
      → R
      → C
      → Action (RuntimeSession P) (WakeEnvelope R)
  unfolding bump_revision
  wake ⦃c⦄ op reason clock = do
    self ← read
    throw_if (not (may_initiate self.activation)) (runtime_inactive (some op))
    observed ← lift (map_err (port_failure (some op)) (c.now_unix_ms clock))
    bump_revision
    pure (record {
      contract_version = current;
      operation_id = op;
      session_id = self.session_id;
      observed_at_unix_ms = observed;
      reason = reason;
    })
