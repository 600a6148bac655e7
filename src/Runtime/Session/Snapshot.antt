-- ===== src/Runtime/Session/Snapshot.antt =====
-- crates/aiai-runtime/src/snapshot.rs, and `snapshot`, `into_snapshot` and `restore` of session.rs.
-- Cloning leaves no trace.
use artificial_intelligence.Base.{
  List, Option, Result, [], err, if◌then◌else◌, is_some, ltb, none, not, ok, refuse_if, some, ◌∷◌,
  ◌>>=◌, ◌>>◌,
}
use artificial_intelligence.BTree.{BTreeMap, values, get, insert}
use artificial_intelligence.Contracts.Scalar.{DecimalU64}
use artificial_intelligence.Contracts.Version
use artificial_intelligence.Contracts.Version.{ContractVersion, current, accepts_provider}
use artificial_intelligence.Contracts.Handshake.{contract_version}
use artificial_intelligence.Contracts.Capability.{CapabilityName}
use artificial_intelligence.Contracts.Identifier.{
  SessionId, SubjectId, ControllerId, RuntimeId, ModelId, ProposalId, identifier_ord,
}
use artificial_intelligence.Contracts.Error.{FoundationError}
use artificial_intelligence.Contracts.Error.Failures.{
  unsupported_contract_version, malformed_envelope, duplicate_proposal_id,
}
use artificial_intelligence.Contracts.Envelope.{ProposalEnvelope}
use artificial_intelligence.Runtime.Activation.{ActivationState}
use artificial_intelligence.Runtime.Continuity
use artificial_intelligence.Runtime.Scope
use artificial_intelligence.Runtime.Session.{RuntimeSession}

pub record SessionSnapshot (P : Type 0) : Type 0 where
  pub contract_version : ContractVersion
  pub session_id : SessionId
  pub subject_id : SubjectId
  pub controller_id : ControllerId
  pub runtime_id : RuntimeId
  pub model_id : Option ModelId
  pub delegated_capabilities : List CapabilityName
  pub activation : ActivationState
  pub sequence : DecimalU64
  pub revision : DecimalU64
  pub pending : List (ProposalEnvelope P)

module _ {P : Type 0} where
  unfoldable pub snapshot : RuntimeSession P → SessionSnapshot P
  snapshot s = record {
    contract_version = current;
    session_id = s.session_id;
    subject_id = s.binding.subject;
    controller_id = s.binding.controller;
    runtime_id = s.binding.runtime;
    model_id = s.binding.model;
    delegated_capabilities = Scope.capabilities s.scope;
    activation = s.activation;
    sequence = s.sequence;
    revision = s.revision;
    pending = values s.pending;
  }

  -- `into_snapshot` differs in that it moves what `snapshot` clones.
  abbrev pub into_snapshot : RuntimeSession P → SessionSnapshot P
  unfolding snapshot
  into_snapshot s = snapshot s

  -- The loop of `restore`, from the entries inserted so far. `insert` gives back the entry that it
  -- replaced, which is the one read before it.
  unfoldable pub restore_pending :
      DecimalU64
      → BTreeMap ProposalId (ProposalEnvelope P)
      → List (ProposalEnvelope P)
      → Result (BTreeMap ProposalId (ProposalEnvelope P)) FoundationError
  restore_pending sequence pending [] = ok pending
  restore_pending sequence pending (envelope ∷ rest) =
      let id = envelope.proposal_id in
      let others = restore_pending sequence (insert id envelope pending) rest in
      if ltb sequence envelope.sequence
      then err (malformed_envelope (some envelope.operation_id))
      else if is_some (get id pending)
      then err (duplicate_proposal_id none id)
      else others

  -- The session that `restore` builds from a snapshot and its restored entries.
  abbrev pub seat : SessionSnapshot P → BTreeMap ProposalId (ProposalEnvelope P) → RuntimeSession P
  seat n pending = record {
    session_id = n.session_id;
    binding = Continuity.new n.subject_id n.controller_id n.runtime_id n.model_id;
    scope = Scope.new n.delegated_capabilities;
    activation = n.activation;
    sequence = n.sequence;
    revision = n.revision;
    pending = pending;
  }

  unfoldable pub restore : SessionSnapshot P → Result (RuntimeSession P) FoundationError
  restore n = do
    refuse_if (not (accepts_provider n.contract_version current)) (
        unsupported_contract_version none (some (Version.to_string n.contract_version))
          contract_version)
    pending ← restore_pending n.sequence [] n.pending
    ok (seat n pending)
