-- ===== src/Contracts/Envelope.antt =====
-- crates/aiai-contracts/src/envelope.rs: the generic envelopes. The serde attributes (unknown
-- members refused, absent members omitted) are not modelled.
use artificial_intelligence.Base.{List, Option, Result, err, ok}
use artificial_intelligence.Contracts.Scalar.{DecimalU64}
use artificial_intelligence.Contracts.Version.{ContractVersion, current}
use artificial_intelligence.Contracts.Capability.{CapabilityName}
use artificial_intelligence.Contracts.Identifier.{ProposalId, OperationId, SessionId}
use artificial_intelligence.Contracts.Error.{FoundationError}

pub record WakeEnvelope {ℓ} (R : Type ℓ) : Type ℓ where
  pub contract_version : ContractVersion
  pub operation_id : OperationId
  pub session_id : SessionId
  pub observed_at_unix_ms : DecimalU64
  pub reason : R

pub record ProposalEnvelope {ℓ} (P : Type ℓ) : Type ℓ where
  pub contract_version : ContractVersion
  pub operation_id : OperationId
  pub proposal_id : ProposalId
  pub sequence : DecimalU64
  pub requested_capability : CapabilityName
  pub proposal : P

pub record AdmissionEnvelope {ℓ} (A : Type ℓ) : Type ℓ where
  pub contract_version : ContractVersion
  pub operation_id : OperationId
  pub proposal_id : ProposalId
  pub sequence : DecimalU64
  pub granted_capability : CapabilityName
  pub action : A

pub record EffectRequestEnvelope {ℓ} (F : Type ℓ) : Type ℓ where
  pub contract_version : ContractVersion
  pub operation_id : OperationId
  pub sequence : DecimalU64
  pub effect : F

pub record TurnOk {ℓ κ} (P : Type ℓ) (F : Type κ) : Type (ℓ ⊔ κ) where
  pub contract_version : ContractVersion
  pub operation_id : OperationId
  pub session_revision : DecimalU64
  pub proposals : List (ProposalEnvelope P)
  pub effect_requests : List (EffectRequestEnvelope F)

pub record FailureRecord : Type 0 where
  pub contract_version : ContractVersion
  pub recorded_at_unix_ms : DecimalU64
  pub session_id : Option SessionId
  pub error : FoundationError

-- `FailureRecord::new`
unfoldable pub failure_record : DecimalU64 → Option SessionId → FoundationError → FailureRecord
failure_record recorded_at session error = record {
  contract_version = current;
  recorded_at_unix_ms = recorded_at;
  session_id = session;
  error = error;
}

pub data TurnOutcome {ℓ κ} (P : Type ℓ) (F : Type κ) : Type (ℓ ⊔ κ) where
  turn_ok : TurnOk P F → TurnOutcome P F
  turn_error : FoundationError → TurnOutcome P F

module _ {ℓ κ} {P : Type ℓ} {F : Type κ} where
  -- `impl From<Result<TurnOk<P, F>, FoundationError>> for TurnOutcome<P, F>`
  unfoldable pub turn_outcome : Result (TurnOk P F) FoundationError → TurnOutcome P F
  turn_outcome (ok t) = turn_ok t
  turn_outcome (err e) = turn_error e
