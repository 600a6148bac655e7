-- ===== src/Runtime/Session/Dispatching.antt =====
-- What `dispatch` of session.rs does with an admission.
use artificial_intelligence.Base.{arith, ok, ◌+◌, ◌<◌, ◌↔◌, ◌≡◌}
use artificial_intelligence.Contracts.Decimal.{u64_max}
use artificial_intelligence.Contracts.Scalar.{IsU64, next}
use artificial_intelligence.Contracts.Version.{current}
use artificial_intelligence.Contracts.Capability.{capability_name_ord}
use artificial_intelligence.Contracts.Identifier.{OperationId, identifier_ord}
use artificial_intelligence.Contracts.Envelope.{EffectRequestEnvelope}
use artificial_intelligence.Runtime.Session.{RuntimeSession}
use artificial_intelligence.Runtime.Session.Admit.{Admitted, dispatch}
use artificial_intelligence.Runtime.Session.Invariant.{IsOwned-mono, IsValid}

module _ {P : Type 0} where
  pub dispatch-ok :
      (op : OperationId) (admitted : Admitted P) (s t : RuntimeSession P)
      (e : EffectRequestEnvelope P)
      → dispatch op admitted s ≡ (ok e, t)
      → (e.effect ≡ admitted.envelope.action)
        × (e.operation_id ≡ op)
        × (e.sequence ≡ s.sequence + 1)
        × (t ≡ record s { sequence = s.sequence + 1; revision = s.revision + 1 })
        × IsU64 (s.sequence + 1)
        × IsU64 (s.revision + 1)
  unfolding dispatch next
  dispatch-ok op admitted s t e h = ground arith

  pub dispatch-IsValid :
      (op : OperationId) (admitted : Admitted P) (s : RuntimeSession P)
      → IsValid s
      → IsValid (dispatch op admitted s).1
  unfolding dispatch next
  dispatch-IsValid op admitted s v =
      ground (arith, IsOwned-mono s.sequence (s.sequence + 1) s.pending)

  -- A dispatch succeeds exactly if neither counter is at its ceiling; it then requests the action
  -- admitted, for this operation and under the next sequence, and advances both counters.
  pub dispatch_iff :
      (op : OperationId) (admitted : Admitted P) (s t : RuntimeSession P)
      (e : EffectRequestEnvelope P)
      → (dispatch op admitted s ≡ (ok e, t)) ↔ (
          (s.sequence < u64_max)
          × (s.revision < u64_max)
          × (e ≡ record {
            contract_version = current;
            operation_id = op;
            sequence = s.sequence + 1;
            effect = admitted.envelope.action;
          })
          × (t ≡ record s { sequence = s.sequence + 1; revision = s.revision + 1 }))
  unfolding dispatch next
  dispatch_iff op admitted s t e = (
    λ h. (ground arith, ground arith, ground arith, ground arith),
    λ h. ground (arith, h.0, h.1, h.2, h.3),
  )
