-- ===== src/Tests/Ceilings.antt =====
-- The failures of a session whose revision is at its ceiling.
use artificial_intelligence.Base.{
  err, false, is_ok, none, ok, some, ℕ, ◌+◌, ◌<◌, ◌↔◌, ◌≡◌, ◌≢◌, ◌≤◌, ◌⊎◌,
}
use artificial_intelligence.Contracts.Decimal.{u64_max}
use artificial_intelligence.Contracts.Identifier.{IdentifierKind, identifier_ord}
use artificial_intelligence.Contracts.Error.Failures.{
  runtime_inactive, subject_continuity_violation, sequence_exhausted,
}
use artificial_intelligence.Runtime.Activation.{ActivationState, quiesce, apply}
use artificial_intelligence.Runtime.Continuity.{SubjectBinding}
use artificial_intelligence.Runtime.Session.{RuntimeSession, apply_activation, rebind}
use artificial_intelligence.Runtime.Session.Admit.{dispatch}
use artificial_intelligence.Runtime.Session.Failing.{
  apply_activation_failure_iff, rebind_failure_iff, dispatch_failure_iff,
}
use artificial_intelligence.Tests.Fixtures.{identify, binding, op, fresh_session, granted}

abbrev full_session : RuntimeSession ℕ
full_session = record fresh_session { revision = u64_max }

abbrev quiesced : RuntimeSession ℕ
quiesced = record full_session { activation = ActivationState.quiescing }

apply_activation_failure_iff_example :
    (apply_activation none quiesce full_session ≡ (err (sequence_exhausted none), quiesced)) ↔ (
      ((is_ok (apply full_session.activation quiesce) ≡ false)
        × (sequence_exhausted none ≡ runtime_inactive none)
        × (quiesced ≡ full_session))
      ⊎ ((following : ActivationState) × (apply full_session.activation quiesce ≡ ok following)
          × (u64_max ≤ full_session.revision)
          × (sequence_exhausted none ≡ sequence_exhausted none)
          × (quiesced ≡ record full_session { activation = following })))
apply_activation_failure_iff_example =
    apply_activation_failure_iff none quiesce full_session quiesced (sequence_exhausted none)

abbrev replacement : SubjectBinding
replacement = record binding { runtime = identify IdentifierKind.runtime b'9' }

abbrev replaced : RuntimeSession ℕ
replaced = record full_session { binding = replacement }

rebind_failure_iff_example :
    (rebind none replacement full_session ≡ (err (sequence_exhausted none), replaced)) ↔ (
      ((binding.subject ≢ replacement.subject)
        × (sequence_exhausted none
            ≡ subject_continuity_violation none binding.subject replacement.subject)
        × (replaced ≡ full_session))
      ⊎ ((binding.subject ≡ replacement.subject)
          × (u64_max ≤ full_session.revision)
          × (sequence_exhausted none ≡ sequence_exhausted none)
          × (replaced ≡ record full_session { binding = replacement })))
rebind_failure_iff_example =
    rebind_failure_iff none replacement full_session replaced (sequence_exhausted none)

abbrev advanced : RuntimeSession ℕ
advanced = record full_session { sequence = 1 }

dispatch_failure_iff_example :
    (dispatch op granted full_session ≡ (err (sequence_exhausted none), advanced)) ↔ (
      ((u64_max ≤ full_session.sequence)
        × (sequence_exhausted none ≡ sequence_exhausted (some op))
        × (advanced ≡ full_session))
      ⊎ ((full_session.sequence < u64_max)
          × (u64_max ≤ full_session.revision)
          × (sequence_exhausted none ≡ sequence_exhausted none)
          × (advanced ≡ record full_session { sequence = full_session.sequence + 1 })))
dispatch_failure_iff_example =
    dispatch_failure_iff op granted full_session advanced (sequence_exhausted none)
