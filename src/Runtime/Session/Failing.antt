-- ===== src/Runtime/Session/Failing.antt =====
-- The failures of `apply_activation`, `ensure_activation`, `rebind` and `dispatch` of session.rs,
-- and what each of them leaves of the session.
use artificial_intelligence.Base.{
  ==_refl, Bool-cases, Option, Result-cases, arith, eq_of_==, err, false, inl, inr, is_ok, leb,
  none, not, ok, some, ◌+◌, ◌<◌, ◌==◌, ◌↔◌, ◌≡◌, ◌≢◌, ◌≤◌, ◌⊎◌, bytes_ord,
}
use artificial_intelligence.Contracts.Decimal.{u64_max}
use artificial_intelligence.Contracts.Scalar.{next}
use artificial_intelligence.Contracts.Identifier.{OperationId, identifier_ord}
use artificial_intelligence.Contracts.Error.{FoundationError}
use artificial_intelligence.Contracts.Error.Failures.{
  runtime_inactive, subject_continuity_violation, sequence_exhausted,
}
use artificial_intelligence.Runtime.Activation.{ActivationState, ActivationTransition, apply}
use artificial_intelligence.Runtime.Continuity.{SubjectBinding, classify}
use artificial_intelligence.Runtime.Session.{RuntimeSession, apply_activation, rebind, is_distinct}
use artificial_intelligence.Runtime.Session.Admit.{Admitted, dispatch}

is_distinct-classify :
    (a b : SubjectBinding) → is_distinct (classify a b) ≡ not (a.subject == b.subject)
unfolding classify
is_distinct-classify a b = ground arith

module _ {P : Type 0} where
  -- `apply_activation` fails in two ways: the transition is not defined from the current state, and
  -- the session stays as it was; or the revision is at its ceiling, and the activation has changed
  -- all the same.
  pub apply_activation_failure_iff :
      (op : Option OperationId) (tr : ActivationTransition) (s t : RuntimeSession P)
      (x : FoundationError)
      → (apply_activation op tr s ≡ (err x, t)) ↔ (
          ((is_ok (apply s.activation tr) ≡ false) × (x ≡ runtime_inactive op) × (t ≡ s))
          ⊎ ((following : ActivationState) × (apply s.activation tr ≡ ok following)
              × (u64_max ≤ s.revision)
              × (x ≡ sequence_exhausted none)
              × (t ≡ record s { activation = following })))
  unfolding apply_activation next
  apply_activation_failure_iff op tr s t x = (sound, complete)
    where
      sound :
          apply_activation op tr s ≡ (err x, t)
          → ((is_ok (apply s.activation tr) ≡ false) × (x ≡ runtime_inactive op) × (t ≡ s))
            ⊎ ((following : ActivationState) × (apply s.activation tr ≡ ok following)
                × (u64_max ≤ s.revision)
                × (x ≡ sequence_exhausted none)
                × (t ≡ record s { activation = following }))
      sound h = elim (Result-cases (apply s.activation tr)) [
        | inl (a, e) ↦ inr (a, e, ground arith, ground arith, ground arith)
        | inr (y, e) ↦ inl (ground arith, ground arith, ground arith)
      ]

      complete :
          ((is_ok (apply s.activation tr) ≡ false) × (x ≡ runtime_inactive op) × (t ≡ s))
            ⊎ ((following : ActivationState) × (apply s.activation tr ≡ ok following)
                × (u64_max ≤ s.revision)
                × (x ≡ sequence_exhausted none)
                × (t ≡ record s { activation = following }))
          → apply_activation op tr s ≡ (err x, t)
      complete (inl (e, f, g)) = elim (Result-cases (apply s.activation tr)) [
        | inl (a, k) ↦ ground arith
        | inr (y, k) ↦ ground arith
      ]
      complete (inr (a, e, l, f, g)) = ground (arith, e, f, g)

  -- `rebind` fails in two ways: the replacement names another subject, and the session stays as it
  -- was; or the revision is at its ceiling, and the binding has been replaced all the same.
  pub rebind_failure_iff :
      (op : Option OperationId) (b : SubjectBinding) (s t : RuntimeSession P) (x : FoundationError)
      → (rebind op b s ≡ (err x, t)) ↔ (
          ((s.binding.subject ≢ b.subject)
            × (x ≡ subject_continuity_violation op s.binding.subject b.subject)
            × (t ≡ s))
          ⊎ ((s.binding.subject ≡ b.subject)
              × (u64_max ≤ s.revision)
              × (x ≡ sequence_exhausted none)
              × (t ≡ record s { binding = b })))
  unfolding rebind next
  rebind_failure_iff op b s t x = (sound, complete)
    where
      known : is_distinct (classify s.binding b) ≡ not (s.binding.subject == b.subject)
      known = is_distinct-classify s.binding b

      sound :
          rebind op b s ≡ (err x, t)
          → ((s.binding.subject ≢ b.subject)
              × (x ≡ subject_continuity_violation op s.binding.subject b.subject)
              × (t ≡ s))
            ⊎ ((s.binding.subject ≡ b.subject)
                × (u64_max ≤ s.revision)
                × (x ≡ sequence_exhausted none)
                × (t ≡ record s { binding = b }))
      sound h = elim (Bool-cases (s.binding.subject == b.subject)) [
        | inl e ↦ inr (
          eq_of_== s.binding.subject b.subject e,
          ground (arith, known),
          ground (arith, known),
          ground (arith, known),
        )
        | inr e ↦ inl (
          λ q. ground (arith, ==_refl s.binding.subject, e, q),
          ground (arith, known),
          ground (arith, known),
        )
      ]

      complete :
          ((s.binding.subject ≢ b.subject)
              × (x ≡ subject_continuity_violation op s.binding.subject b.subject)
              × (t ≡ s))
            ⊎ ((s.binding.subject ≡ b.subject)
                × (u64_max ≤ s.revision)
                × (x ≡ sequence_exhausted none)
                × (t ≡ record s { binding = b }))
          → rebind op b s ≡ (err x, t)
      complete (inl (n, e, f)) = elim (Bool-cases (s.binding.subject == b.subject)) [
        | inl k ↦ absurd (n (eq_of_== s.binding.subject b.subject k))
        | inr k ↦ ground (arith, e, f, k, known)
      ]
      complete (inr (q, l, e, f)) = elim (Bool-cases (s.binding.subject == b.subject)) [
        | inl k ↦ ground (arith, e, f, k, known)
        | inr k ↦ absurd (ground (arith, ==_refl s.binding.subject, q, k))
      ]

  -- `dispatch` fails in two ways, both at a counter's ceiling: at the sequence's, and the session
  -- stays as it was; or at the revision's alone, and a sequence has been used up all the same.
  pub dispatch_failure_iff :
      (op : OperationId) (admitted : Admitted P) (s t : RuntimeSession P) (x : FoundationError)
      → (dispatch op admitted s ≡ (err x, t)) ↔ (
          ((u64_max ≤ s.sequence) × (x ≡ sequence_exhausted (some op)) × (t ≡ s))
          ⊎ ((s.sequence < u64_max)
              × (u64_max ≤ s.revision)
              × (x ≡ sequence_exhausted none)
              × (t ≡ record s { sequence = s.sequence + 1 })))
  unfolding dispatch next
  dispatch_failure_iff op admitted s t x = (sound, complete)
    where
      sound :
          dispatch op admitted s ≡ (err x, t)
          → ((u64_max ≤ s.sequence) × (x ≡ sequence_exhausted (some op)) × (t ≡ s))
            ⊎ ((s.sequence < u64_max)
                × (u64_max ≤ s.revision)
                × (x ≡ sequence_exhausted none)
                × (t ≡ record s { sequence = s.sequence + 1 }))
      sound h = elim (Bool-cases (leb u64_max s.sequence)) [
        | inl e ↦ inl (ground arith, ground arith, ground arith)
        | inr e ↦ inr (ground arith, ground arith, ground arith, ground arith)
      ]

      complete :
          ((u64_max ≤ s.sequence) × (x ≡ sequence_exhausted (some op)) × (t ≡ s))
            ⊎ ((s.sequence < u64_max)
                × (u64_max ≤ s.revision)
                × (x ≡ sequence_exhausted none)
                × (t ≡ record s { sequence = s.sequence + 1 }))
          → dispatch op admitted s ≡ (err x, t)
      complete (inl (l, e, f)) = ground (arith, e, f)
      complete (inr (l, m, e, f)) = ground (arith, e, f)
