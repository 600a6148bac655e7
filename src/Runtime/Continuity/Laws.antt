-- ===== src/Runtime/Continuity/Laws.antt =====
-- What a classification says of two bindings.
use artificial_intelligence.Base.{
  ==_refl, Bool-cases, Option, ap, arith, eq_of_==, false, inl, inr, none, refl, some, subst, true,
  ◌==◌, ◌↔◌, ◌≡◌, ◌≢◌, bytes_ord,
}
use artificial_intelligence.Contracts.Identifier.{ControllerId, RuntimeId, ModelId, identifier_ord}
use artificial_intelligence.Runtime.Continuity.{
  ContinuityChange, identical, continuous, distinct_subject, SubjectBinding, any, same_model,
  change, classify, rebind,
}

same_model_iff : (a b : Option ModelId) → (same_model a b ≡ true) ↔ (a ≡ b)
same_model_iff none none = (λ h. refl, λ h. refl)
same_model_iff none (some b) = (λ h. cc, λ h. cc)
same_model_iff (some a) none = (λ h. cc, λ h. cc)
same_model_iff (some a) (some b) = (λ h. ap some (eq_of_== a b h), λ h. ground (arith, ==_refl a))

-- `change` marks exactly the components that differ.
pub change_iff :
    (a b : SubjectBinding)
    → (((change a b).controller ≡ false) ↔ (a.controller ≡ b.controller))
      × (((change a b).runtime ≡ false) ↔ (a.runtime ≡ b.runtime))
      × (((change a b).model ≡ false) ↔ (a.model ≡ b.model))
change_iff a b = (
  (
    λ h. eq_of_== a.controller b.controller (ground arith),
    λ h. ground (arith, ==_refl a.controller),
  ),
  (λ h. eq_of_== a.runtime b.runtime (ground arith), λ h. ground (arith, ==_refl a.runtime)),
  (
    λ h. (same_model_iff a.model b.model).0 (ground arith),
    λ h. ground (arith, (same_model_iff a.model b.model).1 h),
  ),
)

classify_refl : (a : SubjectBinding) → classify a a ≡ identical
unfolding classify any
classify_refl a = ground (
  arith,
  ==_refl a.subject,
  ==_refl a.controller,
  ==_refl a.runtime,
  (same_model_iff a.model a.model).1 refl,
)

-- The relation of two bindings is exact: distinct exactly if the subjects differ, identical
-- exactly if the bindings are equal, and a change is reported exactly if the subject is the same
-- and the change, which marks the components that differ, is not empty.
pub classify_iff :
    (a b : SubjectBinding) (c : ContinuityChange)
    → ((classify a b ≡ distinct_subject) ↔ (a.subject ≢ b.subject))
      × ((classify a b ≡ identical) ↔ (a ≡ b))
      × ((classify a b ≡ continuous c)
          ↔ ((a.subject ≡ b.subject) × (c ≡ change a b) × (any c ≡ true)))
unfolding classify any
classify_iff a b c = (distinct, same, changed)
  where
    distinct : (classify a b ≡ distinct_subject) ↔ (a.subject ≢ b.subject)
    distinct = (
      λ h e. ground (arith, ==_refl a.subject),
      λ h. elim (Bool-cases (a.subject == b.subject)) [
        | inl e ↦ absurd (h (eq_of_== a.subject b.subject e))
        | inr e ↦ ground arith
      ],
    )

    same : (classify a b ≡ identical) ↔ (a ≡ b)
    same = (
      λ h.
          let subject = eq_of_== a.subject b.subject (ground arith) in
          let controller = ((change_iff a b).0).0 (ground arith) in
          let runtime = ((change_iff a b).1).0 (ground arith) in
          let model = ((change_iff a b).2).0 (ground arith) in
          λ i. record {
            subject = subject i;
            controller = controller i;
            runtime = runtime i;
            model = model i;
          },
      λ h. subst (λ x. classify a x ≡ identical) h (classify_refl a),
    )

    changed :
        (classify a b ≡ continuous c)
        ↔ ((a.subject ≡ b.subject) × (c ≡ change a b) × (any c ≡ true))
    changed = (
      λ h. (eq_of_== a.subject b.subject (ground arith), ground arith, ground arith),
      λ (s, e, n). ground (arith, ==_refl a.subject),
    )

-- Rebinding serves the same subject, whatever replaces the components.
pub rebind-classify :
    (a : SubjectBinding) (c : ControllerId) (r : RuntimeId) (m : Option ModelId)
    → (classify a (rebind a c r m) ≢ distinct_subject) × ((rebind a c r m).subject ≡ a.subject)
unfolding rebind
rebind-classify a c r m = (λ h. (((classify_iff a (rebind a c r m) (change a a)).0).0 h) refl, refl)
