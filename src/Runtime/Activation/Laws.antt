-- ===== src/Runtime/Activation/Laws.antt =====
-- The activation state machine as a whole: the resolver of single steps, and what a run of steps
-- must pass through.
use artificial_intelligence.Base.{
  Bool, Bool-cases, Result-cases, arith, err, false, inl, inr, is_ok, none, ok, some, true, ◌↔◌,
  ◌≡◌, ◌≢◌,
}
use artificial_intelligence.Runtime.Activation.{
  ActivationState, quiescing, ActivationTransition, wake, quiesce, settle, InvalidTransition, apply,
  transition_to, may_initiate,
}

transition_to_stay : (s t : ActivationState) → (transition_to s t ≡ ok none) ↔ (s ≡ t)
unfolding transition_to
transition_to_stay s t = (λ h. ground arith, λ h. ground arith)

transition_to_step :
    (s t : ActivationState) (tr : ActivationTransition)
    → (transition_to s t ≡ ok (some tr)) ↔ (apply s tr ≡ ok t)
unfolding transition_to apply
transition_to_step s t tr = (λ h. ground arith, λ h. ground arith)

transition_to_refused :
    (s t : ActivationState) (e : InvalidTransition)
    → transition_to s t ≡ err e
    → (s ≢ t) × ((tr : ActivationTransition) → apply s tr ≢ ok t)
unfolding transition_to apply
transition_to_refused s t e h = (λ k. ground arith, λ tr k. ground arith)

-- `transition_to` and `apply` agree: no transition is needed exactly at the target, a transition
-- is named exactly if applying it leads to the target, and a refusal means exactly that the state
-- is another and that no transition leads to the target.
pub transition_to_lem :
    (s t : ActivationState) (tr : ActivationTransition)
    → ((transition_to s t ≡ ok none) ↔ (s ≡ t))
      × ((transition_to s t ≡ ok (some tr)) ↔ (apply s tr ≡ ok t))
      × ((is_ok (transition_to s t) ≡ false)
          ↔ ((s ≢ t) × ((step : ActivationTransition) → apply s step ≢ ok t)))
transition_to_lem s t tr = (transition_to_stay s t, transition_to_step s t tr, (refused, complete))
  where
    refused :
        is_ok (transition_to s t) ≡ false
        → (s ≢ t) × ((step : ActivationTransition) → apply s step ≢ ok t)
    refused h = elim (Result-cases (transition_to s t)) [
      | inl (o, e) ↦ ground arith
      | inr (x, e) ↦ transition_to_refused s t x e
    ]

    complete :
        (s ≢ t) × ((step : ActivationTransition) → apply s step ≢ ok t)
        → is_ok (transition_to s t) ≡ false
    complete (other, unreached) = elim (Result-cases (transition_to s t)) [
      | inl (none, e) ↦ absurd (other ((transition_to_stay s t).0 e))
      | inl (some step, e) ↦ absurd (unreached step ((transition_to_step s t step).0 e))
      | inr (x, e) ↦ ground (arith, e)
    ]

-- Successive transitions, each of which the machine defines.
pub data Run (s : ActivationState) : ActivationState → Type 0 where
  start : Run s s
  step : {t u : ActivationState} (tr : ActivationTransition) → Run s t → apply t tr ≡ ok u → Run s u

-- Whether a run passes through the dormant state after its start.
abbrev pub settles : {s t : ActivationState} → Run s t → Bool
settles start = false
settles (step wake r e) = settles r
settles (step quiesce r e) = settles r
settles (step settle r e) = true

-- Where a run from the quiescing state stands while it has not settled.
run_before_settling :
    {s t : ActivationState} (r : Run s t) → s ≡ quiescing → settles r ≡ false → t ≡ quiescing
unfolding apply
run_before_settling start q h = q
run_before_settling (step {t = t} {u = u} wake r e) q h = ground (arith, run_before_settling r q)
run_before_settling (step {t = t} {u = u} quiesce r e) q h = ground (arith, run_before_settling r q)
run_before_settling (step settle r e) q h = cc

-- A quiescing runtime starts new work again only after it has settled.
pub initiates_after_settling :
    (s t : ActivationState) (r : Run s t) → s ≡ quiescing → may_initiate t ≡ true → settles r ≡ true
unfolding may_initiate
initiates_after_settling s t r q h = elim (Bool-cases (settles r)) [
  | inl e ↦ e
  | inr e ↦ ground (arith, run_before_settling r q e)
]
