-- ===== src/Runtime/Session/Retrying.antt =====
-- Which failed calls of session.rs may be repeated: what a retryable code says of the session.
use artificial_intelligence.Base.{Option, Result, arith, err, inl, inr, none, ok, some, true, ◌≡◌}
use artificial_intelligence.Contracts.Scalar.{next}
use artificial_intelligence.Contracts.Identifier.{identifier_ord}
use artificial_intelligence.Contracts.Error.{FoundationError, is_retryable, kind}
use artificial_intelligence.Runtime.Ports.{Clock, IdentifierGeneration, Inference, Authority}
use artificial_intelligence.Runtime.Session
use artificial_intelligence.Runtime.Session.{RuntimeSession, port_failure}
use artificial_intelligence.Runtime.Session.Propose
use artificial_intelligence.Runtime.Session.Admit
use artificial_intelligence.Runtime.Session.Transaction.{propose_candidates_transactional}
use artificial_intelligence.Runtime.Session.Inferring.{propose_transactional}
use artificial_intelligence.Runtime.Session.Authority.{admit_refusal}
use artificial_intelligence.Runtime.Session.History.{
  Call, apply_activation, ensure_activation, rebind, wake, propose, propose_candidates, admit,
  dispatch, perform,
}

abbrev error_of {ℓ} : {A : Type ℓ} → Result A FoundationError → Option FoundationError
error_of (ok a) = none
error_of (err e) = some e

error_of-some {ℓ} :
    {A : Type ℓ} (r : Result A FoundationError) (x : FoundationError)
    → error_of r ≡ some x
    → r ≡ err x
error_of-some (ok a) x h = cc
error_of-some (err e) x h = cc

module _ {P R C I Q G A : Type 0} ⦃clk : Clock C⦄ ⦃inf : Inference I Q P⦄
    ⦃gen : IdentifierGeneration G⦄ ⦃aut : Authority A P⦄ where
  -- The error of a call, if it fails.
  unfoldable pub failure : Call P R C I Q G A → RuntimeSession P → Option FoundationError
  failure (apply_activation op tr) s = error_of (Session.apply_activation op tr s).0
  failure (ensure_activation op target) s = error_of (Session.ensure_activation op target s).0
  failure (rebind op b) s = error_of (Session.rebind op b s).0
  failure (wake op reason clock) s = error_of (Session.wake op reason clock s).0
  failure (propose op request i g) s = error_of (Propose.propose op request i g s).0
  failure (propose_candidates op cs g) s = error_of (Propose.propose_candidates op cs g s).0
  failure (admit op id authority) s = error_of (Admit.admit op id authority s).0
  failure (dispatch op a) s = error_of (Admit.dispatch op a s).0

  -- A call that fails with a retryable code leaves the session exactly as it was, so that it can be
  -- made again.
  pub retryable_unchanged :
      (c : Call P R C I Q G A) (s : RuntimeSession P) (x : FoundationError)
      → failure c s ≡ some x
      → is_retryable x.code ≡ true
      → perform c s ≡ s
  unfolding failure perform is_retryable kind
  retryable_unchanged (apply_activation op tr) s x h k =
      unfold Session.apply_activation in ground arith
  retryable_unchanged (ensure_activation op target) s x h k =
      unfold Session.ensure_activation in ground arith
  retryable_unchanged (rebind op b) s x h k = unfold Session.rebind in ground arith
  retryable_unchanged (wake op reason clock) s x h k = unfold Session.wake in ground arith
  retryable_unchanged (propose op request i g) s x h k =
      propose_transactional op request i g s x (error_of-some _ x h)
  retryable_unchanged (propose_candidates op cs g) s x h k =
      propose_candidates_transactional op cs g s x (error_of-some _ x h)
  retryable_unchanged (admit op id authority) s x h k =
      elim (admit_refusal authority op id s (Admit.admit op id authority s).1 x (λ i. (
        error_of-some (Admit.admit op id authority s).0 x h i,
        (Admit.admit op id authority s).1,
      ))) [
        | inl same ↦ same
        | inr (_, _, (e, _, inl (_, w))) ↦ absurd (ground (arith, w))
        | inr (_, _, (e, _, inr (c, _, _, w))) ↦ absurd (ground (arith, w))
      ]
  retryable_unchanged (dispatch op a) s x h k = unfold Admit.dispatch next in ground arith
