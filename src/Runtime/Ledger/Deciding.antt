-- ===== src/Runtime/Ledger/Deciding.antt =====
-- The calls of session.rs, failing ones included, as steps of the book, and what they decide over
-- any sequence of calls.
use artificial_intelligence.Base.{
  Any, List, Result-cases, [], ap, arith, inl, inr, refl, some, subst, sym, ◌++◌, ◌∙◌, ◌∷◌, ◌≡◌,
  ◌⊎◌,
}
use artificial_intelligence.BTree.{get}
use artificial_intelligence.Contracts.Scalar.{DecimalU64, next}
use artificial_intelligence.Contracts.Identifier.{ProposalId, identifier_ord}
use artificial_intelligence.Contracts.Envelope.{ProposalEnvelope}
use artificial_intelligence.Runtime.Ports.{Clock, IdentifierGeneration, Inference, Authority}
use artificial_intelligence.Runtime.Session
use artificial_intelligence.Runtime.Session.{RuntimeSession}
use artificial_intelligence.Runtime.Session.Propose
use artificial_intelligence.Runtime.Session.Admit
use artificial_intelligence.Runtime.Session.Admit.{Admitted}
use artificial_intelligence.Runtime.Session.Inferring.{
  propose_after, propose_transactional, propose_unanswered,
}
use artificial_intelligence.Runtime.Session.History.{
  Call, apply_activation, ensure_activation, rebind, wake, propose, propose_candidates, admit,
  dispatch, perform, run,
}
use artificial_intelligence.Runtime.Ledger.{Course, done, onward, settlements, IsSound, AreDistinct}
use artificial_intelligence.Runtime.Ledger.Keeping.{held_or_settled}
use artificial_intelligence.Runtime.Ledger.Settling.{settlements-AreDistinct}
use artificial_intelligence.Runtime.Ledger.Refining.{
  ledger, decided_by, Settles, unchanged, aside, candidates_step, admission_step,
}

module _ {P R C I Q G A : Type 0} ⦃clk : Clock C⦄ ⦃inf : Inference I Q P⦄
    ⦃gen : IdentifierGeneration G⦄ ⦃aut : Authority A P⦄ where
  -- The sequence of the proposal that a call decides, for good.
  unfoldable pub decided : Call P R C I Q G A → RuntimeSession P → List DecimalU64
  decided (admit op id authority) s =
      let (r, t) = Admit.admit op id authority s in
      decided_by r (get id s.pending) (get id t.pending)
  decided _ s = []

  -- The proposals that a history decides, by their sequences, in order.
  unfoldable pub decisions : List (Call P R C I Q G A) → RuntimeSession P → List DecimalU64
  decisions [] s = []
  decisions (c ∷ cs) s = decided c s ++ decisions cs (perform c s)

  -- Every call of session.rs, failing ones included, is a step of the book: it leaves the proposals
  -- alone and takes at most one sequence, or records a batch of new ones, or settles one that was
  -- held; and what it settles is what the call decides.
  pub perform-Settles :
      (c : Call P R C I Q G A) (s : RuntimeSession P) → Settles s (perform c s) (decided c s)
  unfolding decided perform
  perform-Settles (apply_activation op tr) s =
      aside s (Session.apply_activation op tr s).1 (unfold Session.apply_activation in ground arith)
        (unfold Session.apply_activation in ground arith)
  perform-Settles (ensure_activation op target) s =
      aside s (Session.ensure_activation op target s).1
        (unfold Session.ensure_activation in ground arith)
        (unfold Session.ensure_activation in ground arith)
  perform-Settles (rebind op b) s =
      aside s (Session.rebind op b s).1 (unfold Session.rebind in ground arith)
        (unfold Session.rebind in ground arith)
  perform-Settles (wake op reason clock) s =
      aside s (Session.wake op reason clock s).1 (unfold Session.wake in ground arith)
        (unfold Session.wake in ground arith)
  perform-Settles (propose op request i g) s = elim (Result-cases (inf.propose i request).0) [
    | inl (cs, k) ↦
        subst (λ t. Settles s t []) (sym (propose_after op request i g s cs k))
          (candidates_step op cs g s)
    | inr (x, k) ↦
        let (y, e) = propose_unanswered op request i g s x k in
        unchanged s (Propose.propose op request i g s).3
          (propose_transactional op request i g s y e)
  ]
  perform-Settles (propose_candidates op cs g) s = candidates_step op cs g s
  perform-Settles (admit op id authority) s = admission_step op id authority s
  perform-Settles (dispatch op a) s =
      aside s (Admit.dispatch op a s).1 (unfold Admit.dispatch next in ground arith)
        (unfold Admit.dispatch next in ground arith)

  run-Course :
      (cs : List (Call P R C I Q G A)) (s : RuntimeSession P)
      → (p : Course (ledger (run cs s)) (ledger s)) × (settlements p ≡ decisions cs s)
  unfolding decisions run
  run-Course [] s = (done, refl)
  run-Course (c ∷ cs) s =
      let (st, e) = perform-Settles c s in
      let (p, k) = run-Course cs (perform c s) in
      (onward st p, ap (λ xs. xs ++ settlements p) e ∙ ap (λ ys. decided c s ++ ys) k)

  -- From a session whose proposals have sequences of their own, up to its counter: over any calls,
  -- no proposal is decided twice.
  pub decisions-AreDistinct :
      (cs : List (Call P R C I Q G A)) (s : RuntimeSession P)
      → IsSound (ledger s)
      → AreDistinct (decisions cs s)
  decisions-AreDistinct cs s h =
      let (p, e) = run-Course cs s in subst AreDistinct e (settlements-AreDistinct p h)

  -- No proposal is lost: over any calls, one that a session holds is still held at the end, exactly
  -- as it was, or it has been decided on the way.
  pub pending_or_decided :
      (cs : List (Call P R C I Q G A)) (s : RuntimeSession P) (id : ProposalId)
      (e : ProposalEnvelope P)
      → get id s.pending ≡ some e
      → (get id (run cs s).pending ≡ some e) ⊎ Any (λ q. q ≡ e.sequence) (decisions cs s)
  pending_or_decided cs s id e h =
      let (p, k) = run-Course cs s in
      elim (held_or_settled p id e h) [
        | inl kept ↦ inl kept
        | inr gone ↦ inr (subst (Any (λ q. q ≡ e.sequence)) k gone)
      ]
