-- ===== src/Runtime/Session/History.antt =====
-- A session over any sequence of calls of the methods of session.rs that change it. The states of
-- the ports stand in the calls, so that every history of the ports is covered.
use artificial_intelligence.Base.{List, Option, [], refl, ◌∙◌, ◌∷◌}
use artificial_intelligence.Contracts.Identifier.{ProposalId, OperationId, identifier_ord}
use artificial_intelligence.Runtime.Activation.{ActivationState, ActivationTransition}
use artificial_intelligence.Runtime.Continuity.{SubjectBinding}
use artificial_intelligence.Runtime.Ports.{
  Candidate, Clock, IdentifierGeneration, Inference, Authority,
}
use artificial_intelligence.Runtime.Session
use artificial_intelligence.Runtime.Session.{RuntimeSession}
use artificial_intelligence.Runtime.Session.Propose
use artificial_intelligence.Runtime.Session.Admit
use artificial_intelligence.Runtime.Session.Admit.{Admitted}
use artificial_intelligence.Runtime.Session.Invariant.{
  IsValid, apply_activation-IsValid, ensure_activation-IsValid, rebind-IsValid, wake-IsValid,
}
use artificial_intelligence.Runtime.Session.Batch.{propose_candidates-IsValid}
use artificial_intelligence.Runtime.Session.Inferring.{propose-IsValid}
use artificial_intelligence.Runtime.Session.Identity.{
  SameIdentity, apply_activation-SameIdentity, ensure_activation-SameIdentity, rebind-SameIdentity,
  wake-SameIdentity, propose-SameIdentity, propose_candidates-SameIdentity, admit-SameIdentity,
  dispatch-SameIdentity,
}
use artificial_intelligence.Runtime.Session.Authority.{admit-IsValid}
use artificial_intelligence.Runtime.Session.Dispatching.{dispatch-IsValid}

pub data Call (P R C I Q G A : Type 0) : Type 0 where
  apply_activation : Option OperationId → ActivationTransition → Call P R C I Q G A
  ensure_activation : Option OperationId → ActivationState → Call P R C I Q G A
  rebind : Option OperationId → SubjectBinding → Call P R C I Q G A
  wake : OperationId → R → C → Call P R C I Q G A
  propose : OperationId → Q → I → G → Call P R C I Q G A
  propose_candidates : OperationId → List (Candidate P) → G → Call P R C I Q G A
  admit : OperationId → ProposalId → A → Call P R C I Q G A
  dispatch : OperationId → Admitted P → Call P R C I Q G A

module _ {P R C I Q G A : Type 0} ⦃clk : Clock C⦄ ⦃inf : Inference I Q P⦄
    ⦃gen : IdentifierGeneration G⦄ ⦃aut : Authority A P⦄ where
  -- The session after a call, whether the call returned or failed.
  unfoldable pub perform : Call P R C I Q G A → RuntimeSession P → RuntimeSession P
  perform (apply_activation op tr) s = (Session.apply_activation op tr s).1
  perform (ensure_activation op target) s = (Session.ensure_activation op target s).1
  perform (rebind op b) s = (Session.rebind op b s).1
  perform (wake op reason clock) s = (Session.wake op reason clock s).1
  perform (propose op request i g) s = (Propose.propose op request i g s).3
  perform (propose_candidates op cs g) s = (Propose.propose_candidates op cs g s).2
  perform (admit op id authority) s = (Admit.admit op id authority s).1
  perform (dispatch op admitted) s = (Admit.dispatch op admitted s).1

  unfoldable pub run : List (Call P R C I Q G A) → RuntimeSession P → RuntimeSession P
  run [] s = s
  run (c ∷ cs) s = run cs (perform c s)

  pub perform-IsValid :
      (c : Call P R C I Q G A) (s : RuntimeSession P) → IsValid s → IsValid (perform c s)
  unfolding perform
  perform-IsValid (apply_activation op tr) s v = apply_activation-IsValid op tr s v
  perform-IsValid (ensure_activation op target) s v = ensure_activation-IsValid op target s v
  perform-IsValid (rebind op b) s v = rebind-IsValid op b s v
  perform-IsValid (wake op reason clock) s v = wake-IsValid op reason clock s v
  perform-IsValid (propose op request i g) s v = propose-IsValid op request i g s v
  perform-IsValid (propose_candidates op cs g) s v = propose_candidates-IsValid op cs g s v
  perform-IsValid (admit op id authority) s v = admit-IsValid authority op id s v
  perform-IsValid (dispatch op admitted) s v = dispatch-IsValid op admitted s v

  -- A valid session stays valid over any sequence of calls, failing ones included.
  pub run-IsValid :
      (cs : List (Call P R C I Q G A)) (s : RuntimeSession P) → IsValid s → IsValid (run cs s)
  unfolding run
  run-IsValid [] s v = v
  run-IsValid (c ∷ cs) s v = run-IsValid cs (perform c s) (perform-IsValid c s v)

  pub perform-SameIdentity :
      (c : Call P R C I Q G A) (s : RuntimeSession P) → SameIdentity s (perform c s)
  unfolding perform
  perform-SameIdentity (apply_activation op tr) s = apply_activation-SameIdentity op tr s
  perform-SameIdentity (ensure_activation op target) s = ensure_activation-SameIdentity op target s
  perform-SameIdentity (rebind op b) s = rebind-SameIdentity op b s
  perform-SameIdentity (wake op reason clock) s = wake-SameIdentity op reason clock s
  perform-SameIdentity (propose op request i g) s = propose-SameIdentity op request i g s
  perform-SameIdentity (propose_candidates op cs g) s = propose_candidates-SameIdentity op cs g s
  perform-SameIdentity (admit op id authority) s = admit-SameIdentity authority op id s
  perform-SameIdentity (dispatch op admitted) s = dispatch-SameIdentity op admitted s

  -- No sequence of calls changes the session's identifier, its delegation scope or its subject.
  pub run-SameIdentity :
      (cs : List (Call P R C I Q G A)) (s : RuntimeSession P) → SameIdentity s (run cs s)
  unfolding run
  run-SameIdentity [] s = record { session_id = refl; scope = refl; subject = refl }
  run-SameIdentity (c ∷ cs) s =
      let first = perform-SameIdentity c s in
      let rest = run-SameIdentity cs (perform c s) in
      record {
        session_id = rest.session_id ∙ first.session_id;
        scope = rest.scope ∙ first.scope;
        subject = rest.subject ∙ first.subject;
      }
