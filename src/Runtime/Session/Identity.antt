-- ===== src/Runtime/Session/Identity.antt =====
-- What no method of session.rs may change: whose session it is, and what it may be granted.
use artificial_intelligence.Base.{
  List, Option, Result-cases, ap, arith, eq_of_==, inl, inr, refl, subst, sym, ◌≡◌,
}
use artificial_intelligence.Contracts.Identifier.{ProposalId, OperationId, identifier_ord}
use artificial_intelligence.Runtime.Activation.{ActivationState, ActivationTransition}
use artificial_intelligence.Runtime.Continuity.{SubjectBinding, classify}
use artificial_intelligence.Runtime.Ports.{
  Candidate, Clock, IdentifierGeneration, Inference, Authority,
}
use artificial_intelligence.Runtime.Session.{
  RuntimeSession, apply_activation, ensure_activation, rebind, wake,
}
use artificial_intelligence.Runtime.Session.Propose.{propose_candidates, propose}
use artificial_intelligence.Runtime.Session.Admit.{Admitted, admit, dispatch}
use artificial_intelligence.Runtime.Session.Transaction.{propose_candidates_transactional}
use artificial_intelligence.Runtime.Session.Batch.{propose_candidates_commits}
use artificial_intelligence.Runtime.Session.Inferring.{propose_after}
use artificial_intelligence.Runtime.Session.Authority.{admit_iff, admit_refusal}

module _ {P : Type 0} where
  pub record SameIdentity (s t : RuntimeSession P) : Type 0 where
    pub session_id : t.session_id ≡ s.session_id
    pub scope : t.scope ≡ s.scope
    pub subject : t.binding.subject ≡ s.binding.subject

  same : {s t : RuntimeSession P} → t ≡ s → SameIdentity s t
  same {s} e =
      subst (SameIdentity s) (sym e) (record { session_id = refl; scope = refl; subject = refl })

  pub apply_activation-SameIdentity :
      (op : Option OperationId) (tr : ActivationTransition) (s : RuntimeSession P)
      → SameIdentity s (apply_activation op tr s).1
  unfolding apply_activation
  apply_activation-SameIdentity op tr s = ground arith

  pub ensure_activation-SameIdentity :
      (op : Option OperationId) (target : ActivationState) (s : RuntimeSession P)
      → SameIdentity s (ensure_activation op target s).1
  unfolding ensure_activation
  ensure_activation-SameIdentity op target s = ground arith

  pub rebind-SameIdentity :
      (op : Option OperationId) (b : SubjectBinding) (s : RuntimeSession P)
      → SameIdentity s (rebind op b s).1
  unfolding rebind classify
  rebind-SameIdentity op b s = ground (arith, eq_of_== s.binding.subject b.subject)

  pub wake-SameIdentity :
      {C R : Type 0} ⦃c : Clock C⦄ (op : OperationId) (reason : R) (clock : C)
      (s : RuntimeSession P)
      → SameIdentity s (wake op reason clock s).1
  unfolding wake
  wake-SameIdentity op reason clock s = ground arith

  pub propose_candidates-SameIdentity :
      {G : Type 0} ⦃ids : IdentifierGeneration G⦄ (op : OperationId) (cs : List (Candidate P))
      (g : G) (s : RuntimeSession P)
      → SameIdentity s (propose_candidates op cs g s).2
  propose_candidates-SameIdentity op cs g s = elim (Result-cases (propose_candidates op cs g s).0) [
    | inl (ids, e) ↦
        let (fresh, c) = propose_candidates_commits op cs g s ids e in
        record {
          session_id = c.frame.0;
          scope = c.frame.2;
          subject = ap (λ (b : SubjectBinding). b.subject) c.frame.1;
        }
    | inr (x, e) ↦ same (propose_candidates_transactional op cs g s x e)
  ]

  pub propose-SameIdentity :
      {I Q G : Type 0} ⦃inf : Inference I Q P⦄ ⦃ids : IdentifierGeneration G⦄ (op : OperationId)
      (request : Q) (i : I) (g : G) (s : RuntimeSession P)
      → SameIdentity s (propose op request i g s).3
  propose-SameIdentity ⦃inf⦄ op request i g s = elim (Result-cases (inf.propose i request).0) [
    | inl (cs, k) ↦
        subst (SameIdentity s) (sym (propose_after op request i g s cs k))
          (propose_candidates-SameIdentity op cs g s)
    | inr (x, k) ↦ same (unfold propose in ground arith)
  ]

  pub admit-SameIdentity :
      {A : Type 0} ⦃a : Authority A P⦄ (authority : A) (op : OperationId) (id : ProposalId)
      (s : RuntimeSession P)
      → SameIdentity s (admit op id authority s).1
  admit-SameIdentity authority op id s =
      let t = (admit op id authority s).1 in
      elim (Result-cases (admit op id authority s).0) [
        | inl (x, k) ↦
            let (e, c, r) = (admit_iff authority op id s t x).0 (λ i. (k i, t)) in
            subst (SameIdentity s) (sym r.after)
              (record { session_id = refl; scope = refl; subject = refl })
        | inr (x, k) ↦ elim (admit_refusal authority op id s t x (λ i. (k i, t))) [
          | inl e ↦ same e
          | inr (e, _, _) ↦
              subst (SameIdentity s) (sym e)
                (record { session_id = refl; scope = refl; subject = refl })
        ]
      ]

  pub dispatch-SameIdentity :
      (op : OperationId) (admitted : Admitted P) (s : RuntimeSession P)
      → SameIdentity s (dispatch op admitted s).1
  unfolding dispatch
  dispatch-SameIdentity op admitted s = ground arith
