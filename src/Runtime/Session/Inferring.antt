-- ===== src/Runtime/Session/Inferring.antt =====
-- `propose` of session.rs: a round of candidates through the inference port.
use artificial_intelligence.Base.{
  List, Result-cases, arith, err, if◌then◌else◌, inl, inr, ok, some, subst, sym, ◌≡◌,
}
use artificial_intelligence.Contracts.Capability.{capability_name_ord}
use artificial_intelligence.Contracts.Identifier.{OperationId, identifier_ord}
use artificial_intelligence.Contracts.Error.{FoundationError}
use artificial_intelligence.Contracts.Error.Failures.{runtime_inactive, inference_unavailable}
use artificial_intelligence.Runtime.Activation.{may_initiate}
use artificial_intelligence.Runtime.Ports.{PortError, Candidate, IdentifierGeneration, Inference}
use artificial_intelligence.Runtime.Session.{RuntimeSession}
use artificial_intelligence.Runtime.Session.Invariant.{IsValid}
use artificial_intelligence.Runtime.Session.Propose.{propose_candidates, propose}
use artificial_intelligence.Runtime.Session.Transaction.{propose_candidates_transactional}
use artificial_intelligence.Runtime.Session.Batch.{propose_candidates-IsValid}

module _ {P I Q G : Type 0} ⦃inf : Inference I Q P⦄ ⦃gen : IdentifierGeneration G⦄ where
  -- Through the inference port, too, a failed round leaves the session exactly as it was.
  pub propose_transactional :
      (op : OperationId) (request : Q) (i : I) (g : G) (s : RuntimeSession P) (e : FoundationError)
      → (propose op request i g s).0 ≡ err e
      → (propose op request i g s).3 ≡ s
  unfolding propose
  propose_transactional op request i g s e h = elim (Result-cases (inf.propose i request).0) [
    | inl (cs, k) ↦ ground (arith, propose_candidates_transactional op cs g s e)
    | inr (x, k) ↦ ground arith
  ]

  pub propose_after :
      (op : OperationId) (request : Q) (i : I) (g : G) (s : RuntimeSession P)
      (cs : List (Candidate P))
      → (inf.propose i request).0 ≡ ok cs
      → (propose op request i g s).3 ≡ (propose_candidates op cs g s).2
  unfolding propose propose_candidates
  propose_after op request i g s cs k = ground arith

  pub propose_answers :
      (op : OperationId) (request : Q) (i : I) (g : G) (s : RuntimeSession P)
      (cs : List (Candidate P))
      → (inf.propose i request).0 ≡ ok cs
      → (propose op request i g s).0 ≡ (propose_candidates op cs g s).0
  unfolding propose propose_candidates
  propose_answers op request i g s cs k = ground arith

  pub propose_unanswered :
      (op : OperationId) (request : Q) (i : I) (g : G) (s : RuntimeSession P) (x : PortError)
      → (inf.propose i request).0 ≡ err x
      → (y : FoundationError) × ((propose op request i g s).0 ≡ err y)
  unfolding propose
  propose_unanswered op request i g s x k = (
    if may_initiate s.activation
        then inference_unavailable (some op)
        else runtime_inactive (some op),
    ground arith,
  )

  pub propose-IsValid :
      (op : OperationId) (request : Q) (i : I) (g : G) (s : RuntimeSession P)
      → IsValid s
      → IsValid (propose op request i g s).3
  unfolding propose
  propose-IsValid op request i g s v = elim (Result-cases (inf.propose i request).0) [
    | inl (cs, k) ↦
        subst IsValid (sym (propose_after op request i g s cs k))
          (propose_candidates-IsValid op cs g s v)
    | inr (x, k) ↦ subst IsValid (ground arith) v
  ]
