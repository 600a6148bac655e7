-- ===== src/Runtime/Session/Invariant.antt =====
-- The invariant of a session, and that its own methods in session.rs keep it.
use artificial_intelligence.Base.{
  Bool-cases, Option, [], arith, eq_of_==, inl, inr, refl, some, ◌==◌, ◌∷◌, ◌≡◌, ◌≤◌, bytes_ord,
}
use artificial_intelligence.BTree.{BTreeMap, get, insert, remove}
use artificial_intelligence.BTree.Sorted.{IsSorted}
use artificial_intelligence.Contracts.Scalar.{DecimalU64, IsU64, next}
use artificial_intelligence.Contracts.Capability.{capability_name_ord}
use artificial_intelligence.Contracts.Identifier.{
  ProposalId, OperationId, SessionId, identifier_ord,
}
use artificial_intelligence.Contracts.Envelope.{ProposalEnvelope}
use artificial_intelligence.Runtime.Activation.{ActivationState, ActivationTransition}
use artificial_intelligence.Runtime.Continuity.{SubjectBinding}
use artificial_intelligence.Runtime.Scope.{DelegationScope}
use artificial_intelligence.Runtime.Ports.{Clock}
use artificial_intelligence.Runtime.Session.{
  RuntimeSession, new, bump_revision, apply_activation, ensure_activation, rebind, wake,
}

module _ {P : Type 0} where
  -- Every entry is keyed by its envelope's identifier, and its sequence has been issued.
  abbrev pub IsOwned : DecimalU64 → BTreeMap ProposalId (ProposalEnvelope P) → Type 0
  IsOwned q [] = Unit
  IsOwned q ((k, e) ∷ m) = (e.proposal_id ≡ k) × (e.sequence ≤ q) × IsOwned q m

  pub IsOwned-mono :
      (q r : DecimalU64) (m : BTreeMap ProposalId (ProposalEnvelope P))
      → q ≤ r
      → IsOwned q m
      → IsOwned r m
  IsOwned-mono q r [] l h = tt
  IsOwned-mono q r ((k, e) ∷ m) l h = (h.0, omega arith, IsOwned-mono q r m l h.2)

  pub IsOwned-insert :
      (q : DecimalU64) (e : ProposalEnvelope P) (m : BTreeMap ProposalId (ProposalEnvelope P))
      → e.sequence ≤ q
      → IsOwned q m
      → IsOwned q (insert e.proposal_id e m)
  unfolding insert
  IsOwned-insert q e [] l h = (refl, l, tt)
  IsOwned-insert q e ((k, f) ∷ m) l h = ground (arith, IsOwned-insert q e m l)

  pub IsOwned-remove :
      (q : DecimalU64) (id : ProposalId) (m : BTreeMap ProposalId (ProposalEnvelope P))
      → IsOwned q m
      → IsOwned q (remove id m)
  unfolding remove
  IsOwned-remove q id [] h = tt
  IsOwned-remove q id ((k, f) ∷ m) h = ground (arith, IsOwned-remove q id m)

  pub IsOwned-get :
      (q : DecimalU64) (id : ProposalId) (m : BTreeMap ProposalId (ProposalEnvelope P))
      (e : ProposalEnvelope P)
      → IsOwned q m
      → get id m ≡ some e
      → (e.proposal_id ≡ id) × (e.sequence ≤ q)
  unfolding get
  IsOwned-get q id [] e h g = cc
  IsOwned-get q id ((k, f) ∷ m) e h g = elim (Bool-cases (k == id)) [
    | inl same ↦ let key = eq_of_== k id same in ground (arith, h)
    | inr other ↦ IsOwned-get q id m e h.2 (ground arith)
  ]

  pub record IsValid (s : RuntimeSession P) : Type 0 where
    pub sorted : IsSorted s.pending
    pub owned : IsOwned s.sequence s.pending
    pub scope_sorted : IsSorted s.scope.held
    pub sequence_fits : IsU64 s.sequence
    pub revision_fits : IsU64 s.revision

  pub new-IsValid :
      (session : SessionId) (b : SubjectBinding) (scope : DelegationScope)
      → IsSorted scope.held
      → IsValid (new {P = P} session b scope)
  unfolding new
  new-IsValid session b scope h = record {
    sorted = tt;
    owned = tt;
    scope_sorted = h;
    sequence_fits = omega arith;
    revision_fits = omega arith;
  }

  pub bump_revision-IsValid : (s : RuntimeSession P) → IsValid s → IsValid (bump_revision s).1
  unfolding bump_revision next
  bump_revision-IsValid s v = ground arith

  pub apply_activation-IsValid :
      (op : Option OperationId) (tr : ActivationTransition) (s : RuntimeSession P)
      → IsValid s
      → IsValid (apply_activation op tr s).1
  unfolding apply_activation next
  apply_activation-IsValid op tr s v = ground arith

  pub ensure_activation-IsValid :
      (op : Option OperationId) (target : ActivationState) (s : RuntimeSession P)
      → IsValid s
      → IsValid (ensure_activation op target s).1
  unfolding ensure_activation next
  ensure_activation-IsValid op target s v = ground arith

  pub rebind-IsValid :
      (op : Option OperationId) (b : SubjectBinding) (s : RuntimeSession P)
      → IsValid s
      → IsValid (rebind op b s).1
  unfolding rebind next
  rebind-IsValid op b s v = ground arith

  pub wake-IsValid :
      {C R : Type 0} ⦃c : Clock C⦄ (op : OperationId) (reason : R) (clock : C)
      (s : RuntimeSession P)
      → IsValid s
      → IsValid (wake op reason clock s).1
  unfolding wake next
  wake-IsValid op reason clock s v = ground arith
