-- ===== src/Runtime/Session/Authority.antt =====
-- `admit` and `dispatch`: what an authority's decision can bring about.
use artificial_intelligence.Base.{
  Bool-cases, Option-cases, Result-cases, arith, err, false, inl, inr, leb, ok, some, subst, sym,
  true, ◌+◌, ◌<◌, ◌↔◌, ◌≡◌, ◌⊎◌,
}
use artificial_intelligence.BTree.{get, remove}
use artificial_intelligence.BTree.Sorted.{remove-IsSorted}
use artificial_intelligence.Contracts.Decimal.{u64_max}
use artificial_intelligence.Contracts.Scalar.{IsU64, next}
use artificial_intelligence.Contracts.Version.{current}
use artificial_intelligence.Contracts.Capability.{CapabilityName}
use artificial_intelligence.Contracts.Capability.{capability_name_ord}
use artificial_intelligence.Contracts.Identifier.{ProposalId, OperationId, identifier_ord}
use artificial_intelligence.Contracts.Error.{FoundationError}
use artificial_intelligence.Contracts.Error.Failures.{authority_withheld, authority_scope_exceeded}
use artificial_intelligence.Contracts.Envelope.{ProposalEnvelope}
use artificial_intelligence.Runtime.Activation.{may_settle_in_flight}
use artificial_intelligence.Runtime.Scope.{permits}
use artificial_intelligence.Runtime.Ports
use artificial_intelligence.Runtime.Ports.{Authority, AuthorityDecision, withhold}
use artificial_intelligence.Runtime.Session.{RuntimeSession}
use artificial_intelligence.Runtime.Session.Admit.{Admitted, settle_decision, admit}
use artificial_intelligence.Runtime.Session.Invariant.{IsOwned-mono, IsOwned-remove, IsValid}

-- The session without a proposal that was refused, one revision on.
abbrev pub released : {P : Type 0} → ProposalId → RuntimeSession P → RuntimeSession P
released id s = record s { pending = remove id s.pending; revision = s.revision + 1 }

module _ {P A : Type 0} ⦃a : Authority A P⦄ where
  -- The one way to an admission: the session may settle work, it holds the proposal `e` under the
  -- identifier, the authority admitted that very proposal under `c`, and the scope permits `c`.
  pub record Grants (authority : A) (op : OperationId) (id : ProposalId) (s t : RuntimeSession P)
      (admitted : Admitted P) (e : ProposalEnvelope P) (c : CapabilityName) : Type 0 where
    pub settles : may_settle_in_flight s.activation ≡ true
    pub held : get id s.pending ≡ some e
    pub decided : a.decide authority e ≡ ok (Ports.admit c)
    pub permitted : permits s.scope c ≡ true
    pub below_ceiling : (s.sequence < u64_max) × (s.revision < u64_max)
    pub carries : admitted ≡ record {
      envelope = record {
        contract_version = current;
        operation_id = op;
        proposal_id = e.proposal_id;
        sequence = s.sequence + 1;
        granted_capability = c;
        action = e.proposal;
      };
    }
    pub after : t ≡ record s {
      pending = remove id s.pending;
      sequence = s.sequence + 1;
      revision = s.revision + 1;
    }

  Grants-of_decision :
      (authority : A) (op : OperationId) (id : ProposalId) (s t : RuntimeSession P)
      (admitted : Admitted P) (e : ProposalEnvelope P) (d : AuthorityDecision)
      → get id s.pending ≡ some e
      → a.decide authority e ≡ ok d
      → admit op id authority s ≡ (ok admitted, t)
      → (c : CapabilityName) × Grants authority op id s t admitted e c
  unfolding admit settle_decision next
  Grants-of_decision authority op id s t admitted e withhold g k h = absurd (ground arith)
  Grants-of_decision authority op id s t admitted e (Ports.admit c) g k h = (
    c,
    record {
      settles = ground arith;
      held = g;
      decided = k;
      permitted = ground arith;
      below_ceiling = (ground arith, ground arith);
      carries = ground arith;
      after = ground arith;
    },
  )

  admit-Grants :
      (authority : A) (op : OperationId) (id : ProposalId) (s t : RuntimeSession P)
      (admitted : Admitted P)
      → admit op id authority s ≡ (ok admitted, t)
      → (e : ProposalEnvelope P) × (c : CapabilityName) × Grants authority op id s t admitted e c
  admit-Grants authority op id s t admitted h = elim (Option-cases (get id s.pending)) [
    | inl n ↦ absurd (unfold admit in ground arith)
    | inr (e, g) ↦ elim (Result-cases (a.decide authority e)) [
      | inl (d, k) ↦
          let (c, r) = Grants-of_decision authority op id s t admitted e d g k h in (e, c, r)
      | inr (x, k) ↦ absurd (unfold admit in ground arith)
    ]
  ]

  Grants-admit :
      (authority : A) (op : OperationId) (id : ProposalId) (s t : RuntimeSession P)
      (admitted : Admitted P) (e : ProposalEnvelope P) (c : CapabilityName)
      → Grants authority op id s t admitted e c
      → admit op id authority s ≡ (ok admitted, t)
  unfolding admit settle_decision next
  Grants-admit authority op id s t admitted e c r =
      ground (arith, r.settles, r.held, r.decided, r.permitted, r.below_ceiling, r.carries, r.after)

  -- An admission is made exactly in the way of `Grants`: there is no other, and that one always
  -- succeeds, with the session left as `Grants` says.
  pub admit_iff :
      (authority : A) (op : OperationId) (id : ProposalId) (s t : RuntimeSession P)
      (admitted : Admitted P)
      → (admit op id authority s ≡ (ok admitted, t)) ↔ (
          (e : ProposalEnvelope P) × (c : CapabilityName) × Grants authority op id s t admitted e c)
  admit_iff authority op id s t admitted = (
    admit-Grants authority op id s t admitted,
    λ (e, c, r). Grants-admit authority op id s t admitted e c r,
  )

  -- A proposal is released by a refusal only on a decision of the authority.
  abbrev pub Refused : A → OperationId → ProposalId → RuntimeSession P → FoundationError → Type 0
  Refused authority op id s x =
      (e : ProposalEnvelope P) × (get id s.pending ≡ some e)
      × (((a.decide authority e ≡ ok withhold)
            × (x ≡ authority_withheld (some op) e.proposal_id e.requested_capability))
          ⊎ ((c : CapabilityName) × (a.decide authority e ≡ ok (Ports.admit c))
              × (permits s.scope c ≡ false)
              × (x ≡ authority_scope_exceeded (some op) e.proposal_id c)))

  refusal_of_decision :
      (authority : A) (op : OperationId) (id : ProposalId) (s t : RuntimeSession P)
      (x : FoundationError) (e : ProposalEnvelope P) (d : AuthorityDecision)
      → get id s.pending ≡ some e
      → a.decide authority e ≡ ok d
      → settle_decision op id d s ≡ (err x, t)
      → (t ≡ s) ⊎ ((t ≡ released id s) × IsU64 (s.revision + 1) × Refused authority op id s x)
  unfolding settle_decision next
  refusal_of_decision authority op id s t x e withhold g k h =
      elim (Bool-cases (leb (s.revision + 1) u64_max)) [
        | inl fits ↦ inr (ground arith, ground arith, (e, g, inl (k, ground arith)))
        | inr over ↦ inl (ground arith)
      ]
  refusal_of_decision authority op id s t x e (Ports.admit c) g k h =
      elim (Bool-cases (permits s.scope c)) [
        | inl inside ↦ inl (ground arith)
        | inr outside ↦ elim (Bool-cases (leb (s.revision + 1) u64_max)) [
          | inl fits ↦ inr (ground arith, ground arith, (e, g, inr (c, k, outside, ground arith)))
          | inr over ↦ inl (ground arith)
        ]
      ]

  -- When `admit` fails, either the session is as it was, or the authority has decided against the
  -- proposal it holds, by withholding or by a grant outside the scope, and exactly that proposal
  -- is released, with one revision.
  pub admit_refusal :
      (authority : A) (op : OperationId) (id : ProposalId) (s t : RuntimeSession P)
      (x : FoundationError)
      → admit op id authority s ≡ (err x, t)
      → (t ≡ s) ⊎ ((t ≡ released id s) × IsU64 (s.revision + 1) × Refused authority op id s x)
  admit_refusal authority op id s t x h = elim (Option-cases (get id s.pending)) [
    | inl n ↦ inl (unfold admit in ground arith)
    | inr (e, g) ↦ elim (Result-cases (a.decide authority e)) [
      | inl (d, k) ↦ elim (Bool-cases (may_settle_in_flight s.activation)) [
        | inl live ↦
            refusal_of_decision authority op id s t x e d g k (unfold admit in ground arith)
        | inr shut ↦ inl (unfold admit in ground arith)
      ]
      | inr (y, k) ↦ inl (unfold admit in ground arith)
    ]
  ]

  -- Admission keeps the session valid, whether it succeeds or fails.
  pub admit-IsValid :
      (authority : A) (op : OperationId) (id : ProposalId) (s : RuntimeSession P)
      → IsValid s
      → IsValid (admit op id authority s).1
  admit-IsValid authority op id s v = elim (Result-cases (admit op id authority s).0) [
    | inl (x, k) ↦
        let (e, c, r) =
          (admit_iff authority op id s _ x).0 (λ i. (k i, (admit op id authority s).1)) in
        subst IsValid (sym r.after) (record {
          sorted = remove-IsSorted id s.pending v.sorted;
          owned =
              IsOwned-mono s.sequence (s.sequence + 1) (remove id s.pending) (omega arith)
                (IsOwned-remove s.sequence id s.pending v.owned);
          scope_sorted = v.scope_sorted;
          sequence_fits = omega (arith, r.below_ceiling);
          revision_fits = omega (arith, r.below_ceiling);
        })
    | inr (x, k) ↦
        elim (admit_refusal authority op id s _ x (λ i. (k i, (admit op id authority s).1))) [
          | inl same ↦ subst IsValid (sym same) v
          | inr (after, fits, _) ↦ subst IsValid (sym after) (record {
            sorted = remove-IsSorted id s.pending v.sorted;
            owned = IsOwned-remove s.sequence id s.pending v.owned;
            scope_sorted = v.scope_sorted;
            sequence_fits = v.sequence_fits;
            revision_fits = fits;
          })
        ]
  ]
