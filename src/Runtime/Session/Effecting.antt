-- ===== src/Runtime/Session/Effecting.antt =====
-- How a proposal gets to its effect: proposing, admitting and dispatching one after the other.
use artificial_intelligence.Base.{
  ==_refl, List, [], ap, arith, none, ok, refl, some, subst, true, ◌+◌, ◌∙◌, ◌∷◌, ◌≡◌, ◌≤◌,
  bytes_ord,
}
use artificial_intelligence.BTree.{get, remove}
use artificial_intelligence.Contracts.Decimal.{u64_max}
use artificial_intelligence.Contracts.Scalar.{DecimalU64}
use artificial_intelligence.Contracts.Identifier.{ProposalId, OperationId, identifier_ord}
use artificial_intelligence.Contracts.Envelope.{ProposalEnvelope}
use artificial_intelligence.Runtime.Activation.{
  ActivationState, active, dormant, quiescing, may_initiate,
}
use artificial_intelligence.Runtime.Ports
use artificial_intelligence.Runtime.Ports.{Candidate, IdentifierGeneration, Authority}
use artificial_intelligence.Runtime.Scope.{permits}
use artificial_intelligence.Contracts.Capability.{CapabilityName}
use artificial_intelligence.Contracts.Envelope.{EffectRequestEnvelope}
use artificial_intelligence.Contracts.Version.{current}
use artificial_intelligence.Runtime.Activation.{may_settle_in_flight}
use artificial_intelligence.Runtime.Session.Admit.{Admitted, admit, dispatch}
use artificial_intelligence.Runtime.Session.Authority.{Grants, admit_iff}
use artificial_intelligence.Runtime.Session.Dispatching.{dispatch_iff}
use artificial_intelligence.Runtime.Session.{RuntimeSession}
use artificial_intelligence.Runtime.Session.Propose.{mint, propose_candidates}
use artificial_intelligence.Runtime.Session.Batch.{Committed, propose_candidates_commits}
use artificial_intelligence.Runtime.Session.Succeeding.{propose_candidates_succeeds}

initiating-settles : (s : ActivationState) → may_initiate s ≡ true → may_settle_in_flight s ≡ true
unfolding may_initiate may_settle_in_flight
initiating-settles active h = refl
initiating-settles dormant h = cc
initiating-settles quiescing h = cc

module _ {P A : Type 0} ⦃aut : Authority A P⦄ where
  -- The effect requested for an envelope, after the admission and the dispatch.
  abbrev pub Effected : OperationId → ProposalId → A → RuntimeSession P → P → DecimalU64 → Type 0
  Effected op id authority t action sequence =
      (a : Admitted P) × (u : RuntimeSession P) × (admit op id authority t ≡ (ok a, u))
      × ((e : EffectRequestEnvelope P) × (v : RuntimeSession P) × (dispatch op a u ≡ (ok e, v))
          × (e.effect ≡ action)
          × (e.sequence ≡ sequence))

  held_reaches_effect :
      (op : OperationId) (id : ProposalId) (authority : A) (granted : CapabilityName)
      (t : RuntimeSession P) (e : ProposalEnvelope P)
      → may_settle_in_flight t.activation ≡ true
      → get id t.pending ≡ some e
      → aut.decide authority e ≡ ok (Ports.admit granted)
      → permits t.scope granted ≡ true
      → t.sequence + 2 ≤ u64_max
      → t.revision + 2 ≤ u64_max
      → Effected op id authority t e.proposal (t.sequence + 2)
  held_reaches_effect op id authority granted t e settles held decision inside room turns =
      let a : Admitted P = record {
        envelope = record {
          contract_version = current;
          operation_id = op;
          proposal_id = e.proposal_id;
          sequence = t.sequence + 1;
          granted_capability = granted;
          action = e.proposal;
        };
      } in
      let u : RuntimeSession P = record t {
        pending = remove id t.pending;
        sequence = t.sequence + 1;
        revision = t.revision + 1;
      } in
      let f : EffectRequestEnvelope P = record {
        contract_version = current;
        operation_id = op;
        sequence = t.sequence + 1 + 1;
        effect = e.proposal;
      } in
      let v : RuntimeSession P = record u {
        sequence = t.sequence + 1 + 1;
        revision = t.revision + 1 + 1;
      } in
      let grants : Grants authority op id t u a e granted = record {
        settles = settles;
        held = held;
        decided = decision;
        permitted = inside;
        below_ceiling = (omega arith, omega arith);
        carries = refl;
        after = refl;
      } in
      (
        a,
        u,
        (admit_iff authority op id t u a).1 (e, granted, grants),
        (
          f,
          v,
          (dispatch_iff op a u v f).1 (omega arith, omega arith, refl, refl),
          refl,
          omega arith,
        ),
      )

module _ {P : Type 0} where
  held_one :
      (op : OperationId) (c : Candidate P) (id : ProposalId) (s t : RuntimeSession P)
      (fresh : List (ProposalEnvelope P))
      → Committed op (c ∷ []) s t (id ∷ []) fresh
      → get id t.pending ≡ some (mint op id (s.sequence + 1) c)
  held_one op c id s t [] k = absurd k.minted
  held_one op c id s t (e ∷ []) k = ground (arith, k.entries id, k.minted.0, k.returned, ==_refl id)
  held_one op c id s t (e ∷ f ∷ es) k = absurd k.minted.1

module _ {P G A : Type 0} ⦃gen : IdentifierGeneration G⦄ ⦃aut : Authority A P⦄ where
  -- A session that is active and has room in its counters carries a candidate to its effect: if the
  -- identifier source answers an identifier that is free, and the authority admits the proposal
  -- under a capability of the scope, then proposing it, admitting it and dispatching the admission
  -- all succeed, and the effect requested is the candidate's, under the third sequence.
  pub proposal_reaches_effect :
      (op : OperationId) (c : Candidate P) (id : ProposalId) (g : G) (authority : A)
      (granted : CapabilityName) (s : RuntimeSession P)
      → may_initiate s.activation ≡ true
      → (gen.next_proposal_id g).0 ≡ ok id
      → get id s.pending ≡ none
      → aut.decide authority (mint op id (s.sequence + 1) c) ≡ ok (Ports.admit granted)
      → permits s.scope granted ≡ true
      → s.sequence + 3 ≤ u64_max
      → s.revision + 3 ≤ u64_max
      → let (r, g', t) = propose_candidates op (c ∷ []) g s in
        (r ≡ ok (id ∷ [])) × Effected op id authority t c.proposal (s.sequence + 3)
  proposal_reaches_effect op c id g authority granted s live answer free decision inside room
        turns =
      let t = (propose_candidates op (c ∷ []) g s).2 in
      let r =
        propose_candidates_succeeds op (c ∷ []) (id ∷ []) g s live (answer, tt) (ground arith, tt)
          (omega arith) (omega arith) in
      let (fresh, k) = propose_candidates_commits op (c ∷ []) g s (id ∷ []) r in
      let ready =
        held_reaches_effect op id authority granted t (mint op id (s.sequence + 1) c)
          (initiating-settles t.activation (ap may_initiate k.frame.3 ∙ live))
          (held_one op c id s t fresh k) decision (ap (λ x. permits x granted) k.frame.2 ∙ inside)
          (omega (arith, k.sequence)) (omega (arith, k.revision)) in
      let third : t.sequence + 2 ≡ s.sequence + 3 = omega (arith, k.sequence) in
      (r, subst (Effected op id authority t c.proposal) third ready)
