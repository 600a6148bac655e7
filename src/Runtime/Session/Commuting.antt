-- ===== src/Runtime/Session/Commuting.antt =====
-- `admit` of session.rs on two proposals, in both orders.
use artificial_intelligence.Base.{
  Bool, Bool-cases, Option, Option-cases, Ord, Result, Result-cases, [], ap, arith, eq_of_==, err,
  false, if◌then◌else◌, inl, inr, is_ok, none, ok, refl, some, sym, true, ◌+◌, ◌<◌, ◌==◌, ◌∙◌, ◌∷◌,
  ◌≡◌, ◌≢◌, ◌≤◌, bytes_ord,
}
use artificial_intelligence.BTree.{BTreeMap, get, remove}
use artificial_intelligence.BTree.Lookup.{get-remove}
use artificial_intelligence.Contracts.Decimal.{u64_max}
use artificial_intelligence.Contracts.Scalar.{next}
use artificial_intelligence.Contracts.Identifier.{ProposalId, OperationId, identifier_ord}
use artificial_intelligence.Contracts.Envelope.{ProposalEnvelope}
use artificial_intelligence.Runtime.Activation.{ActivationState, may_settle_in_flight}
use artificial_intelligence.Runtime.Scope.{DelegationScope, permits}
use artificial_intelligence.Runtime.Ports
use artificial_intelligence.Runtime.Ports.{PortError, Authority, AuthorityDecision, withhold}
use artificial_intelligence.Runtime.Session.{RuntimeSession}
use artificial_intelligence.Runtime.Session.Admit.{admit, settle_decision, grant, release_decided}

remove_comm {ℓ κ} :
    {K : Type ℓ} {V : Type κ} ⦃o : Ord K⦄ (i j : K) (m : BTreeMap K V)
    → remove i (remove j m) ≡ remove j (remove i m)
unfolding remove
remove_comm i j [] = refl
remove_comm i j ((k, v) ∷ m) = ground (arith, remove_comm i j m)

-- How a call of `admit` turns out: nothing is decided, or the proposal is refused or admitted.
data Verdict : Type 0 where
  undecided refused admitted : Verdict

abbrev is_admitted : Verdict → Bool
is_admitted admitted = true
is_admitted _ = false

abbrev by_decision : DelegationScope → AuthorityDecision → Verdict
by_decision scope withhold = refused
by_decision scope (Ports.admit granted) = if permits scope granted then admitted else refused

abbrev by_answer : DelegationScope → Result AuthorityDecision PortError → Verdict
by_answer scope (err x) = undecided
by_answer scope (ok d) = by_decision scope d

module _ {P A : Type 0} ⦃aut : Authority A P⦄ where
  abbrev by_entry : DelegationScope → A → Option (ProposalEnvelope P) → Verdict
  by_entry scope authority none = undecided
  by_entry scope authority (some e) = by_answer scope (aut.decide authority e)

  abbrev by_state : ActivationState → DelegationScope → A → Option (ProposalEnvelope P) → Verdict
  by_state activation scope authority o =
      if may_settle_in_flight activation then by_entry scope authority o else undecided

  abbrev verdict : A → ProposalId → RuntimeSession P → Verdict
  verdict authority id s = by_state s.activation s.scope authority (get id s.pending)

module _ {P : Type 0} where
  abbrev after : Verdict → ProposalId → RuntimeSession P → RuntimeSession P
  after undecided id s = s
  after refused id s = record s { pending = remove id s.pending; revision = s.revision + 1 }
  after admitted id s = record s {
    pending = remove id s.pending;
    sequence = s.sequence + 1;
    revision = s.revision + 1;
  }

  after_room :
      (v : Verdict) (id : ProposalId) (s : RuntimeSession P)
      → ((after v id s).sequence ≤ s.sequence + 1) × ((after v id s).revision ≤ s.revision + 1)
  after_room undecided id s = (omega arith, omega arith)
  after_room refused id s = (omega arith, omega arith)
  after_room admitted id s = (omega arith, omega arith)

  get-remove_other :
      (i j : ProposalId) (m : BTreeMap ProposalId (ProposalEnvelope P))
      → i ≢ j
      → get j (remove i m) ≡ get j m
  get-remove_other i j m n = elim (Bool-cases (i == j)) [
    | inl same ↦ absurd (n (eq_of_== i j same))
    | inr other ↦ ground (arith, get-remove i j m)
  ]

  after_comm :
      (v w : Verdict) (i j : ProposalId) (s : RuntimeSession P)
      → after w j (after v i s) ≡ after v i (after w j s)
  after_comm undecided w i j s = refl
  after_comm refused undecided i j s = refl
  after_comm refused refused i j s = ground (arith, remove_comm i j s.pending)
  after_comm refused admitted i j s = ground (arith, remove_comm i j s.pending)
  after_comm admitted undecided i j s = refl
  after_comm admitted refused i j s = ground (arith, remove_comm i j s.pending)
  after_comm admitted admitted i j s = ground (arith, remove_comm i j s.pending)

module _ {P A : Type 0} ⦃aut : Authority A P⦄ where
  admit-after :
      (op : OperationId) (id : ProposalId) (authority : A) (s : RuntimeSession P)
      → s.sequence < u64_max
      → s.revision < u64_max
      → (admit op id authority s).1 ≡ after (verdict authority id s) id s
  unfolding admit settle_decision grant release_decided next
  admit-after op id authority s k l = elim (Option-cases (get id s.pending)) [
    | inl z ↦ ground (arith, z)
    | inr (e, z) ↦ elim (Result-cases (aut.decide authority e)) [
      | inr (x, d) ↦ ground (arith, z, d)
      | inl (withhold, d) ↦ ground (arith, z, d)
      | inl (Ports.admit c, d) ↦ ground (arith, z, d)
    ]
  ]

  admit_granted :
      (op : OperationId) (id : ProposalId) (authority : A) (s : RuntimeSession P)
      → s.sequence < u64_max
      → s.revision < u64_max
      → is_ok (admit op id authority s).0 ≡ is_admitted (verdict authority id s)
  unfolding admit settle_decision grant release_decided next
  admit_granted op id authority s k l = elim (Option-cases (get id s.pending)) [
    | inl z ↦ ground (arith, z)
    | inr (e, z) ↦ elim (Result-cases (aut.decide authority e)) [
      | inr (x, d) ↦ ground (arith, z, d)
      | inl (withhold, d) ↦ ground (arith, z, d)
      | inl (Ports.admit c, d) ↦ ground (arith, z, d)
    ]
  ]

  granted_alike :
      (op : OperationId) (id : ProposalId) (a a' : A) (s : RuntimeSession P)
      → s.sequence < u64_max
      → s.revision < u64_max
      → verdict a id s ≡ verdict a' id s
      → is_ok (admit op id a s).0 ≡ is_ok (admit op id a' s).0
  granted_alike op id a a' s k l same =
      admit_granted op id a s k l ∙ ap is_admitted same ∙ sym (admit_granted op id a' s k l)

  verdict-after :
      (v : Verdict) (i j : ProposalId) (authority : A) (s : RuntimeSession P)
      → i ≢ j
      → verdict authority j (after v i s) ≡ verdict authority j s
  verdict-after undecided i j authority s n = refl
  verdict-after refused i j authority s n =
      ap (by_state s.activation s.scope authority) (get-remove_other i j s.pending n)
  verdict-after admitted i j authority s n =
      ap (by_state s.activation s.scope authority) (get-remove_other i j s.pending n)

  -- A call after another one on a different proposal does what it would have done first.
  admit_second :
      (op op' : OperationId) (i j : ProposalId) (a b : A) (s : RuntimeSession P)
      → i ≢ j
      → s.sequence + 2 ≤ u64_max
      → s.revision + 2 ≤ u64_max
      → let t = (admit op i a s).1 in
        ((admit op' j b t).1 ≡ after (verdict b j s) j (after (verdict a i s) i s))
        × (is_ok (admit op' j b t).0 ≡ is_ok (admit op' j b s).0)
  admit_second op op' i j a b s n k l =
      let v = verdict a i s in
      let t = after v i s in
      let first = admit-after op i a s (omega arith) (omega arith) in
      let room = after_room v i s in
      let same = verdict-after v i j b s n in
      let at_seq : t.sequence < u64_max = omega (arith, room.0) in
      let at_rev : t.revision < u64_max = omega (arith, room.1) in
      (
        ap (λ u. (admit op' j b u).1) first
            ∙ admit-after op' j b t at_seq at_rev
            ∙ ap (λ w. after w j t) same,
        ap (λ u. is_ok (admit op' j b u).0) first
            ∙ admit_granted op' j b t at_seq at_rev
            ∙ ap is_admitted same
            ∙ sym (admit_granted op' j b s (omega arith) (omega arith)),
      )

  -- The authority answers the same about a pending proposal, as it stands at one call and as it
  -- stands at another.
  abbrev pub AnswersAlike : A → A → ProposalId → RuntimeSession P → Type 0
  AnswersAlike a a' id s =
      (e : ProposalEnvelope P) → get id s.pending ≡ some e → aut.decide a e ≡ aut.decide a' e

  verdict_alike :
      (a a' : A) (id : ProposalId) (s : RuntimeSession P)
      → AnswersAlike a a' id s
      → verdict a id s ≡ verdict a' id s
  verdict_alike a a' id s h = elim (Option-cases (get id s.pending)) [
    | inl z ↦ ground (arith, z)
    | inr (e, z) ↦ ground (arith, z, h e z)
  ]

  -- Let an authority answer each of two different pending proposals in the same way, whether it is
  -- asked first or after it answered the other; its own state may change with each call, so the four
  -- calls take four values for it. Then, as long as the counters have room for both, the two orders
  -- of decision leave the same session, and each proposal is admitted in the one exactly if it is
  -- admitted in the other. The sequences that the admissions carry follow the order, and are not
  -- compared.
  pub admissions_commute :
      (op op' : OperationId) (i j : ProposalId) (a b b' a' : A) (s : RuntimeSession P)
      → i ≢ j
      → AnswersAlike a a' i s
      → AnswersAlike b b' j s
      → s.sequence + 2 ≤ u64_max
      → s.revision + 2 ≤ u64_max
      → let (r, t) = admit op i a s in
        let (r', t') = admit op' j b' s in
        ((admit op' j b t).1 ≡ (admit op i a' t').1)
        × (is_ok (admit op' j b t).0 ≡ is_ok r')
        × (is_ok (admit op i a' t').0 ≡ is_ok r)
  admissions_commute op op' i j a b b' a' s n like_i like_j k l =
      let (left, second) = admit_second op op' i j a b s n k l in
      let (right, other) = admit_second op' op j i b' a' s (λ e. n (sym e)) k l in
      let same_i = verdict_alike a a' i s like_i in
      let same_j = verdict_alike b b' j s like_j in
      (
        left
            ∙ ap (λ v. after (verdict b j s) j (after v i s)) same_i
            ∙ ap (λ v. after v j (after (verdict a' i s) i s)) same_j
            ∙ after_comm (verdict a' i s) (verdict b' j s) i j s
            ∙ sym right,
        second ∙ granted_alike op' j b b' s (omega arith) (omega arith) same_j,
        other ∙ sym (granted_alike op i a a' s (omega arith) (omega arith) same_i),
      )
