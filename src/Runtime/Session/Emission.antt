-- ===== src/Runtime/Session/Emission.antt =====
-- The sequences that a session issues over a history: proposals, admissions and effect requests
-- draw on one counter.
use artificial_intelligence.Base.{
  ==_refl, List, Option, Result, Result-cases, [], ap, arith, eq_of_==, err, if◌then◌else◌, inl,
  inr, length, none, ok, some, subst, suc, sym, ℕ, ◌++◌, ◌+◌, ◌<◌, ◌==◌, ◌∷◌, ◌≡◌, ◌≤◌, bytes_ord,
}
use artificial_intelligence.BTree.{BTreeMap, get}
use artificial_intelligence.Contracts.Scalar.{DecimalU64, next}
use artificial_intelligence.Contracts.Error.{FoundationError}
use artificial_intelligence.Contracts.Identifier.{ProposalId, OperationId, identifier_ord}
use artificial_intelligence.Contracts.Envelope.{ProposalEnvelope, EffectRequestEnvelope}
use artificial_intelligence.Runtime.Ports.{
  Candidate, Clock, IdentifierGeneration, Inference, Authority,
}
use artificial_intelligence.Runtime.Session
use artificial_intelligence.Runtime.Session.{RuntimeSession}
use artificial_intelligence.Runtime.Session.Propose
use artificial_intelligence.Runtime.Session.Propose.{is_staged}
use artificial_intelligence.Runtime.Session.Admit
use artificial_intelligence.Runtime.Session.Admit.{Admitted}
use artificial_intelligence.Runtime.Session.Transaction.{
  IsMinted, proposal_ids, find, propose_candidates_transactional,
}
use artificial_intelligence.Runtime.Session.Batch.{
  IsDistinct, IsNew-IsDistinct, find-absent, or_else, propose_candidates_commits,
}
use artificial_intelligence.Runtime.Session.Inferring.{
  propose_transactional, propose_answers, propose_unanswered, propose_after,
}
use artificial_intelligence.Runtime.Session.Authority.{admit_iff, admit_refusal}
use artificial_intelligence.Runtime.Session.History.{
  Call, apply_activation, ensure_activation, rebind, wake, propose, propose_candidates, admit,
  dispatch, perform, run,
}

-- The numbers ascend strictly, all of them above `lo`, and none passes `hi`.
abbrev pub Ascends : ℕ → List ℕ → ℕ → Type 0
Ascends lo [] hi = lo ≤ hi
Ascends lo (x ∷ xs) hi = (lo < x) × Ascends x xs hi

Ascends-append :
    (lo mid hi : ℕ) (xs ys : List ℕ)
    → Ascends lo xs mid
    → Ascends mid ys hi
    → Ascends lo (xs ++ ys) hi
Ascends-append lo mid hi [] [] h k = omega arith
Ascends-append lo mid hi [] (y ∷ ys) h k = (omega arith, k.1)
Ascends-append lo mid hi (x ∷ xs) ys h k = (h.0, Ascends-append x mid hi xs ys h.1 k)

Ascends-next :
    (q x n : ℕ) (xs : List ℕ)
    → x ≡ q + 1
    → Ascends (q + 1) xs (q + 1 + n)
    → Ascends q (x ∷ xs) (q + suc n)
Ascends-next q x n xs e h =
    let top : q + 1 + n ≡ q + suc n = omega arith in
    (omega arith, subst (λ y. Ascends y xs (q + suc n)) (sym e) (subst (Ascends (q + 1) xs) top h))

module _ {P : Type 0} where
  abbrev pub sequence_before : Option (ProposalEnvelope P) → List DecimalU64 → List DecimalU64
  sequence_before none qs = qs
  sequence_before (some e) qs = e.sequence ∷ qs

  -- The sequences of the entries under the identifiers.
  abbrev pub sequences_of :
      List ProposalId → BTreeMap ProposalId (ProposalEnvelope P) → List DecimalU64
  sequences_of [] m = []
  sequences_of (id ∷ ids) m = sequence_before (get id m) (sequences_of ids m)

  -- The sequences in a result of proposing, read in the session that follows.
  abbrev pub proposed :
      Result (List ProposalId) FoundationError → RuntimeSession P → List DecimalU64
  proposed (ok ids) t = sequences_of ids t.pending
  proposed (err e) t = []

  abbrev pub admitted_sequence : Result (Admitted P) FoundationError → List DecimalU64
  admitted_sequence (ok a) = a.envelope.sequence ∷ []
  admitted_sequence (err e) = []

  abbrev pub effect_sequence : Result (EffectRequestEnvelope P) FoundationError → List DecimalU64
  effect_sequence (ok e) = e.sequence ∷ []
  effect_sequence (err e) = []

  batch-Ascends :
      (op : OperationId) (q : DecimalU64) (cs : List (Candidate P)) (es : List (ProposalEnvelope P))
      (m : BTreeMap ProposalId (ProposalEnvelope P))
      (others : ProposalId → Option (ProposalEnvelope P))
      → ((id : ProposalId) → get id m ≡ or_else (find id es) (others id))
      → IsDistinct es
      → IsMinted op q cs es
      → Ascends q (sequences_of (proposal_ids es) m) (q + length cs)
  batch-Ascends op q [] [] m others h d k = omega arith
  batch-Ascends op q [] (e ∷ es) m others h d k = absurd k
  batch-Ascends op q (c ∷ cs) [] m others h d k = absurd k
  batch-Ascends op q (c ∷ cs) (e ∷ es) m others h d k =
      let at : e.sequence ≡ q + 1 = ap (λ (x : ProposalEnvelope P). x.sequence) k.0 in
      let head : get e.proposal_id m ≡ some e =
        ground (arith, h e.proposal_id, ==_refl e.proposal_id) in
      let rest =
        batch-Ascends op (q + 1) cs es m (λ id. if e.proposal_id == id then some e else others id)
          (λ id. ground (arith, h id, find-absent e.proposal_id es d.0, eq_of_== e.proposal_id id))
          d.1 k.1 in
      subst
        (λ o.
          Ascends q (sequence_before o (sequences_of (proposal_ids es) m)) (q + suc (length cs)))
        (sym head)
        (Ascends-next q e.sequence (length cs) (sequences_of (proposal_ids es) m) at rest)

module _ {P G : Type 0} ⦃gen : IdentifierGeneration G⦄ where
  candidates_ascend :
      (op : OperationId) (cs : List (Candidate P)) (g : G) (s : RuntimeSession P)
      → let (r, g', t) = Propose.propose_candidates op cs g s in
        Ascends s.sequence (proposed r t) t.sequence
  candidates_ascend op cs g s =
      let t = (Propose.propose_candidates op cs g s).2 in
      elim (Result-cases (Propose.propose_candidates op cs g s).0) [
        | inl (ids, e) ↦
            let (fresh, c) = propose_candidates_commits op cs g s ids e in
            rw (e, c.returned, c.sequence)
              (batch-Ascends op s.sequence cs fresh t.pending (λ id. get id s.pending) c.entries
                (IsNew-IsDistinct s.pending fresh c.new_ids) c.minted)
        | inr (x, e) ↦
            let same =
              ap (λ (u : RuntimeSession P). u.sequence)
                (propose_candidates_transactional op cs g s x e) in
            rw e (omega (arith, same))
      ]

module _ {P A : Type 0} ⦃aut : Authority A P⦄ where
  admission-Ascends :
      (op : OperationId) (id : ProposalId) (authority : A) (s : RuntimeSession P)
      → let (r, t) = Admit.admit op id authority s in
        Ascends s.sequence (admitted_sequence r) t.sequence
  admission-Ascends op id authority s =
      let t = (Admit.admit op id authority s).1 in
      elim (Result-cases (Admit.admit op id authority s).0) [
        | inl (x, k) ↦
            let (e, c, r) = (admit_iff authority op id s t x).0 (λ i. (k i, t)) in
            rw (k, r.after, r.carries) (omega arith, omega arith)
        | inr (x, k) ↦ elim (admit_refusal authority op id s t x (λ i. (k i, t))) [
          | inl e ↦ rw (k, e) (omega arith)
          | inr (e, _, _) ↦ rw (k, e) (omega arith)
        ]
      ]

module _ {P R C I Q G A : Type 0} ⦃clk : Clock C⦄ ⦃inf : Inference I Q P⦄
    ⦃gen : IdentifierGeneration G⦄ ⦃aut : Authority A P⦄ where
  -- The sequences that a call issues to its caller.
  unfoldable pub emitted : Call P R C I Q G A → RuntimeSession P → List DecimalU64
  emitted (propose op request i g) s =
      let (r, i', g', t) = Propose.propose op request i g s in proposed r t
  emitted (propose_candidates op cs g) s =
      let (r, g', t) = Propose.propose_candidates op cs g s in proposed r t
  emitted (admit op id authority) s = admitted_sequence (Admit.admit op id authority s).0
  emitted (dispatch op a) s = effect_sequence (Admit.dispatch op a s).0
  emitted _ s = []

  -- The sequences that a history issues, in order.
  unfoldable pub emissions : List (Call P R C I Q G A) → RuntimeSession P → List DecimalU64
  emissions [] s = []
  emissions (c ∷ cs) s = emitted c s ++ emissions cs (perform c s)

  emitted-Ascends :
      (c : Call P R C I Q G A) (s : RuntimeSession P)
      → Ascends s.sequence (emitted c s) (perform c s).sequence
  unfolding emitted perform
  emitted-Ascends (apply_activation op tr) s = unfold Session.apply_activation in ground arith
  emitted-Ascends (ensure_activation op target) s = unfold Session.ensure_activation in ground arith
  emitted-Ascends (rebind op b) s = unfold Session.rebind in ground arith
  emitted-Ascends (wake op reason clock) s = unfold Session.wake in ground arith
  emitted-Ascends (propose op request i g) s = elim (Result-cases (inf.propose i request).0) [
    | inl (cs, k) ↦
        rw (propose_answers op request i g s cs k, propose_after op request i g s cs k)
          (candidates_ascend op cs g s)
    | inr (x, k) ↦
        let (y, e) = propose_unanswered op request i g s x k in
        rw (e, propose_transactional op request i g s y e) (omega arith)
  ]
  emitted-Ascends (propose_candidates op cs g) s = candidates_ascend op cs g s
  emitted-Ascends (admit op id authority) s = admission-Ascends op id authority s
  emitted-Ascends (dispatch op a) s = unfold Admit.dispatch next in ground arith

  -- Over any sequence of calls, the sequences that the session issues to proposals, admissions and
  -- effect requests ascend strictly from the one it starts with, and none passes the counter of the
  -- session that remains: no sequence is issued twice.
  pub emissions-Ascends :
      (cs : List (Call P R C I Q G A)) (s : RuntimeSession P)
      → Ascends s.sequence (emissions cs s) (run cs s).sequence
  unfolding emissions run
  emissions-Ascends [] s = omega arith
  emissions-Ascends (c ∷ cs) s =
      Ascends-append s.sequence (perform c s).sequence (run cs (perform c s)).sequence (emitted c s)
        (emissions cs (perform c s)) (emitted-Ascends c s) (emissions-Ascends cs (perform c s))
