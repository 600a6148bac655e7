-- ===== src/Runtime/Session/Batch.antt =====
-- What a successful round of proposals commits.
use artificial_intelligence.Base.{
  List, Option, Result-cases, [], all, ap, append-nil, append_assoc, arith, eq_of_==, false, inl,
  inr, length, none, ok, refl, some, subst, suc, sym, true, ◌++◌, ◌+◌, ◌∙◌, ◌∷◌, ◌≡◌, bytes_ord,
}
use artificial_intelligence.BTree.{BTreeMap, get, insert}
use artificial_intelligence.BTree.Lookup.{get-insert}
use artificial_intelligence.BTree.Sorted.{IsSorted, insert-IsSorted}
use artificial_intelligence.Contracts.Scalar.{DecimalU64, IsU64, next}
use artificial_intelligence.Contracts.Capability.{capability_name_ord}
use artificial_intelligence.Contracts.Identifier.{ProposalId, OperationId, identifier_ord}
use artificial_intelligence.Contracts.Envelope.{ProposalEnvelope}
use artificial_intelligence.Runtime.Activation.{may_initiate}
use artificial_intelligence.Runtime.Ports.{Candidate, IdentifierGeneration}
use artificial_intelligence.Runtime.Session.{RuntimeSession}
use artificial_intelligence.Runtime.Session.Invariant.{
  IsOwned, IsOwned-mono, IsOwned-insert, IsValid,
}
use artificial_intelligence.Runtime.Session.Conclude.{commit, conclude}
use artificial_intelligence.Runtime.Session.Propose.{is_staged, stage, propose_candidates}
use artificial_intelligence.Runtime.Session.Transaction.{
  IsMinted, IsNew, proposal_ids, find, stage_lem, propose_candidates_transactional,
}

-- The envelope of a batch, or what stood there before.
abbrev pub or_else {ℓ} : {A : Type ℓ} → Option A → Option A → Option A
or_else none o = o
or_else (some a) o = some a

module _ {P : Type 0} where
  pub commit-ids :
      (ids : List ProposalId) (m : BTreeMap ProposalId (ProposalEnvelope P))
      (es : List (ProposalEnvelope P))
      → (commit ids m es).0 ≡ ids ++ proposal_ids es
  unfolding commit
  commit-ids ids m [] = sym (append-nil ids)
  commit-ids ids m (e ∷ es) =
      commit-ids (ids ++ e.proposal_id ∷ []) (insert e.proposal_id e m) es
      ∙ append_assoc ids (e.proposal_id ∷ []) (proposal_ids es)

  pub find-absent :
      (id : ProposalId) (es : List (ProposalEnvelope P))
      → is_staged id es ≡ false
      → find id es ≡ none
  find-absent id [] h = refl
  find-absent id (e ∷ es) h = ground (arith, find-absent id es)

  -- The identifiers of a batch are distinct.
  abbrev pub IsDistinct : List (ProposalEnvelope P) → Type 0
  IsDistinct [] = Unit
  IsDistinct (e ∷ es) = (is_staged e.proposal_id es ≡ false) × IsDistinct es

  pub IsNew-IsDistinct :
      (m : BTreeMap ProposalId (ProposalEnvelope P)) (es : List (ProposalEnvelope P))
      → IsNew m es
      → IsDistinct es
  IsNew-IsDistinct m [] h = tt
  IsNew-IsDistinct m (e ∷ es) h = (h.1, IsNew-IsDistinct m es h.2)

  get-commit :
      (ids : List ProposalId) (m : BTreeMap ProposalId (ProposalEnvelope P))
      (es : List (ProposalEnvelope P)) (id : ProposalId)
      → IsDistinct es
      → get id (commit ids m es).1 ≡ or_else (find id es) (get id m)
  unfolding commit
  get-commit ids m [] id h = refl
  get-commit ids m (e ∷ es) id h = ground (
    arith,
    get-commit (ids ++ e.proposal_id ∷ []) (insert e.proposal_id e m) es id h.1,
    get-insert e.proposal_id id e m,
    find-absent e.proposal_id es h.0,
    eq_of_== e.proposal_id id,
  )

  commit-IsSorted :
      (ids : List ProposalId) (m : BTreeMap ProposalId (ProposalEnvelope P))
      (es : List (ProposalEnvelope P))
      → IsSorted m
      → IsSorted (commit ids m es).1
  unfolding commit
  commit-IsSorted ids m [] h = h
  commit-IsSorted ids m (e ∷ es) h =
      commit-IsSorted (ids ++ e.proposal_id ∷ []) (insert e.proposal_id e m) es
        (insert-IsSorted e.proposal_id e m h)

  commit-IsOwned :
      (ids : List ProposalId) (m : BTreeMap ProposalId (ProposalEnvelope P)) (op : OperationId)
      (q : DecimalU64) (cs : List (Candidate P)) (es : List (ProposalEnvelope P))
      → IsMinted op q cs es
      → IsOwned q m
      → IsOwned (q + length cs) (commit ids m es).1
  unfolding commit
  commit-IsOwned ids m op q [] [] k h = IsOwned-mono q (q + 0) m (omega arith) h
  commit-IsOwned ids m op q [] (e ∷ es) k h = absurd k
  commit-IsOwned ids m op q (c ∷ cs) [] k h = absurd k
  commit-IsOwned ids m op q (c ∷ cs) (e ∷ es) k h =
      let at : e.sequence ≡ q + 1 = ap (λ (x : ProposalEnvelope P). x.sequence) k.0 in
      IsOwned-mono (q + 1 + length cs) (q + suc (length cs)) _ (omega arith) (
        commit-IsOwned (ids ++ e.proposal_id ∷ []) (insert e.proposal_id e m) op (q + 1) cs es k.1
          (IsOwned-insert (q + 1) e m (omega arith) (IsOwned-mono q (q + 1) m (omega arith) h)))

  -- What the caller and the session hold after a batch: `fresh` are the envelopes minted.
  pub record Committed (op : OperationId) (cs : List (Candidate P)) (s t : RuntimeSession P)
      (ids : List ProposalId) (fresh : List (ProposalEnvelope P)) : Type 0 where
    pub initiates : may_initiate s.activation ≡ true
    pub minted : IsMinted op s.sequence cs fresh
    pub new_ids : IsNew s.pending fresh
    pub returned : ids ≡ proposal_ids fresh
    pub entries : (id : ProposalId) → get id t.pending ≡ or_else (find id fresh) (get id s.pending)
    pub sorted : IsSorted s.pending → IsSorted t.pending
    pub owned : IsOwned s.sequence s.pending → IsOwned t.sequence t.pending
    pub sequence : t.sequence ≡ s.sequence + length cs
    pub sequence_fits : IsU64 s.sequence → IsU64 t.sequence
    pub revision : (t.revision ≡ s.revision + 1) × IsU64 t.revision
    pub frame :
        (t.session_id ≡ s.session_id)
        × (t.binding ≡ s.binding)
        × (t.scope ≡ s.scope)
        × (t.activation ≡ s.activation)

  conclude-ok :
      (op : OperationId) (s t : RuntimeSession P) (q : DecimalU64) (es : List (ProposalEnvelope P))
      (ids : List ProposalId)
      → conclude op (ok (q, es)) s ≡ (ok ids, t)
      → (ids ≡ (commit [] s.pending es).0)
        × (t ≡ record s {
          pending = (commit [] s.pending es).1;
          sequence = q;
          revision = s.revision + 1;
        })
        × IsU64 (s.revision + 1)
  unfolding conclude next
  conclude-ok op s t q es ids h = ground arith

  conclude-Committed :
      (op : OperationId) (cs : List (Candidate P)) (s t : RuntimeSession P) (q : DecimalU64)
      (es : List (ProposalEnvelope P)) (ids : List ProposalId)
      → may_initiate s.activation ≡ true
      → IsMinted op s.sequence cs es
      → IsNew s.pending es
      → q ≡ s.sequence + length cs
      → (IsU64 s.sequence → IsU64 q)
      → conclude op (ok (q, es)) s ≡ (ok ids, t)
      → Committed op cs s t ids es
  conclude-Committed op cs s t q es ids live minted new count range h =
      let (returned, after, fits) = conclude-ok op s t q es ids h in
      subst (λ x. Committed op cs s x ids es) (sym after)
        (record {
          initiates = live;
          minted = minted;
          new_ids = new;
          returned = returned ∙ commit-ids [] s.pending es;
          entries = λ id. get-commit [] s.pending es id (IsNew-IsDistinct s.pending es new);
          sorted = λ k. commit-IsSorted [] s.pending es k;
          owned = λ k.
              subst (λ x. IsOwned x (commit [] s.pending es).1) (sym count)
                (commit-IsOwned [] s.pending op s.sequence cs es minted k);
          sequence = count;
          sequence_fits = range;
          revision = (refl, fits);
          frame = (refl, refl, refl, refl);
        })

  module _ {G : Type 0} ⦃gen : IdentifierGeneration G⦄ where
    -- A round that succeeds was allowed to initiate work. It mints one envelope for each
    -- candidate, in order, with consecutive sequences above the session's, under identifiers that
    -- are distinct and were not held; it returns those identifiers; every other entry stays; the
    -- sequence advances by the size of the batch and the revision by one; nothing else changes.
    pub propose_candidates_commits :
        (op : OperationId) (cs : List (Candidate P)) (g : G) (s : RuntimeSession P)
        (ids : List ProposalId)
        → (propose_candidates op cs g s).0 ≡ ok ids
        → (fresh : List (ProposalEnvelope P)) × Committed op cs s
            (propose_candidates op cs g s).2
            ids
            fresh
    unfolding propose_candidates conclude
    propose_candidates_commits op cs g s ids h =
        let t = (propose_candidates op cs g s).2 in
        let staging = (stage op s.pending s.sequence [] cs g).0 in
        elim (Result-cases staging) [
          | inl ((q, es), e) ↦
              let (fresh, all, minted, new, away, count, range) =
                stage_lem op s.pending s.sequence [] cs g q es e in
              (
                fresh,
                conclude-Committed op cs s t q fresh ids (ground arith) minted new count range
                    (ground arith),
              )
          | inr (x, e) ↦ absurd (ground arith)
        ]

    -- A round of candidates keeps the session valid, whether it succeeds or fails.
    pub propose_candidates-IsValid :
        (op : OperationId) (cs : List (Candidate P)) (g : G) (s : RuntimeSession P)
        → IsValid s
        → IsValid (propose_candidates op cs g s).2
    propose_candidates-IsValid op cs g s v = elim (Result-cases (propose_candidates op cs g s).0) [
      | inl (ids, e) ↦
          let (fresh, c) = propose_candidates_commits op cs g s ids e in
          record {
            sorted = c.sorted v.sorted;
            owned = c.owned v.owned;
            scope_sorted = subst (λ x. IsSorted x.held) (sym c.frame.2) v.scope_sorted;
            sequence_fits = c.sequence_fits v.sequence_fits;
            revision_fits = c.revision.1;
          }
      | inr (x, e) ↦ subst IsValid (sym (propose_candidates_transactional op cs g s x e)) v
    ]
