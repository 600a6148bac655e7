-- ===== src/Runtime/Session/Transaction.antt =====
-- `propose` and `propose_candidates` of session.rs: what a round stages, and what a failed one
-- leaves.
use artificial_intelligence.Base.{
  ==_comm, List, Option, Result, Result-cases, [], all, append-nil, append_assoc, arith, err, false,
  if◌then◌else◌, inl, inr, length, none, ok, refl, some, ◌++◌, ◌+◌, ◌==◌, ◌||◌, ◌∷◌, ◌≡◌, bytes_ord,
}
use artificial_intelligence.BTree.{BTreeMap, get}
use artificial_intelligence.Contracts.Scalar.{DecimalU64, IsU64, next}
use artificial_intelligence.Contracts.Identifier.{ProposalId, OperationId, identifier_ord}
use artificial_intelligence.Contracts.Error.{FoundationError}
use artificial_intelligence.Contracts.Envelope.{ProposalEnvelope}
use artificial_intelligence.Runtime.Ports.{PortError, Candidate, IdentifierGeneration}
use artificial_intelligence.Runtime.Session.{RuntimeSession}
use artificial_intelligence.Runtime.Session.Conclude.{conclude}
use artificial_intelligence.Runtime.Session.Propose.{
  is_staged, mint, admit_identifier, stage, propose_candidates,
}

module _ {P : Type 0} where
  -- The envelopes are those of the candidates, in order, with consecutive sequences.
  abbrev pub IsMinted :
      OperationId → DecimalU64 → List (Candidate P) → List (ProposalEnvelope P) → Type 0
  IsMinted op q [] [] = Unit
  IsMinted op q [] (e ∷ es) = ⊥
  IsMinted op q (c ∷ cs) [] = ⊥
  IsMinted op q (c ∷ cs) (e ∷ es) =
      (e ≡ mint op e.proposal_id (q + 1) c) × IsMinted op (q + 1) cs es

  -- The identifiers are not held by the map, and no two are the same.
  abbrev pub IsNew : BTreeMap ProposalId (ProposalEnvelope P) → List (ProposalEnvelope P) → Type 0
  IsNew m [] = Unit
  IsNew m (e ∷ es) =
      (get e.proposal_id m ≡ none) × (is_staged e.proposal_id es ≡ false) × IsNew m es

  abbrev pub proposal_ids : List (ProposalEnvelope P) → List ProposalId
  proposal_ids [] = []
  proposal_ids (e ∷ es) = e.proposal_id ∷ proposal_ids es

  -- The envelope of a list under an identifier.
  abbrev pub find : ProposalId → List (ProposalEnvelope P) → Option (ProposalEnvelope P)
  find id [] = none
  find id (e ∷ es) = let rest = find id es in if e.proposal_id == id then some e else rest

  pub is_staged-append :
      (id : ProposalId) (xs ys : List (ProposalEnvelope P))
      → is_staged id (xs ++ ys) ≡ (is_staged id xs || is_staged id ys)
  is_staged-append id [] ys = refl
  is_staged-append id (x ∷ xs) ys = ground (arith, is_staged-append id xs ys)

  -- No envelope of the second list has an identifier of the first.
  abbrev pub IsApart : List (ProposalEnvelope P) → List (ProposalEnvelope P) → Type 0
  IsApart staged [] = Unit
  IsApart staged (f ∷ fs) = (is_staged f.proposal_id staged ≡ false) × IsApart staged fs

  IsApart-append :
      (staged : List (ProposalEnvelope P)) (e : ProposalEnvelope P) (fs : List (ProposalEnvelope P))
      → IsApart (staged ++ e ∷ []) fs
      → IsApart staged fs × (is_staged e.proposal_id fs ≡ false)
  IsApart-append staged e [] h = (tt, refl)
  IsApart-append staged e (f ∷ fs) h = ground (
    arith,
    is_staged-append f.proposal_id staged (e ∷ []),
    IsApart-append staged e fs h.1,
    ==_comm e.proposal_id f.proposal_id,
  )

  pub admit_identifier-ok :
      (op : OperationId) (m : BTreeMap ProposalId (ProposalEnvelope P)) (q : DecimalU64)
      (staged : List (ProposalEnvelope P)) (answer : Result ProposalId PortError) (id : ProposalId)
      (f : DecimalU64)
      → admit_identifier op m q staged answer ≡ ok (id, f)
      → (f ≡ q + 1) × IsU64 f × (get id m ≡ none) × (is_staged id staged ≡ false)
  unfolding next
  admit_identifier-ok op m q staged answer id f h = ground arith

  module _ {G : Type 0} ⦃ids : IdentifierGeneration G⦄ where
    -- A failed round of candidates leaves the session exactly as it was: whatever fails, no part of
    -- the batch has been committed.
    pub propose_candidates_transactional :
        (op : OperationId) (cs : List (Candidate P)) (g : G) (s : RuntimeSession P)
        (e : FoundationError)
        → (propose_candidates op cs g s).0 ≡ err e
        → (propose_candidates op cs g s).2 ≡ s
    unfolding propose_candidates conclude
    propose_candidates_transactional op cs g s e h = ground arith

    -- What the staging loop appends, when it succeeds.
    pub stage_lem :
        (op : OperationId) (m : BTreeMap ProposalId (ProposalEnvelope P)) (q : DecimalU64)
        (staged : List (ProposalEnvelope P)) (cs : List (Candidate P)) (g : G) (r : DecimalU64)
        (es : List (ProposalEnvelope P))
        → (stage op m q staged cs g).0 ≡ ok (r, es)
        → (fresh : List (ProposalEnvelope P)) × (es ≡ staged ++ fresh)
          × IsMinted op q cs fresh
          × IsNew m fresh
          × IsApart staged fresh
          × (r ≡ q + length cs)
          × (IsU64 q → IsU64 r)
    unfolding stage
    stage_lem op m q staged [] g r es h =
        ([], ground (arith, append-nil staged), tt, tt, tt, ground arith, λ l. ground arith)
    stage_lem op m q staged (c ∷ cs) g r es h =
        let answer = (ids.next_proposal_id g).0 in
        let g' = (ids.next_proposal_id g).1 in
        elim (Result-cases (admit_identifier op m q staged answer)) [
          | inl ((id, f), e) ↦
              let (step, fits, absent, apart) = admit_identifier-ok op m q staged answer id f e in
              let x = mint op id f c in
              let (fresh, all, minted, new, away, count, range) =
                stage_lem op m f (staged ++ x ∷ []) cs g' r es (ground arith) in
              let (clear, alone) = IsApart-append staged x fresh away in
              (
                x ∷ fresh,
                ground (arith, append_assoc staged (x ∷ []) fresh),
                ground arith,
                (absent, alone, new),
                (apart, clear),
                ground arith,
                λ l. range fits,
              )
          | inr (x, e) ↦ absurd (ground arith)
        ]
