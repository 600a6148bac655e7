-- ===== src/Runtime/Session/Succeeding.antt =====
-- When `propose_candidates` of session.rs succeeds.
use artificial_intelligence.Base.{
  Bool, List, Result, Result-cases, [], ap, append-nil, append_assoc, arith, false, inl, inr,
  length, ok, refl, subst, sym, true, ◌++◌, ◌+◌, ◌<◌, ◌==◌, ◌||◌, ◌↔◌, ◌∙◌, ◌∷◌, ◌≡◌, ◌≤◌,
  bytes_ord,
}
use artificial_intelligence.BTree.{BTreeMap, contains_key}
use artificial_intelligence.Contracts.Decimal.{u64_max}
use artificial_intelligence.Contracts.Scalar.{DecimalU64, next}
use artificial_intelligence.Contracts.Identifier.{ProposalId, OperationId, identifier_ord}
use artificial_intelligence.Contracts.Envelope.{ProposalEnvelope}
use artificial_intelligence.Runtime.Activation.{may_initiate}
use artificial_intelligence.Runtime.Ports.{Candidate, IdentifierGeneration}
use artificial_intelligence.Runtime.Session.{RuntimeSession}
use artificial_intelligence.Contracts.Scalar.{IsU64}
use artificial_intelligence.Runtime.Ports.{PortError}
use artificial_intelligence.Runtime.Session.Conclude.{conclude}
use artificial_intelligence.Runtime.Session.Propose.{
  admit_identifier, is_staged, mint, stage, propose_candidates,
}
use artificial_intelligence.Runtime.Session.Transaction.{
  proposal_ids, is_staged-append, admit_identifier-ok,
}
use artificial_intelligence.Runtime.Session.Batch.{commit-ids}

-- None of the identifiers is taken, and no two are the same.
abbrev pub AreFresh : (ProposalId → Bool) → List ProposalId → Type 0
AreFresh taken [] = Unit
AreFresh taken (id ∷ ids) = (taken id ≡ false) × AreFresh (λ j. taken j || (id == j)) ids

AreFresh-same :
    (f g : ProposalId → Bool) (ids : List ProposalId)
    → ((id : ProposalId) → f id ≡ g id)
    → AreFresh f ids
    → AreFresh g ids
AreFresh-same f g [] h k = tt
AreFresh-same f g (id ∷ ids) h k = (
  sym (h id) ∙ k.0,
  AreFresh-same (λ j. f j || (id == j)) (λ j. g j || (id == j)) ids
      (λ j. ap (λ b. b || (id == j)) (h j)) k.1,
)

module _ {P : Type 0} where
  -- The envelopes of the candidates under these identifiers.
  abbrev pub batch :
      OperationId → DecimalU64 → List (Candidate P) → List ProposalId → List (ProposalEnvelope P)
  batch op q [] ids = []
  batch op q (c ∷ cs) [] = []
  batch op q (c ∷ cs) (id ∷ ids) = mint op id (q + 1) c ∷ batch op (q + 1) cs ids

  admit_identifier-answer :
      (op : OperationId) (m : BTreeMap ProposalId (ProposalEnvelope P)) (q : DecimalU64)
      (staged : List (ProposalEnvelope P)) (answer : Result ProposalId PortError) (id : ProposalId)
      (f : DecimalU64)
      → admit_identifier op m q staged answer ≡ ok (id, f)
      → answer ≡ ok id
  unfolding next
  admit_identifier-answer op m q staged answer id f h = ground arith

module _ {P G : Type 0} ⦃gen : IdentifierGeneration G⦄ where
  -- The source answers these identifiers, one for each candidate.
  abbrev pub Answers : G → List (Candidate P) → List ProposalId → Type 0
  Answers g [] [] = Unit
  Answers g [] (id ∷ ids) = ⊥
  Answers g (c ∷ cs) [] = ⊥
  Answers g (c ∷ cs) (id ∷ ids) =
      ((gen.next_proposal_id g).0 ≡ ok id) × Answers (gen.next_proposal_id g).1 cs ids

  proposal_ids-batch :
      (op : OperationId) (q : DecimalU64) (cs : List (Candidate P)) (ids : List ProposalId) (g : G)
      → Answers g cs ids
      → proposal_ids (batch op q cs ids) ≡ ids
  proposal_ids-batch op q [] [] g h = refl
  proposal_ids-batch op q [] (id ∷ ids) g h = absurd h
  proposal_ids-batch op q (c ∷ cs) [] g h = absurd h
  proposal_ids-batch op q (c ∷ cs) (id ∷ ids) g h =
      ap (λ r. id ∷ r) (proposal_ids-batch op (q + 1) cs ids (gen.next_proposal_id g).1 h.1)

  stage_succeeds :
      (op : OperationId) (m : BTreeMap ProposalId (ProposalEnvelope P)) (q : DecimalU64)
      (staged : List (ProposalEnvelope P)) (cs : List (Candidate P)) (ids : List ProposalId) (g : G)
      → Answers g cs ids
      → AreFresh (λ id. contains_key id m || is_staged id staged) ids
      → q + length cs ≤ u64_max
      → (stage op m q staged cs g).0 ≡ ok (q + length cs, staged ++ batch op q cs ids)
  unfolding stage next
  stage_succeeds op m q staged [] [] g h k l = ground (arith, append-nil staged)
  stage_succeeds op m q staged [] (id ∷ ids) g h k l = absurd h
  stage_succeeds op m q staged (c ∷ cs) [] g h k l = absurd h
  stage_succeeds op m q staged (c ∷ cs) (id ∷ ids) g h k l =
      let x = mint op id (q + 1) c in
      let rest =
        stage_succeeds op m (q + 1) (staged ++ x ∷ []) cs ids (gen.next_proposal_id g).1 h.1
          (AreFresh-same (λ j. (contains_key j m || is_staged j staged) || (id == j))
            (λ j. contains_key j m || is_staged j (staged ++ x ∷ [])) ids
            (λ j. ground (arith, is_staged-append j staged (x ∷ []))) k.1)
          (omega arith) in
      ground (arith, h.0, k.0, rest, append_assoc staged (x ∷ []) (batch op (q + 1) cs ids))

  -- A round of candidates succeeds if the session is active, the source answers fresh identifiers,
  -- one for each candidate, and the counters have room; the caller gets those identifiers.
  pub propose_candidates_succeeds :
      (op : OperationId) (cs : List (Candidate P)) (ids : List ProposalId) (g : G)
      (s : RuntimeSession P)
      → may_initiate s.activation ≡ true
      → Answers g cs ids
      → AreFresh (λ id. contains_key id s.pending) ids
      → s.sequence + length cs ≤ u64_max
      → s.revision < u64_max
      → (propose_candidates op cs g s).0 ≡ ok ids
  unfolding propose_candidates conclude next
  propose_candidates_succeeds op cs ids g s live h k l r =
      let staged =
        stage_succeeds op s.pending s.sequence [] cs ids g h
          (AreFresh-same (λ id. contains_key id s.pending)
            (λ id. contains_key id s.pending || false) ids (λ id. ground arith) k)
          l in
      ground (
        arith,
        staged,
        live,
        commit-ids [] s.pending (batch op s.sequence cs ids),
        proposal_ids-batch op s.sequence cs ids g h,
      )

  -- What a loop that succeeds was answered.
  Answers-stage :
      (op : OperationId) (m : BTreeMap ProposalId (ProposalEnvelope P)) (q : DecimalU64)
      (staged : List (ProposalEnvelope P)) (cs : List (Candidate P)) (g : G) (r : DecimalU64)
      (es : List (ProposalEnvelope P))
      → (stage op m q staged cs g).0 ≡ ok (r, es)
      → (ids : List ProposalId) × Answers g cs ids
        × (es ≡ staged ++ batch op q cs ids)
        × AreFresh (λ id. contains_key id m || is_staged id staged) ids
        × (IsU64 q → q + length cs ≤ u64_max)
  unfolding stage
  Answers-stage op m q staged [] g r es h =
      ([], tt, ground (arith, append-nil staged), tt, λ l. ground arith)
  Answers-stage op m q staged (c ∷ cs) g r es h =
      let answer = (gen.next_proposal_id g).0 in
      let g' = (gen.next_proposal_id g).1 in
      elim (Result-cases (admit_identifier op m q staged answer)) [
        | inr (x, e) ↦ absurd (ground arith)
        | inl ((id, f), e) ↦
            let (step, fits, absent, apart) = admit_identifier-ok op m q staged answer id f e in
            let x = mint op id (q + 1) c in
            let (ids, answers, shape, fresh, range) =
              Answers-stage op m (q + 1) (staged ++ x ∷ []) cs g' r es (ground arith) in
            (
              id ∷ ids,
              (admit_identifier-answer op m q staged answer id f e, answers),
              ground (arith, append_assoc staged (x ∷ []) (batch op (q + 1) cs ids)),
              (
                ground arith,
                AreFresh-same (λ j. contains_key j m || is_staged j (staged ++ x ∷ []))
                    (λ j. (contains_key j m || is_staged j staged) || (id == j)) ids
                    (λ j. ground (arith, is_staged-append j staged (x ∷ []))) fresh,
              ),
              λ l. omega (arith, range (omega (arith, fits, step))),
            )
      ]

  -- A round of candidates succeeds, and gives the caller certain identifiers, exactly if the session
  -- is active, the source answers those identifiers, one for each candidate, none of them is held
  -- already or answered twice, and the counters have room.
  pub propose_candidates_iff :
      (op : OperationId) (cs : List (Candidate P)) (ids : List ProposalId) (g : G)
      (s : RuntimeSession P)
      → IsU64 s.sequence
      → ((propose_candidates op cs g s).0 ≡ ok ids) ↔ (
          (may_initiate s.activation ≡ true)
          × Answers g cs ids
          × AreFresh (λ id. contains_key id s.pending) ids
          × (s.sequence + length cs ≤ u64_max)
          × (s.revision < u64_max))
  unfolding propose_candidates conclude next
  propose_candidates_iff op cs ids g s fits = (
    only,
    λ (live, answers, fresh, room, turn).
        propose_candidates_succeeds op cs ids g s live answers fresh room turn,
  )
    where
      only :
          (propose_candidates op cs g s).0 ≡ ok ids
          → (may_initiate s.activation ≡ true)
            × Answers g cs ids
            × AreFresh (λ id. contains_key id s.pending) ids
            × (s.sequence + length cs ≤ u64_max)
            × (s.revision < u64_max)
      only h = elim (Result-cases (stage op s.pending s.sequence [] cs g).0) [
        | inr (x, e) ↦ absurd (ground arith)
        | inl ((r, es), e) ↦
            let (others, answers, shape, fresh, range) =
              Answers-stage op s.pending s.sequence [] cs g r es e in
            let same : others ≡ ids = ground (
              arith,
              commit-ids [] s.pending es,
              ap proposal_ids shape,
              proposal_ids-batch op s.sequence cs others g answers,
            ) in
            (
              ground arith,
              subst (Answers g cs) same answers,
              subst (AreFresh (λ id. contains_key id s.pending)) same (
                  AreFresh-same (λ id. contains_key id s.pending || false)
                    (λ id. contains_key id s.pending) others (λ id. ground arith) fresh),
              range fits,
              ground arith,
            )
      ]
