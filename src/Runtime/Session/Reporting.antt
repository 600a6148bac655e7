-- ===== src/Runtime/Session/Reporting.antt =====
-- What `turn_ok` of session.rs reports.
use artificial_intelligence.Base.{
  List, Option-cases, Result-cases, [], append-nil, append_assoc, arith, inl, inr, ok, some, subst,
  ◌++◌, ◌↔◌, ◌∙◌, ◌∷◌, ◌≡◌,
}
use artificial_intelligence.BTree.{BTreeMap, get}
use artificial_intelligence.Contracts.Version.{current}
use artificial_intelligence.Contracts.Identifier.{ProposalId, OperationId, identifier_ord}
use artificial_intelligence.Contracts.Envelope.{ProposalEnvelope, EffectRequestEnvelope, TurnOk}
use artificial_intelligence.Runtime.Session.{RuntimeSession}
use artificial_intelligence.Runtime.Session.Turn.{gather, turn_ok}

module _ {P : Type 0} where
  -- The entries under the identifiers, one for each and in their order.
  abbrev pub AreHeld :
      BTreeMap ProposalId (ProposalEnvelope P)
      → List ProposalId
      → List (ProposalEnvelope P)
      → Type 0
  AreHeld pending [] [] = Unit
  AreHeld pending [] (e ∷ es) = ⊥
  AreHeld pending (id ∷ ids) [] = ⊥
  AreHeld pending (id ∷ ids) (e ∷ es) = (get id pending ≡ some e) × AreHeld pending ids es

  gather-AreHeld :
      (op : OperationId) (pending : BTreeMap ProposalId (ProposalEnvelope P))
      (before out : List (ProposalEnvelope P)) (ids : List ProposalId)
      → gather op pending before ids ≡ ok out
      → (es : List (ProposalEnvelope P)) × AreHeld pending ids es × (out ≡ before ++ es)
  unfolding gather
  gather-AreHeld op pending before out [] h = ([], tt, ground (arith, append-nil before))
  gather-AreHeld op pending before out (id ∷ ids) h = elim (Option-cases (get id pending)) [
    | inl n ↦ absurd (ground arith)
    | inr (e, g) ↦
        let (es, held, same) =
          gather-AreHeld op pending (before ++ e ∷ []) out ids (ground arith) in
        (e ∷ es, (g, held), same ∙ append_assoc before (e ∷ []) es)
  ]

  AreHeld-gather :
      (op : OperationId) (pending : BTreeMap ProposalId (ProposalEnvelope P))
      (before es : List (ProposalEnvelope P)) (ids : List ProposalId)
      → AreHeld pending ids es
      → gather op pending before ids ≡ ok (before ++ es)
  unfolding gather
  AreHeld-gather op pending before [] [] h = ground (arith, append-nil before)
  AreHeld-gather op pending before (e ∷ es) [] h = absurd h
  AreHeld-gather op pending before [] (id ∷ ids) h = absurd h
  AreHeld-gather op pending before (e ∷ es) (id ∷ ids) h = ground (
    arith,
    h.0,
    AreHeld-gather op pending (before ++ e ∷ []) es ids h.1,
    append_assoc before (e ∷ []) es,
  )

  -- A turn is reported exactly if every identifier named is that of a pending proposal, and the
  -- report holds those proposals in the order named, the effects given, the session's revision and
  -- the current contract version.
  pub turn_ok_iff :
      {F : Type 0} (op : OperationId) (ids : List ProposalId)
      (effects : List (EffectRequestEnvelope F)) (s : RuntimeSession P) (t : TurnOk P F)
      → (turn_ok op ids effects s ≡ ok t) ↔ (
          AreHeld s.pending ids t.proposals
          × (t ≡ record {
            contract_version = current;
            operation_id = op;
            session_revision = s.revision;
            proposals = t.proposals;
            effect_requests = effects;
          }))
  unfolding turn_ok
  turn_ok_iff {F} op ids effects s t = (sound, complete)
    where
      sound :
          turn_ok op ids effects s ≡ ok t
          → AreHeld s.pending ids t.proposals
            × (t ≡ record {
              contract_version = current;
              operation_id = op;
              session_revision = s.revision;
              proposals = t.proposals;
              effect_requests = effects;
            })
      sound h = elim (Result-cases (gather op s.pending [] ids)) [
        | inr (x, e) ↦ absurd (ground arith)
        | inl (out, e) ↦
            let (es, held, same) = gather-AreHeld op s.pending [] out ids e in
            let listed : es ≡ t.proposals = ground (arith, same) in
            (subst (AreHeld s.pending ids) listed held, ground arith)
      ]

      complete :
          AreHeld s.pending ids t.proposals
            × (t ≡ record {
              contract_version = current;
              operation_id = op;
              session_revision = s.revision;
              proposals = t.proposals;
              effect_requests = effects;
            })
          → turn_ok op ids effects s ≡ ok t
      complete (held, e) = ground (arith, AreHeld-gather op s.pending [] t.proposals ids held, e)
