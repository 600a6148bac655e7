-- ===== src/Runtime/Ledger/Refining.antt =====
-- What each call of session.rs does to the book.
use artificial_intelligence.Base.{
  List, Option, Result, Result-cases, [], ap, arith, err, inl, inr, length, none, ok, refl, some,
  subst, sym, ◌+◌, ◌∙◌, ◌∷◌, ◌≡◌, ◌≤◌,
}
use artificial_intelligence.BTree.{BTreeMap, get, remove}
use artificial_intelligence.BTree.Lookup.{get-remove, get-remove_self}
use artificial_intelligence.Contracts.Scalar.{DecimalU64}
use artificial_intelligence.Contracts.Identifier.{ProposalId, OperationId, identifier_ord}
use artificial_intelligence.Contracts.Error.{FoundationError}
use artificial_intelligence.Contracts.Envelope.{ProposalEnvelope}
use artificial_intelligence.Runtime.Ports.{Candidate, IdentifierGeneration, Authority}
use artificial_intelligence.Runtime.Session.{RuntimeSession}
use artificial_intelligence.Runtime.Session.Propose
use artificial_intelligence.Runtime.Session.Admit
use artificial_intelligence.Runtime.Session.Admit.{Admitted}
use artificial_intelligence.Runtime.Session.Transaction.{
  IsMinted, IsNew, propose_candidates_transactional,
}
use artificial_intelligence.Runtime.Session.Batch.{IsNew-IsDistinct, propose_candidates_commits}
use artificial_intelligence.Runtime.Session.Authority.{admit_iff, admit_refusal}
use artificial_intelligence.Runtime.Session.Emission.{sequence_before}
use artificial_intelligence.Runtime.Ledger.{
  Ledger, IsNumbered, AreFree, Step, idle, record_batch, settle, settled, IsSound,
}

module _ {P : Type 0} where
  -- The book of a session.
  abbrev pub ledger : RuntimeSession P → Ledger P
  ledger s = record { held = λ id. get id s.pending; issued = s.sequence }

  -- A session that holds nothing.
  pub empty-IsSound : (s : RuntimeSession P) → s.pending ≡ [] → IsSound (ledger s)
  unfolding get
  empty-IsSound s h = record {
    below = λ id e k. absurd (ground (arith, ap (get id) h));
    unique = λ i j e f k l c. absurd (ground (arith, ap (get i) h));
  }

  -- What `admit` has decided under an identifier, by its result: the proposal held before, if it was
  -- admitted, or if it is no longer held.
  abbrev pub decided_by :
      Result (Admitted P) FoundationError
      → Option (ProposalEnvelope P)
      → Option (ProposalEnvelope P)
      → List DecimalU64
  decided_by (ok a) before after = sequence_before before []
  decided_by (err x) before (some e) = []
  decided_by (err x) before none = sequence_before before []

  IsMinted-IsNumbered :
      (op : OperationId) (q : DecimalU64) (cs : List (Candidate P)) (es : List (ProposalEnvelope P))
      → IsMinted op q cs es
      → IsNumbered q es × (length es ≡ length cs)
  IsMinted-IsNumbered op q [] [] k = (tt, refl)
  IsMinted-IsNumbered op q [] (e ∷ es) k = absurd k
  IsMinted-IsNumbered op q (c ∷ cs) [] k = absurd k
  IsMinted-IsNumbered op q (c ∷ cs) (e ∷ es) k =
      let (rest, count) = IsMinted-IsNumbered op (q + 1) cs es k.1 in
      ((ap (λ (x : ProposalEnvelope P). x.sequence) k.0, rest), omega (arith, count))

  IsNew-AreFree :
      (m : BTreeMap ProposalId (ProposalEnvelope P)) (es : List (ProposalEnvelope P))
      → IsNew m es
      → AreFree (λ id. get id m) es
  IsNew-AreFree m [] h = tt
  IsNew-AreFree m (e ∷ es) h = (h.0, IsNew-AreFree m es h.2)

  -- A step that settles exactly the numbers listed.
  abbrev pub Settles : RuntimeSession P → RuntimeSession P → List DecimalU64 → Type 0
  Settles s t xs = (st : Step (ledger s) (ledger t)) × (settled st ≡ xs)

  pub unchanged : (s t : RuntimeSession P) → t ≡ s → Settles s t []
  unchanged s t e = (
    idle (λ id. ap (λ (u : RuntimeSession P). get id u.pending) e)
        (omega (arith, ap (λ (u : RuntimeSession P). u.sequence) e))
        (omega (arith, ap (λ (u : RuntimeSession P). u.sequence) e)),
    refl,
  )

  -- A call that leaves the proposals alone.
  pub aside :
      (s t : RuntimeSession P)
      → t.pending ≡ s.pending
      → (s.sequence ≤ t.sequence) × (t.sequence ≤ s.sequence + 1)
      → Settles s t []
  aside s t e (a, b) = (idle (λ id. ap (get id) e) a b, refl)

  pub candidates_step :
      {G : Type 0} ⦃gen : IdentifierGeneration G⦄ (op : OperationId) (cs : List (Candidate P))
      (g : G) (s : RuntimeSession P)
      → Settles s (Propose.propose_candidates op cs g s).2 []
  candidates_step op cs g s =
      let t = (Propose.propose_candidates op cs g s).2 in
      elim (Result-cases (Propose.propose_candidates op cs g s).0) [
        | inr (x, e) ↦ unchanged s t (propose_candidates_transactional op cs g s x e)
        | inl (ids, e) ↦
            let (fresh, c) = propose_candidates_commits op cs g s ids e in
            let (numbered, count) = IsMinted-IsNumbered op s.sequence cs fresh c.minted in
            (
              record_batch fresh (IsNew-AreFree s.pending fresh c.new_ids)
                  (IsNew-IsDistinct s.pending fresh c.new_ids) numbered c.entries
                  (omega (arith, c.sequence, count)),
              refl,
            )
      ]

  removal :
      (s t : RuntimeSession P) (id : ProposalId) (e : ProposalEnvelope P)
      → get id s.pending ≡ some e
      → t.pending ≡ remove id s.pending
      → (s.sequence ≤ t.sequence) × (t.sequence ≤ s.sequence + 1)
      → Settles s t (e.sequence ∷ [])
  removal s t id e g h (a, b) =
      (settle id e g (λ j. ap (get j) h ∙ get-remove id j s.pending) a b, refl)

  undecided :
      (x : FoundationError) (before after : Option (ProposalEnvelope P))
      → after ≡ before
      → decided_by (err x) before after ≡ []
  undecided x none none h = refl
  undecided x (some e) none h = cc
  undecided x before (some f) h = refl

module _ {P A : Type 0} ⦃aut : Authority A P⦄ where
  pub admission_step :
      (op : OperationId) (id : ProposalId) (authority : A) (s : RuntimeSession P)
      → let (r, t) = Admit.admit op id authority s in
        Settles s t (decided_by r (get id s.pending) (get id t.pending))
  admission_step op id authority s =
      let t = (Admit.admit op id authority s).1 in
      elim (Result-cases (Admit.admit op id authority s).0) [
        | inl (x, k) ↦
            let (e, c, r) = (admit_iff authority op id s t x).0 (λ i. (k i, t)) in
            rw (k, r.held)
              (removal s t id e r.held (ap (λ (u : RuntimeSession P). u.pending) r.after)
                (rw r.after (omega arith, omega arith)))
        | inr (x, k) ↦ elim (admit_refusal authority op id s t x (λ i. (k i, t))) [
          | inl same ↦
              subst (Settles s t)
                (sym (
                  ap (λ r. decided_by r (get id s.pending) (get id t.pending)) k
                  ∙ undecided x (get id s.pending) (get id t.pending)
                      (ap (λ (u : RuntimeSession P). get id u.pending) same)))
                (unchanged s t same)
          | inr (after, _, (e, held, _)) ↦
              let gone : t.pending ≡ remove id s.pending =
                ap (λ (u : RuntimeSession P). u.pending) after in
              let none_held : get id t.pending ≡ none =
                ap (get id) gone ∙ get-remove_self id s.pending in
              rw (k, none_held, held)
                (removal s t id e held gone (rw after (omega arith, omega arith)))
        ]
      ]
