-- ===== src/Runtime/Ledger/Keeping.antt =====
-- What becomes of what the book holds, over its steps.
use artificial_intelligence.Base.{
  Any, Any-append, Bool-cases, List, Option, [], ap, arith, eq_of_==, inl, inr, none, refl, some,
  sym, ◌==◌, ◌∙◌, ◌∷◌, ◌≡◌, ◌⊎◌, bytes_ord,
}
use artificial_intelligence.Contracts.Identifier.{ProposalId, identifier_ord}
use artificial_intelligence.Contracts.Envelope.{ProposalEnvelope}
use artificial_intelligence.Runtime.Session.Transaction.{find}
use artificial_intelligence.Runtime.Ledger.{
  Ledger, AreFree, Step, idle, record_batch, settle, settled, Course, done, onward, settlements,
}

module _ {P : Type 0} where
  find-AreFree :
      (held : ProposalId → Option (ProposalEnvelope P)) (es : List (ProposalEnvelope P))
      (id : ProposalId) (e : ProposalEnvelope P)
      → AreFree held es
      → held id ≡ some e
      → find id es ≡ none
  find-AreFree held [] id e f h = refl
  find-AreFree held (x ∷ es) id e f h = elim (Bool-cases (x.proposal_id == id)) [
    | inl same ↦
        let here : held id ≡ none = ap held (sym (eq_of_== x.proposal_id id same)) ∙ f.0 in
        absurd (ground (arith, here))
    | inr other ↦ ground (arith, find-AreFree held es id e f.1 h)
  ]

  held_after :
      {l m : Ledger P} (st : Step l m) (id : ProposalId) (e : ProposalEnvelope P)
      → l.held id ≡ some e
      → (m.held id ≡ some e) ⊎ Any (λ q. q ≡ e.sequence) (settled st)
  held_after (idle h a b) id e k = inl (h id ∙ k)
  held_after {l} (record_batch es f d n h q) id e k =
      inl (ground (arith, h id, find-AreFree l.held es id e f k))
  held_after {l} (settle i x g h a b) id e k = elim (Bool-cases (i == id)) [
    | inl same ↦
        let one : x ≡ e = ground (arith, ap l.held (eq_of_== i id same)) in
        inr (inl (ap (λ (y : ProposalEnvelope P). y.sequence) one))
    | inr other ↦ inl (ground (arith, h id))
  ]

  -- Whatever steps follow, what is held stays held as it is, or it is settled on the way.
  pub held_or_settled :
      {n l : Ledger P} (p : Course n l) (id : ProposalId) (e : ProposalEnvelope P)
      → l.held id ≡ some e
      → (n.held id ≡ some e) ⊎ Any (λ q. q ≡ e.sequence) (settlements p)
  held_or_settled done id e k = inl k
  held_or_settled (onward st p) id e k = elim (held_after st id e k) [
    | inr now ↦ inr (Any-append (λ q. q ≡ e.sequence) (settled st) (settlements p) (inl now))
    | inl still ↦ elim (held_or_settled p id e still) [
      | inl kept ↦ inl kept
      | inr later ↦ inr (Any-append (λ q. q ≡ e.sequence) (settled st) (settlements p) (inr later))
    ]
  ]
