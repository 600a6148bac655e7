-- ===== src/Runtime/Ledger.antt =====
-- What a session of session.rs promises about its proposals, without the session: a book that says
-- what is held under each identifier and how many sequences have been issued, and the ways in which
-- it may change. A map is a function here, so the order and the layout of its entries are forgotten.
pub mod Settling
pub mod Keeping
pub mod Refining
pub mod Deciding
use artificial_intelligence.Base.{
  All, List, Option, [], if◌then◌else◌, length, none, some, ℕ, ◌++◌, ◌+◌, ◌==◌, ◌∷◌, ◌≡◌, ◌≢◌, ◌≤◌,
  bytes_ord,
}
use artificial_intelligence.Contracts.Scalar.{DecimalU64}
use artificial_intelligence.Contracts.Identifier.{ProposalId, identifier_ord}
use artificial_intelligence.Contracts.Envelope.{ProposalEnvelope}
use artificial_intelligence.Runtime.Session.Transaction.{find}
use artificial_intelligence.Runtime.Session.Batch.{or_else, IsDistinct}

pub record Ledger (P : Type 0) : Type 0 where
  pub held : ProposalId → Option (ProposalEnvelope P)
  pub issued : DecimalU64

module _ {P : Type 0} where
  -- The proposals carry the next sequences, in order.
  abbrev pub IsNumbered : DecimalU64 → List (ProposalEnvelope P) → Type 0
  IsNumbered q [] = Unit
  IsNumbered q (e ∷ es) = (e.sequence ≡ q + 1) × IsNumbered (q + 1) es

  -- Nothing is held under the identifiers of the proposals.
  abbrev pub AreFree :
      (ProposalId → Option (ProposalEnvelope P)) → List (ProposalEnvelope P) → Type 0
  AreFree held [] = Unit
  AreFree held (e ∷ es) = (held e.proposal_id ≡ none) × AreFree held es

  -- The book stays as it is but for at most one sequence; a batch of new proposals is recorded; or
  -- one proposal that is held is settled, for good.
  pub data Step (l : Ledger P) (m : Ledger P) : Type 0 where
    idle :
        ((id : ProposalId) → m.held id ≡ l.held id)
        → l.issued ≤ m.issued
        → m.issued ≤ l.issued + 1
        → Step l m
    record_batch :
        (es : List (ProposalEnvelope P))
        → AreFree l.held es
        → IsDistinct es
        → IsNumbered l.issued es
        → ((id : ProposalId) → m.held id ≡ or_else (find id es) (l.held id))
        → m.issued ≡ l.issued + length es
        → Step l m
    settle :
        (id : ProposalId) (e : ProposalEnvelope P)
        → l.held id ≡ some e
        → ((j : ProposalId) → m.held j ≡ (if id == j then none else l.held j))
        → l.issued ≤ m.issued
        → m.issued ≤ l.issued + 1
        → Step l m

  -- The sequence of the proposal that a step settles.
  abbrev pub settled : {l m : Ledger P} → Step l m → List DecimalU64
  settled (idle h a b) = []
  settled (record_batch es f d n h q) = []
  settled (settle id e g h a b) = e.sequence ∷ []

  pub data Course (n : Ledger P) : Ledger P → Type 0 where
    done : Course n n
    onward : {l m : Ledger P} → Step l m → Course n m → Course n l

  abbrev pub settlements : {n l : Ledger P} → Course n l → List DecimalU64
  settlements done = []
  settlements (onward st p) = settled st ++ settlements p

  -- Every sequence held has been issued, and no two proposals share one.
  pub record IsSound (l : Ledger P) : Type 0 where
    pub below :
        (id : ProposalId) (e : ProposalEnvelope P) → l.held id ≡ some e → e.sequence ≤ l.issued
    pub unique :
        (i j : ProposalId) (e f : ProposalEnvelope P)
        → l.held i ≡ some e
        → l.held j ≡ some f
        → e.sequence ≡ f.sequence
        → i ≡ j

-- No number stands twice.
abbrev pub AreDistinct : List ℕ → Type 0
AreDistinct [] = Unit
AreDistinct (x ∷ xs) = All (λ y. y ≢ x) xs × AreDistinct xs
