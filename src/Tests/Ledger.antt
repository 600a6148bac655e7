-- ===== src/Tests/Ledger.antt =====
-- The theorems on the book of a session, on success and on repeated calls, applied to the session
-- of the fixtures.
use artificial_intelligence.Base.{
  Any, Bool, List, [], arith, false, none, ok, refl, some, true, ℕ, ◌<◌, ◌∷◌, ◌≡◌, ◌≤◌, ◌⊎◌,
}
use artificial_intelligence.BTree.{get, insert, remove, contains_key}
use artificial_intelligence.Contracts.Scalar.{next}
use artificial_intelligence.Contracts.Identifier.{ProposalId, identifier_ord}
use artificial_intelligence.Contracts.Error.{FoundationError, is_retryable, kind}
use artificial_intelligence.Contracts.Error.Failures.{missing_context}
use artificial_intelligence.Runtime.Activation.{may_initiate, may_settle_in_flight}
use artificial_intelligence.Runtime.Scope.{permits}
use artificial_intelligence.Runtime.Ports
use artificial_intelligence.Runtime.Ports.{Candidate, context_port}
use artificial_intelligence.Runtime.Session.{port_failure}
use artificial_intelligence.Runtime.Session.Conclude
use artificial_intelligence.Runtime.Session.Propose
use artificial_intelligence.Runtime.Session.Admit
use artificial_intelligence.Runtime.Session.History
use artificial_intelligence.Runtime.Session.History.{Call, perform, run}
use artificial_intelligence.Runtime.Session.Retrying.{failure, retryable_unchanged}
use artificial_intelligence.Runtime.Session.Succeeding.{AreFresh, Answers, propose_candidates_iff}
use artificial_intelligence.Runtime.Session.Effecting.{Effected, proposal_reaches_effect}
use artificial_intelligence.Contracts.Decimal.{u64_max}
use artificial_intelligence.Runtime.Ledger.{AreDistinct}
use artificial_intelligence.Runtime.Ledger.Refining.{empty-IsSound, Settles}
use artificial_intelligence.Runtime.Ledger.Deciding.{
  decided, decisions, perform-Settles, decisions-AreDistinct, pending_or_decided,
}
use artificial_intelligence.Tests.Fixtures.{
  speak, op, first, second, steady_clock, listed_identifiers, fixed_inference, willing_authority,
  candidate, fresh_session, one_pending, proposal_of,
}

-- Two proposals are made; one is refused, and cannot be decided again, and the other is admitted.
abbrev history : List (Call ℕ ℕ ℕ (List (Candidate ℕ)) ℕ (List ProposalId) Bool)
history =
    History.propose_candidates op (candidate 7 ∷ candidate 8 ∷ []) (first ∷ second ∷ [])
    ∷ History.admit op second false
    ∷ History.admit op second true
    ∷ History.admit op first true
    ∷ []

decisions-history : decisions history fresh_session ≡ 2 ∷ 1 ∷ []
unfolding decisions decided perform Propose.propose_candidates Propose.stage Conclude.commit
    Conclude.conclude insert get next may_initiate Admit.admit Admit.settle_decision Admit.grant
    Admit.release_decided permits remove may_settle_in_flight
decisions-history = refl

decisions-AreDistinct_example : AreDistinct (decisions history fresh_session)
decisions-AreDistinct_example =
    decisions-AreDistinct history fresh_session (empty-IsSound fresh_session refl)

abbrev refusal : Call ℕ ℕ ℕ (List (Candidate ℕ)) ℕ (List ProposalId) Bool
refusal = History.admit op first false

perform-Settles_example :
    Settles one_pending (perform refusal one_pending) (decided refusal one_pending)
perform-Settles_example = perform-Settles refusal one_pending

-- The identifier source fails at the second candidate.
abbrev unsourced : Call ℕ ℕ ℕ (List (Candidate ℕ)) ℕ (List ProposalId) Bool
unsourced = History.propose_candidates op (candidate 7 ∷ candidate 8 ∷ []) (first ∷ [])

abbrev no_source : FoundationError
no_source = missing_context (some op) (context_port Ports.identifier_generation)

failure-unsourced : failure unsourced fresh_session ≡ some no_source
unfolding failure Propose.propose_candidates Propose.stage Conclude.conclude get next may_initiate
    port_failure
failure-unsourced = refl

is_retryable-no_source : is_retryable no_source.code ≡ true
unfolding is_retryable kind
is_retryable-no_source = refl

retryable_unchanged_example : perform unsourced fresh_session ≡ fresh_session
retryable_unchanged_example =
    retryable_unchanged unsourced fresh_session no_source failure-unsourced is_retryable-no_source

initiates-fresh : may_initiate fresh_session.activation ≡ true
unfolding may_initiate
initiates-fresh = refl

get-fresh : get first fresh_session.pending ≡ none
unfolding get
get-fresh = refl

propose_two-fresh :
    (Propose.propose_candidates op
      (candidate 7 ∷ candidate 8 ∷ [])
      (first ∷ second ∷ [])
      fresh_session).0
    ≡ ok (first ∷ second ∷ [])
unfolding Propose.propose_candidates Propose.stage Conclude.commit Conclude.conclude insert get next
    may_initiate
propose_two-fresh = refl

propose_candidates_iff_example :
    (may_initiate fresh_session.activation ≡ true)
    × Answers (first ∷ second ∷ []) (candidate 7 ∷ candidate 8 ∷ []) (first ∷ second ∷ [])
    × AreFresh (λ id. contains_key id fresh_session.pending) (first ∷ second ∷ [])
    × (2 ≤ u64_max)
    × (1 < u64_max)
propose_candidates_iff_example =
    (propose_candidates_iff op (candidate 7 ∷ candidate 8 ∷ []) (first ∷ second ∷ [])
        (first ∷ second ∷ []) fresh_session (omega arith)).0
      propose_two-fresh

get-one : get first one_pending.pending ≡ some (proposal_of first 1 42)
unfolding get
get-one = refl

pending_or_decided_example :
    (get first (run history one_pending).pending ≡ some (proposal_of first 1 42))
    ⊎ Any (λ q. q ≡ 1) (decisions history one_pending)
pending_or_decided_example =
    pending_or_decided history one_pending first (proposal_of first 1 42) get-one

permits-speak : permits fresh_session.scope speak ≡ true
unfolding permits get
permits-speak = refl

proposal_reaches_effect_example :
    ((Propose.propose_candidates op (candidate 7 ∷ []) (first ∷ []) fresh_session).0
      ≡ ok (first ∷ []))
    × Effected op first true
        (Propose.propose_candidates op (candidate 7 ∷ []) (first ∷ []) fresh_session).2
        7
        3
proposal_reaches_effect_example =
    proposal_reaches_effect op (candidate 7) first (first ∷ []) true speak fresh_session
      initiates-fresh refl get-fresh refl permits-speak (omega arith) (omega arith)
