-- ===== src/Tests/Runtime.antt =====
-- The theorems on the runtime applied to the session of the fixtures.
use artificial_intelligence.Base.{
  All, Bool, List, [], codes, err, false, is_ok, none, ok, refl, some, true, ℕ, ◌↔◌, ◌∷◌, ◌≡◌, ◌≤◌,
  ◌⊎◌,
}
use artificial_intelligence.BTree.{get, insert}
use artificial_intelligence.BTree.Sets.{collect, difference}
use artificial_intelligence.Contracts.Scalar.{next, IsU64}
use artificial_intelligence.Contracts.Version.{current, accepts_provider}
use artificial_intelligence.Contracts.Capability.{CapabilityName, capability_name_ord}
use artificial_intelligence.Contracts.Identifier.{IdentifierKind, identifier_ord, ProposalId}
use artificial_intelligence.Contracts.Error.Failures.{authority_withheld, duplicate_proposal_id}
use artificial_intelligence.Contracts.Envelope.{ProposalEnvelope}
use artificial_intelligence.Runtime.Activation.{
  active, dormant, quiescing, wake, settle, apply, may_initiate,
}
use artificial_intelligence.Runtime.Activation.Laws.{Run, start, step}
use artificial_intelligence.Runtime.Continuity.{SubjectBinding}
use artificial_intelligence.Runtime.Scope.{DelegationScope, narrow}
use artificial_intelligence.Runtime.Session.Snapshot.{snapshot, restore}
use artificial_intelligence.Runtime.Session.Conclude
use artificial_intelligence.Runtime.Session.Propose
use artificial_intelligence.Runtime.Ports.{Candidate, PortKind, context_port}
use artificial_intelligence.Contracts.Error.{port_str}
use artificial_intelligence.Runtime.Display.{
  show_port_error, show_port_kind, show_invalid_transition,
}
use artificial_intelligence.Runtime.Session.Invariant.{IsValid}
use artificial_intelligence.Runtime.Session.Transaction.{propose_candidates_transactional}
use artificial_intelligence.Runtime.Session.Batch.{Committed, propose_candidates_commits}
use artificial_intelligence.Runtime.Session.Authority.{
  Grants, Refused, released, admit_iff, admit_refusal,
}
use artificial_intelligence.Runtime.Session.History
use artificial_intelligence.Runtime.Session.History.{
  Call, run, perform, run-IsValid, run-SameIdentity,
}
use artificial_intelligence.Runtime.Session.Emission.{Ascends, emissions, emissions-Ascends}
use artificial_intelligence.Runtime.Session.Restoring.{IsCoherent, restore-snapshot, restore_iff}
use artificial_intelligence.Runtime.Session.Boundary.{IsBacked}
use artificial_intelligence.Runtime.Session.Boundary.Guarded.{Reaches-IsBacked}
use artificial_intelligence.Tests.Fixtures.{
  identify, speak, move, scope, binding, op, first, second, steady_clock, listed_identifiers,
  fixed_inference, willing_authority, candidate, fresh_session, one_pending, one_pending-IsValid,
  granted, requested, after_grant, after_dispatch, admit-one, after_refusal, admit-none,
  one_reached,
}

Reaches-IsBacked_example : All (IsBacked Bool scope) (requested ∷ []) × (1 ≤ 1)
Reaches-IsBacked_example =
    Reaches-IsBacked ℕ ℕ (List (Candidate ℕ)) ℕ (List ProposalId) Bool one_pending
      (record {
        session = after_dispatch;
        held = [];
        requests = requested ∷ [];
        granted = granted ∷ [];
      })
      one_reached

admit_iff_example :
    (e : ProposalEnvelope ℕ) × (c : CapabilityName) × Grants true op first one_pending after_grant
      granted e c
admit_iff_example = (admit_iff true op first one_pending after_grant granted).0 admit-one

admit_refusal_example :
    (after_refusal ≡ one_pending)
    ⊎ ((after_refusal ≡ released first one_pending)
        × IsU64 3
        × Refused false op first one_pending (authority_withheld (some op) first speak))
admit_refusal_example =
    admit_refusal false op first one_pending after_refusal
      (authority_withheld (some op) first speak) admit-none

abbrev candidates : List (Candidate ℕ)
candidates = candidate 7 ∷ candidate 8 ∷ []

abbrev identifiers : List ProposalId
identifiers = first ∷ second ∷ []

propose_two :
    (Propose.propose_candidates op candidates identifiers fresh_session).0 ≡ ok identifiers
unfolding Propose.propose_candidates Propose.stage Conclude.commit Conclude.conclude insert get next
    may_initiate
propose_two = refl

propose_candidates_commits_example :
    (fresh : List (ProposalEnvelope ℕ)) × Committed op candidates fresh_session
      (Propose.propose_candidates op candidates identifiers fresh_session).2
      identifiers
      fresh
propose_candidates_commits_example =
    propose_candidates_commits op candidates identifiers fresh_session identifiers propose_two

-- The identifier source answers the same identifier twice.
abbrev repeated : List ProposalId
repeated = first ∷ first ∷ []

propose_repeated :
    (Propose.propose_candidates op candidates repeated fresh_session).0
    ≡ err (duplicate_proposal_id (some op) first)
unfolding Propose.propose_candidates Propose.stage Conclude.commit Conclude.conclude insert get next
    may_initiate
propose_repeated = refl

propose_candidates_transactional_example :
    (Propose.propose_candidates op candidates repeated fresh_session).2 ≡ fresh_session
propose_candidates_transactional_example =
    propose_candidates_transactional op candidates repeated fresh_session
      (duplicate_proposal_id (some op) first) propose_repeated

propose_repeated_inferred :
    (Propose.propose {Q = ℕ} op 0 candidates repeated fresh_session).0
    ≡ err (duplicate_proposal_id (some op) first)
unfolding Propose.propose Propose.propose_candidates Propose.stage Conclude.commit Conclude.conclude
    insert get next may_initiate
propose_repeated_inferred = refl

abbrev calls : List (Call ℕ ℕ ℕ (List (Candidate ℕ)) ℕ (List ProposalId) Bool)
calls =
    History.propose op 0 candidates (second ∷ [])
    ∷ History.propose_candidates op (candidate 7 ∷ []) (second ∷ [])
    ∷ History.admit op first true
    ∷ History.admit op second false
    ∷ History.dispatch op granted
    ∷ History.ensure_activation none dormant
    ∷ []

run-IsValid_example : IsValid (run calls one_pending)
run-IsValid_example = run-IsValid calls one_pending one_pending-IsValid

emissions-Ascends_example :
    Ascends one_pending.sequence (emissions calls one_pending) (run calls one_pending).sequence
emissions-Ascends_example = emissions-Ascends calls one_pending

restore-snapshot_example : restore (snapshot one_pending) ≡ ok one_pending
restore-snapshot_example = restore-snapshot one_pending one_pending-IsValid

restore_iff_example : (is_ok (restore (snapshot one_pending)) ≡ true) ↔ (
    (accepts_provider (snapshot one_pending).contract_version current ≡ true)
    × IsCoherent (snapshot one_pending).sequence (snapshot one_pending).pending)
restore_iff_example = restore_iff (snapshot one_pending)

abbrev wider : DelegationScope
wider = record { held = (move, tt) ∷ (speak, tt) ∷ [] }

narrow-wider : narrow wider scope ≡ ok scope
unfolding narrow collect difference get
narrow-wider = refl

abbrev moved : SubjectBinding
moved = record binding { controller = identify IdentifierKind.controller b'9' }

abbrev settled_run : Run quiescing active
unfolding apply
settled_run = step {t = dormant} wake (step {t = quiescing} settle start refl) refl

show_port_error-clock :
    show_port_error (record { port = PortKind.clock }) ≡ codes "the clock port is unavailable"
unfolding show_port_error show_port_kind context_port port_str
show_port_error-clock = refl

show_invalid_transition-settle :
    show_invalid_transition (record { state = active; transition = settle })
    ≡ codes "activation transition Settle is not defined from Active"
unfolding show_invalid_transition
show_invalid_transition-settle = refl
