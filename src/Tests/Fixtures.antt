-- ===== src/Tests/Fixtures.antt =====
-- A session with one capability, its ports, and one admission and dispatch computed on it.
use artificial_intelligence.Base.{
  Bool, Bytes, List, Result, [], arith, codes, err, false, none, ok, refl, some, suc, true, zero, ℕ,
  ◌++◌, ◌∷◌, ◌≡◌,
}
use artificial_intelligence.BTree.{get, remove}
use artificial_intelligence.Contracts.Scalar.{next}
use artificial_intelligence.Contracts.Version.{current}
use artificial_intelligence.Contracts.Capability.{CapabilityName}
use artificial_intelligence.Contracts.Identifier.{
  Identifier, IdentifierKind, prefix, hex_length, identifier_ord, ProposalId, OperationId,
}
use artificial_intelligence.Contracts.Error.Failures.{authority_withheld}
use artificial_intelligence.Contracts.Envelope.{ProposalEnvelope, EffectRequestEnvelope}
use artificial_intelligence.Runtime.Activation.{active, may_settle_in_flight}
use artificial_intelligence.Runtime.Continuity.{SubjectBinding}
use artificial_intelligence.Runtime.Scope.{DelegationScope, permits}
use artificial_intelligence.Runtime.Ports
use artificial_intelligence.Runtime.Ports.{
  Candidate, Clock, IdentifierGeneration, Inference, Authority, PortError, AuthorityDecision,
}
use artificial_intelligence.Runtime.Session.{RuntimeSession}
use artificial_intelligence.Runtime.Session.Admit
use artificial_intelligence.Runtime.Session.Admit.{Admitted}
use artificial_intelligence.Runtime.Session.Invariant.{IsValid}
use artificial_intelligence.Runtime.Session.Boundary.{Reaches, start, then, admitted, dispatched}
use artificial_intelligence.Runtime.Session.Boundary.Guarded.{outset}

abbrev pub repeat : ℕ → ℕ → Bytes
repeat zero b = []
repeat (suc n) b = b ∷ repeat n b

-- The identifier whose hexadecimal digits are all the same.
abbrev pub identify : (kind : IdentifierKind) → ℕ → Identifier kind
identify kind digit = record { as_str = prefix kind ++ repeat (hex_length kind) digit }

abbrev pub speak : CapabilityName
speak = record { as_str = codes "speak" }

abbrev pub move : CapabilityName
move = record { as_str = codes "move" }

abbrev pub scope : DelegationScope
scope = record { held = (speak, tt) ∷ [] }

abbrev pub binding : SubjectBinding
binding = record {
  subject = identify IdentifierKind.subject b'1';
  controller = identify IdentifierKind.controller b'2';
  runtime = identify IdentifierKind.runtime b'3';
  model = none;
}

abbrev pub op : OperationId
op = identify IdentifierKind.operation b'4'

abbrev pub first : ProposalId
first = identify IdentifierKind.proposal b'5'

abbrev pub second : ProposalId
second = identify IdentifierKind.proposal b'6'

-- A clock that always answers its time.
instance abbrev pub steady_clock : Clock ℕ
steady_clock = record { now_unix_ms = λ c. ok c }

-- An identifier source that hands out a list, and fails once the list is empty.
abbrev pub hand_out : List ProposalId → Result ProposalId PortError × List ProposalId
hand_out [] = (err (record { port = Ports.identifier_generation }), [])
hand_out (id ∷ ids) = (ok id, ids)

instance abbrev pub listed_identifiers : IdentifierGeneration (List ProposalId)
listed_identifiers = record { next_proposal_id = hand_out }

-- A computation that answers what it holds.
instance abbrev pub fixed_inference : Inference (List (Candidate ℕ)) ℕ ℕ
fixed_inference = record { propose = λ i q. (ok i, i) }

-- An authority that admits what is requested if it is willing, and withholds otherwise.
abbrev pub judge : Bool → ProposalEnvelope ℕ → Result AuthorityDecision PortError
judge true e = ok (Ports.admit e.requested_capability)
judge false e = ok Ports.withhold

instance abbrev pub willing_authority : Authority Bool ℕ
willing_authority = record { decide = judge }

abbrev pub candidate : ℕ → Candidate ℕ
candidate n = record { requested_capability = speak; proposal = n }

abbrev pub fresh_session : RuntimeSession ℕ
fresh_session = record {
  session_id = identify IdentifierKind.session b'7';
  binding = binding;
  scope = scope;
  activation = active;
  sequence = 0;
  revision = 1;
  pending = [];
}

abbrev pub proposal_of : ProposalId → ℕ → ℕ → ProposalEnvelope ℕ
proposal_of id q n = record {
  contract_version = current;
  operation_id = op;
  proposal_id = id;
  sequence = q;
  requested_capability = speak;
  proposal = n;
}

-- The session that holds one proposal.
abbrev pub one_pending : RuntimeSession ℕ
one_pending = record fresh_session {
  sequence = 1;
  revision = 2;
  pending = (first, proposal_of first 1 42) ∷ [];
}

pub one_pending-IsValid : IsValid one_pending
one_pending-IsValid = record {
  sorted = (tt, tt);
  owned = (refl, omega arith, tt);
  scope_sorted = (tt, tt);
  sequence_fits = omega arith;
  revision_fits = omega arith;
}

abbrev pub granted : Admitted ℕ
granted = record {
  envelope = record {
    contract_version = current;
    operation_id = op;
    proposal_id = first;
    sequence = 2;
    granted_capability = speak;
    action = 42;
  };
}

abbrev pub requested : EffectRequestEnvelope ℕ
requested = record { contract_version = current; operation_id = op; sequence = 3; effect = 42 }

abbrev pub after_grant : RuntimeSession ℕ
after_grant = record fresh_session { sequence = 2; revision = 3 }

abbrev pub after_dispatch : RuntimeSession ℕ
after_dispatch = record fresh_session { sequence = 3; revision = 4 }

pub admit-one : Admit.admit op first true one_pending ≡ (ok granted, after_grant)
unfolding Admit.admit Admit.settle_decision Admit.grant next permits get remove may_settle_in_flight
admit-one = refl

abbrev pub after_refusal : RuntimeSession ℕ
after_refusal = record fresh_session { sequence = 1; revision = 3 }

pub admit-none :
    Admit.admit op first false one_pending
    ≡ (err (authority_withheld (some op) first speak), after_refusal)
unfolding Admit.admit Admit.settle_decision Admit.release_decided next permits get remove
    may_settle_in_flight
admit-none = refl

pub dispatch-one : Admit.dispatch op granted after_grant ≡ (ok requested, after_dispatch)
unfolding Admit.dispatch next
dispatch-one = refl

pub one_reached :
    Reaches ℕ ℕ
      (List (Candidate ℕ))
      ℕ
      (List ProposalId)
      Bool
      (outset ℕ ℕ (List (Candidate ℕ)) ℕ (List ProposalId) Bool one_pending)
      (record {
        session = after_dispatch;
        held = [];
        requests = requested ∷ [];
        granted = granted ∷ [];
      })
one_reached =
    then (then start (admitted op first true granted after_grant admit-one))
      (dispatched op granted [] [] requested after_dispatch refl dispatch-one)
