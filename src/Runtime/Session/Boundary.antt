-- ===== src/Runtime/Session/Boundary.antt =====
-- The authority boundary of lib.rs and session.rs over whole histories: a session together with
-- the admissions that its caller holds and the effect requests made. An admission is a value that
-- the source moves and never copies, so a dispatch takes it out of the caller's hands.
pub mod Guarded
use artificial_intelligence.Base.{
  All, Bool, List, err, false, length, ok, true, ◌++◌, ◌+◌, ◌∷◌, ◌≡◌, ◌≤◌,
}
use artificial_intelligence.Contracts.Capability.{CapabilityName}
use artificial_intelligence.Contracts.Identifier.{ProposalId, OperationId, identifier_ord}
use artificial_intelligence.Contracts.Error.{FoundationError}
use artificial_intelligence.Contracts.Envelope.{ProposalEnvelope, EffectRequestEnvelope}
use artificial_intelligence.Runtime.Scope.{DelegationScope, permits}
use artificial_intelligence.Runtime.Ports
use artificial_intelligence.Runtime.Ports.{Clock, IdentifierGeneration, Inference, Authority}
use artificial_intelligence.Runtime.Session.{RuntimeSession}
use artificial_intelligence.Runtime.Session.Admit
use artificial_intelligence.Runtime.Session.Admit.{Admitted}
use artificial_intelligence.Runtime.Session.Identity.{
  SameIdentity, admit-SameIdentity, dispatch-SameIdentity,
}
use artificial_intelligence.Runtime.Session.Authority.{admit_iff}
use artificial_intelligence.Runtime.Session.Dispatching.{dispatch-ok}
use artificial_intelligence.Runtime.Session.History.{
  Call, admit, dispatch, perform, perform-SameIdentity,
}

-- `granted` records every admission ever made; the program does not keep it.
pub record World (P : Type 0) : Type 0 where
  pub session : RuntimeSession P
  pub held : List (Admitted P)
  pub requests : List (EffectRequestEnvelope P)
  pub granted : List (Admitted P)

-- Whether a call neither admits nor dispatches.
abbrev pub is_other : {P R C I Q G A : Type 0} → Call P R C I Q G A → Bool
is_other (admit op id authority) = false
is_other (dispatch op a) = false
is_other _ = true

module _ {P : Type 0} (R C I Q G A : Type 0) ⦃clk : Clock C⦄ ⦃inf : Inference I Q P⦄
    ⦃gen : IdentifierGeneration G⦄ ⦃aut : Authority A P⦄ where
  pub data Step (w : World P) : World P → Type 0 where
    other :
        (c : Call P R C I Q G A)
        → is_other c ≡ true
        → Step w (record w { session = perform c w.session })
    admitted :
        (op : OperationId) (id : ProposalId) (authority : A) (x : Admitted P) (t : RuntimeSession P)
        → Admit.admit op id authority w.session ≡ (ok x, t)
        → Step w (record w { session = t; held = x ∷ w.held; granted = x ∷ w.granted })
    refused :
        (op : OperationId) (id : ProposalId) (authority : A) (y : FoundationError)
        (t : RuntimeSession P)
        → Admit.admit op id authority w.session ≡ (err y, t)
        → Step w (record w { session = t })
    dispatched :
        (op : OperationId) (x : Admitted P) (before rest : List (Admitted P))
        (e : EffectRequestEnvelope P) (t : RuntimeSession P)
        → w.held ≡ before ++ x ∷ rest
        → Admit.dispatch op x w.session ≡ (ok e, t)
        → Step w (record w { session = t; held = before ++ rest; requests = e ∷ w.requests })
    dispatch_failed :
        (op : OperationId) (x : Admitted P) (before rest : List (Admitted P)) (y : FoundationError)
        (t : RuntimeSession P)
        → w.held ≡ before ++ x ∷ rest
        → Admit.dispatch op x w.session ≡ (err y, t)
        → Step w (record w { session = t; held = before ++ rest })
    dropped :
        (x : Admitted P) (before rest : List (Admitted P))
        → w.held ≡ before ++ x ∷ rest
        → Step w (record w { held = before ++ rest })

  pub data Reaches (w : World P) : World P → Type 0 where
    start : Reaches w w
    then : {u v : World P} → Reaches w u → Step u v → Reaches w v

module _ {P : Type 0} (A : Type 0) ⦃aut : Authority A P⦄ where
  -- Some authority admitted a proposal under the capability granted, which the scope permits, and
  -- the action is that proposal's payload.
  abbrev pub IsAuthorized : DelegationScope → Admitted P → Type 0
  IsAuthorized scope x =
      (authority : A) × (e : ProposalEnvelope P) × (aut.decide authority e
        ≡ ok (Ports.admit x.envelope.granted_capability))
      × (permits scope x.envelope.granted_capability ≡ true)
      × (x.envelope.proposal_id ≡ e.proposal_id)
      × (x.envelope.action ≡ e.proposal)

  -- The effect is the action of an authorized admission.
  abbrev pub IsBacked : DelegationScope → EffectRequestEnvelope P → Type 0
  IsBacked scope r = (x : Admitted P) × IsAuthorized scope x × (r.effect ≡ x.envelope.action)

  pub record IsGuarded (scope : DelegationScope) (w : World P) : Type 0 where
    pub same_scope : w.session.scope ≡ scope
    pub held_authorized : All (IsAuthorized scope) w.held
    pub requests_backed : All (IsBacked scope) w.requests
    pub granted_authorized : All (IsAuthorized scope) w.granted
    pub at_most_once : length w.requests + length w.held ≤ length w.granted
