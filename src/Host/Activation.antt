-- ===== src/Host/Activation.antt =====
-- packages/aiai-contracts/src/activation.ts: the activation states and transitions, which the
-- package holds as strings.
pub mod Mirror
use artificial_intelligence.Base.{
  Bool, List, Option, Result, [], codes, err, if◌then◌else◌, none, ok, some, ◌&&◌, ◌==◌, ◌||◌, ◌∷◌,
  bytes_ord,
}
use artificial_intelligence.Host.Text.{Units}

-- `ACTIVATION_STATES`; `ActivationState` is one of these strings.
abbrev pub activation_states : List Units
activation_states = codes "dormant" ∷ codes "active" ∷ codes "quiescing" ∷ []

-- `ACTIVATION_TRANSITIONS`; `ActivationTransition` is one of these strings.
abbrev pub activation_transitions : List Units
activation_transitions = codes "wake" ∷ codes "quiesce" ∷ codes "settle" ∷ []

abbrev pub ActivationState : Type 0
ActivationState = Units

abbrev pub ActivationTransition : Type 0
ActivationTransition = Units

pub record ActivationRefused : Type 0 where
  pub state : ActivationState
  pub transition : ActivationTransition

abbrev pub activation_refused : ActivationState → ActivationTransition → ActivationRefused
activation_refused state transition = record { state = state; transition = transition }

-- `mayInitiate`
unfoldable pub may_initiate : ActivationState → Bool
may_initiate state = state == codes "active"

-- `maySettleInFlight`
unfoldable pub may_settle_in_flight : ActivationState → Bool
may_settle_in_flight state = state == codes "active" || state == codes "quiescing"

-- `applyActivation`
unfoldable pub apply_activation :
    ActivationState → ActivationTransition → Result ActivationState ActivationRefused
apply_activation state transition =
    if state == codes "dormant" && transition == codes "wake"
    then ok (codes "active")
    else if state == codes "active" && transition == codes "quiesce"
    then ok (codes "quiescing")
    else if state == codes "quiescing" && transition == codes "settle"
    then ok (codes "dormant")
    else err (activation_refused state transition)

-- `resolveActivation`
unfoldable pub resolve_activation :
    ActivationState → ActivationState → Result (Option ActivationTransition) ActivationRefused
resolve_activation state target =
    if state == target
    then ok none
    else if state == codes "dormant" && target == codes "active"
    then ok (some (codes "wake"))
    else if state == codes "active" && target == codes "quiescing"
    then ok (some (codes "quiesce"))
    else if state == codes "quiescing" && target == codes "dormant"
    then ok (some (codes "settle"))
    else if state == codes "quiescing"
    then err (activation_refused state (codes "wake"))
    else err (
        activation_refused state
          (if state == codes "dormant" then codes "quiesce" else codes "settle"))
