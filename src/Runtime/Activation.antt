-- ===== src/Runtime/Activation.antt =====
-- crates/aiai-runtime/src/activation.rs: whether the runtime of a subject may compute.
pub mod Laws
use artificial_intelligence.Base.{Bool, Option, Result, err, false, none, ok, some, true}

pub data ActivationState : Type 0 where
  dormant active quiescing : ActivationState

pub data ActivationTransition : Type 0 where
  wake quiesce settle : ActivationTransition

pub record InvalidTransition : Type 0 where
  pub state : ActivationState
  pub transition : ActivationTransition

unfoldable pub may_initiate : ActivationState → Bool
may_initiate active = true
may_initiate _ = false

unfoldable pub may_settle_in_flight : ActivationState → Bool
may_settle_in_flight active = true
may_settle_in_flight quiescing = true
may_settle_in_flight dormant = false

unfoldable pub apply :
    ActivationState → ActivationTransition → Result ActivationState InvalidTransition
apply dormant wake = ok active
apply active quiesce = ok quiescing
apply quiescing settle = ok dormant
apply state transition = err (record { state = state; transition = transition })

unfoldable pub transition_to :
    ActivationState → ActivationState → Result (Option ActivationTransition) InvalidTransition
transition_to dormant dormant = ok none
transition_to active active = ok none
transition_to quiescing quiescing = ok none
transition_to dormant active = ok (some wake)
transition_to active quiescing = ok (some quiesce)
transition_to quiescing dormant = ok (some settle)
transition_to quiescing active = err (record { state = quiescing; transition = wake })
transition_to dormant quiescing = err (record { state = dormant; transition = quiesce })
transition_to active dormant = err (record { state = active; transition = settle })
