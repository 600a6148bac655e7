-- ===== src/Host/Activation/Mirror.antt =====
-- The state machine of activation.ts beside that of crates/aiai-runtime/src/activation.rs.
use mathlib.Core.Option
use artificial_intelligence.Base.{Result, codes, err, ok, refl, ◌≡◌}
use artificial_intelligence.Runtime.Activation
use artificial_intelligence.Runtime.Activation.ActivationState.{dormant, active, quiescing}
use artificial_intelligence.Runtime.Activation.ActivationTransition.{wake, quiesce, settle}
use artificial_intelligence.Host.Text.{Units}
use artificial_intelligence.Host.Activation.{
  ActivationRefused, may_initiate, may_settle_in_flight, apply_activation, resolve_activation,
  activation_refused,
}

-- The string of a state and of a transition: its variant's name in lower case.
abbrev pub state_str : Activation.ActivationState → Units
state_str dormant = codes "dormant"
state_str active = codes "active"
state_str quiescing = codes "quiescing"

abbrev pub transition_str : Activation.ActivationTransition → Units
transition_str wake = codes "wake"
transition_str quiesce = codes "quiesce"
transition_str settle = codes "settle"

-- The exception beside the error of the crate.
abbrev pub refused_str : Activation.InvalidTransition → ActivationRefused
refused_str e = activation_refused (state_str e.state) (transition_str e.transition)

-- A result of the crate, told in strings.
abbrev pub told {ℓ κ} :
    {A : Type ℓ} {B : Type κ}
    → (A → B)
    → Result A Activation.InvalidTransition
    → Result B ActivationRefused
told f (ok a) = ok (f a)
told f (err e) = err (refused_str e)

apply-mirrors :
    (s : Activation.ActivationState) (t : Activation.ActivationTransition)
    → apply_activation (state_str s) (transition_str t) ≡ told state_str (Activation.apply s t)
unfolding apply_activation Activation.apply
apply-mirrors dormant wake = refl
apply-mirrors dormant quiesce = refl
apply-mirrors dormant settle = refl
apply-mirrors active wake = refl
apply-mirrors active quiesce = refl
apply-mirrors active settle = refl
apply-mirrors quiescing wake = refl
apply-mirrors quiescing quiesce = refl
apply-mirrors quiescing settle = refl

resolve-mirrors :
    (s target : Activation.ActivationState)
    → resolve_activation (state_str s) (state_str target)
      ≡ told (Option.map transition_str) (Activation.transition_to s target)
unfolding resolve_activation Activation.transition_to
resolve-mirrors dormant dormant = refl
resolve-mirrors dormant active = refl
resolve-mirrors dormant quiescing = refl
resolve-mirrors active dormant = refl
resolve-mirrors active active = refl
resolve-mirrors active quiescing = refl
resolve-mirrors quiescing dormant = refl
resolve-mirrors quiescing active = refl
resolve-mirrors quiescing quiescing = refl

gates-mirror :
    (s : Activation.ActivationState)
    → (may_initiate (state_str s) ≡ Activation.may_initiate s)
      × (may_settle_in_flight (state_str s) ≡ Activation.may_settle_in_flight s)
unfolding may_initiate may_settle_in_flight Activation.may_initiate Activation.may_settle_in_flight
gates-mirror dormant = (refl, refl)
gates-mirror active = (refl, refl)
gates-mirror quiescing = (refl, refl)

-- On every state the host's state machine is the runtime's, told in strings: the two tests agree,
-- every transition ends in the same state or is refused with the same pair, and to every target the
-- same step is found, or none, or the same pair is refused.
pub activation-mirrors :
    (s target : Activation.ActivationState) (t : Activation.ActivationTransition)
    → (may_initiate (state_str s) ≡ Activation.may_initiate s)
      × (may_settle_in_flight (state_str s) ≡ Activation.may_settle_in_flight s)
      × (apply_activation (state_str s) (transition_str t) ≡ told state_str (Activation.apply s t))
      × (resolve_activation (state_str s) (state_str target)
          ≡ told (Option.map transition_str) (Activation.transition_to s target))
activation-mirrors s target t =
    ((gates-mirror s).0, (gates-mirror s).1, apply-mirrors s t, resolve-mirrors s target)
