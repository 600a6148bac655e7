-- ===== src/Runtime/Display.antt =====
-- The `Display` implementations of ports.rs, scope.rs and activation.rs in crates/aiai-runtime/src.
use artificial_intelligence.Base.{Bytes, codes, ◌++◌}
use artificial_intelligence.Contracts.Error.{port_str}
use artificial_intelligence.Runtime.Activation.{
  ActivationState, ActivationTransition, InvalidTransition,
}
use artificial_intelligence.Runtime.Activation.ActivationState.{dormant, active, quiescing}
use artificial_intelligence.Runtime.Activation.ActivationTransition.{wake, quiesce, settle}
use artificial_intelligence.Runtime.Scope.{ScopeExpansion}
use artificial_intelligence.Runtime.Ports.{PortKind, PortError, context_port}

unfoldable pub show_port_kind : PortKind → Bytes
unfolding context_port port_str
show_port_kind p = port_str (context_port p)

unfoldable pub show_port_error : PortError → Bytes
unfolding show_port_kind
show_port_error error = codes "the " ++ show_port_kind error.port ++ codes " port is unavailable"

unfoldable pub show_scope_expansion : ScopeExpansion → Bytes
show_scope_expansion expansion = codes "delegated scope is broader than its source"

-- The derived `Debug` of an enumeration prints the name of the variant.
abbrev pub debug_state : ActivationState → Bytes
debug_state dormant = codes "Dormant"
debug_state active = codes "Active"
debug_state quiescing = codes "Quiescing"

abbrev pub debug_transition : ActivationTransition → Bytes
debug_transition wake = codes "Wake"
debug_transition quiesce = codes "Quiesce"
debug_transition settle = codes "Settle"

unfoldable pub show_invalid_transition : InvalidTransition → Bytes
show_invalid_transition error =
    codes "activation transition "
    ++ debug_transition error.transition
    ++ codes " is not defined from "
    ++ debug_state error.state
