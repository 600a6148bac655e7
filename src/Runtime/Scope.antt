-- ===== src/Runtime/Scope.antt =====
-- crates/aiai-runtime/src/scope.rs: the capabilities that a runtime may request.
pub mod Laws
use artificial_intelligence.Base.{Bool, List, Result, [], err, false, if◌then◌else◌, ok, true, ◌∷◌}
use artificial_intelligence.BTree.{keys}
use artificial_intelligence.BTree.Sets.{BTreeSet, contains, collect, difference}
use artificial_intelligence.Contracts.Capability.{CapabilityName, capability_name_ord}

pub record ScopeExpansion : Type 0 where
  pub excess : BTreeSet CapabilityName

pub record DelegationScope : Type 0 where
  pub held : BTreeSet CapabilityName

-- `DelegationScope::new`
unfoldable pub new : List CapabilityName → DelegationScope
new granted = record { held = collect [] granted }

abbrev pub empty : DelegationScope
empty = record { held = [] }

unfoldable pub permits : DelegationScope → CapabilityName → Bool
permits s capability = contains s.held capability

-- `BTreeSet::is_empty`
abbrev pub is_empty_set : BTreeSet CapabilityName → Bool
is_empty_set [] = true
is_empty_set (_ ∷ _) = false

unfoldable pub is_empty : DelegationScope → Bool
is_empty s = is_empty_set s.held

-- `DelegationScope::capabilities`, in canonical order.
abbrev pub capabilities : DelegationScope → List CapabilityName
capabilities s = keys s.held

-- The `excess` that `narrow` collects.
abbrev pub excess_of : DelegationScope → DelegationScope → BTreeSet CapabilityName
excess_of self requested = collect [] (keys (difference requested.held self.held))

unfoldable pub narrow : DelegationScope → DelegationScope → Result DelegationScope ScopeExpansion
narrow self requested =
    if is_empty_set (excess_of self requested)
    then ok requested
    else err (record { excess = excess_of self requested })
