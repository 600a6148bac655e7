-- ===== src/Runtime/Scope/Laws.antt =====
-- Scopes, narrowing and chains of delegations.
use artificial_intelligence.Base.{
  Bool-cases, List, [], ap, arith, err, inl, inr, not, ok, refl, subst, true, ◌&&◌, ◌↔◌, ◌∙◌, ◌∷◌,
  ◌≡◌,
}
use artificial_intelligence.BTree.{keys}
use artificial_intelligence.BTree.Sorted.{IsSorted}
use artificial_intelligence.BTree.Sets.{
  BTreeSet, contains, difference, mem, collect-IsSorted, contains-collect_new, collect-keys,
  contains-difference, eq-nil_of_contains, mem-keys, contains-empty,
}
use artificial_intelligence.Contracts.Capability.{CapabilityName, capability_name_ord}
use artificial_intelligence.Runtime.Scope.{
  ScopeExpansion, DelegationScope, new, permits, is_empty_set, excess_of, narrow, capabilities,
}

-- A scope permits exactly the capabilities that it was built from.
pub permits-new :
    (granted : List CapabilityName) (c : CapabilityName) → permits (new granted) c ≡ mem c granted
unfolding permits new
permits-new granted c = contains-collect_new granted c

-- Every capability that the first scope permits, the second permits.
abbrev pub IsWithin : DelegationScope → DelegationScope → Type 0
IsWithin r s = (c : CapabilityName) → permits r c ≡ true → permits s c ≡ true

contains-excess :
    (s r : DelegationScope) (c : CapabilityName)
    → contains (excess_of s r) c ≡ (permits r c && not (permits s c))
unfolding permits
contains-excess s r c =
    contains-collect_new (keys (difference r.held s.held)) c
    ∙ mem-keys (difference r.held s.held) c
    ∙ contains-difference r.held s.held c

is_empty_set_iff : (s : BTreeSet CapabilityName) → (is_empty_set s ≡ true) ↔ (s ≡ [])
is_empty_set_iff [] = (λ h. refl, λ h. refl)
is_empty_set_iff (x ∷ s) = (λ h. cc, λ h. cc)

excess-empty : (s r : DelegationScope) → (is_empty_set (excess_of s r) ≡ true) ↔ IsWithin r s
excess-empty s r = (
  λ h c p. ground (
    arith,
    contains-excess s r c,
    contains-empty c,
    ap (λ e. contains e c) ((is_empty_set_iff (excess_of s r)).0 h),
  ),
  λ h.
      (is_empty_set_iff (excess_of s r)).1
        (eq-nil_of_contains (excess_of s r) (λ c. ground (arith, contains-excess s r c, h c))),
)

-- Narrowing succeeds exactly if the requested scope lies within the source, and then gives the
-- requested scope; it is refused exactly if it does not, and the refusal reports exactly the
-- requested capabilities that the source lacks.
pub narrow_lem :
    (s r t : DelegationScope) (e : ScopeExpansion) (c : CapabilityName)
    → ((narrow s r ≡ ok t) ↔ (IsWithin r s × (t ≡ r)))
      × ((narrow s r ≡ err e) ↔ ((¬ IsWithin r s) × (e.excess ≡ excess_of s r)))
      × (contains (excess_of s r) c ≡ (permits r c && not (permits s c)))
unfolding narrow
narrow_lem s r t e c = ((accepted, accepts), (refused, refuses), contains-excess s r c)
  where
    accepted : narrow s r ≡ ok t → IsWithin r s × (t ≡ r)
    accepted h = ((excess-empty s r).0 (ground arith), ground arith)

    accepts : IsWithin r s × (t ≡ r) → narrow s r ≡ ok t
    accepts (w, q) = ground (arith, (excess-empty s r).1 w)

    refused : narrow s r ≡ err e → (¬ IsWithin r s) × (e.excess ≡ excess_of s r)
    refused h = (λ w. ground (arith, (excess-empty s r).1 w), ground arith)

    refuses : (¬ IsWithin r s) × (e.excess ≡ excess_of s r) → narrow s r ≡ err e
    refuses (w, q) = elim (Bool-cases (is_empty_set (excess_of s r))) [
      | inl z ↦ absurd (w ((excess-empty s r).0 z))
      | inr z ↦ ground (arith, q)
    ]

-- A chain of delegations, each narrowed from the one before.
pub data Delegated (root : DelegationScope) : DelegationScope → Type 0 where
  held_by : Delegated root root
  narrowed :
      {s t : DelegationScope} (r : DelegationScope)
      → Delegated root s
      → narrow s r ≡ ok t
      → Delegated root t

-- However long the chain, a delegate holds nothing that the root lacks.
pub Delegated-IsWithin : (root s : DelegationScope) → Delegated root s → IsWithin s root
Delegated-IsWithin root s held_by c p = p
Delegated-IsWithin root s (narrowed {s = u} {t = t} r d e) c p =
    let (within, same) = ((narrow_lem u r t (record { excess = [] }) c).0).0 e in
    Delegated-IsWithin root u d c (within c (subst (λ x. permits x c ≡ true) same p))

-- A scope built from the capabilities of a canonical scope is that scope.
pub new-capabilities : (s : DelegationScope) → IsSorted s.held → new (capabilities s) ≡ s
unfolding new
new-capabilities s h = λ i. record { held = collect-keys s.held h i }

pub new-IsSorted : (granted : List CapabilityName) → IsSorted (new granted).held
unfolding new
new-IsSorted granted = collect-IsSorted [] granted tt
