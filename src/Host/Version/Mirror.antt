-- ===== src/Host/Version/Mirror.antt =====
-- The versions of version.ts beside those of crates/aiai-contracts/src/version.rs, and the two sides
-- of the handshake.
use artificial_intelligence.Base.{
  List, [], arith, ok, refl, some, subst, true, ℕ, ◌↔◌, ◌∷◌, ◌≡◌, ◌≤◌,
}
use artificial_intelligence.Contracts.Version
use artificial_intelligence.Contracts.Version.{parse_component, split, from_components}
use artificial_intelligence.Contracts.Version.RoundTrip.{from_str-version_iff}
use artificial_intelligence.Contracts.Scalar
use artificial_intelligence.Contracts.Wire.Ascii.{is_ascii-version}
use artificial_intelligence.Contracts.Canonical.{is_ascii}
use artificial_intelligence.Host.Text.{Units, CodePoints, utf8, utf16, encodings_agree}
use artificial_intelligence.Host.Scalar.{is_canonical_decimal, parse_decimal_u64}
use artificial_intelligence.Host.Scalar.Mirror.{parse_decimal_u64-from_str}
use artificial_intelligence.Host.Version.{
  ContractVersion, max_safe_integer, safe_number, parse_components, parse_contract_version,
}

-- The version of the crate with the same components.
abbrev pub twin : ContractVersion → Version.ContractVersion
twin v = record { major = v.major; minor = v.minor; patch = v.patch }

-- Every component is a number that JavaScript holds exactly.
pub record IsSafe (v : ContractVersion) : Type 0 where
  pub major_safe : v.major ≤ max_safe_integer
  pub minor_safe : v.minor ≤ max_safe_integer
  pub patch_safe : v.patch ≤ max_safe_integer

parse_component-from_str :
    (s : Units) (n : ℕ) → (parse_component s ≡ ok n) ↔ (Scalar.from_str s ≡ ok n)
unfolding parse_component Scalar.from_str
parse_component-from_str s n = (λ h. ground arith, λ h. ground arith)

component_of_safe :
    (s : Units) (n : ℕ)
    → is_canonical_decimal s ≡ true
    → safe_number s ≡ some n
    → (parse_component s ≡ ok n) × (n ≤ max_safe_integer)
component_of_safe s n canonical safe =
    let read : parse_decimal_u64 s ≡ ok n = unfold parse_decimal_u64 in ground arith in
    ((parse_component-from_str s n).1 ((parse_decimal_u64-from_str s n).0 read), ground arith)

safe_of_component :
    (s : Units) (n : ℕ)
    → parse_component s ≡ ok n
    → n ≤ max_safe_integer
    → (is_canonical_decimal s ≡ true) × (safe_number s ≡ some n)
unfolding parse_decimal_u64
safe_of_component s n parsed small =
    let read = (parse_decimal_u64-from_str s n).1 ((parse_component-from_str s n).0 parsed) in
    (ground arith, ground arith)

from_components-parse_components :
    (ps : List Units) (v : ContractVersion)
    → parse_components ps ≡ ok v
    → (from_components ps ≡ ok (twin v)) × IsSafe v
unfolding parse_components from_components
from_components-parse_components [] v h = cc
from_components-parse_components (p ∷ []) v h = cc
from_components-parse_components (p ∷ q ∷ []) v h = cc
from_components-parse_components (p ∷ q ∷ r ∷ []) v h =
    let a = component_of_safe p v.major (ground arith) (ground arith) in
    let b = component_of_safe q v.minor (ground arith) (ground arith) in
    let c = component_of_safe r v.patch (ground arith) (ground arith) in
    (rw (a.0, b.0, c.0) refl, record { major_safe = a.1; minor_safe = b.1; patch_safe = c.1 })
from_components-parse_components (p ∷ q ∷ r ∷ x ∷ ps) v h = cc

parse_components-from_components :
    (ps : List Units) (v : ContractVersion)
    → from_components ps ≡ ok (twin v)
    → IsSafe v
    → parse_components ps ≡ ok v
unfolding parse_components from_components
parse_components-from_components [] v h k = cc
parse_components-from_components (p ∷ []) v h k = ground arith
parse_components-from_components (p ∷ q ∷ []) v h k = ground arith
parse_components-from_components (p ∷ q ∷ r ∷ []) v h k =
    let a = safe_of_component p v.major (ground arith) k.major_safe in
    let b = safe_of_component q v.minor (ground arith) k.minor_safe in
    let c = safe_of_component r v.patch (ground arith) k.patch_safe in ground arith
parse_components-from_components (p ∷ q ∷ r ∷ x ∷ ps) v h k = ground arith

pub parse_contract_version-from_str :
    (s : Units) (v : ContractVersion)
    → (parse_contract_version s ≡ ok v) ↔ ((Version.from_str s ≡ ok (twin v)) × IsSafe v)
unfolding parse_contract_version Version.from_str
parse_contract_version-from_str s v = (
  from_components-parse_components (split b'.' s) v,
  λ h. parse_components-from_components (split b'.' s) v h.0 h.1,
)

-- Of every text, the host reads a version exactly if the crate reads the same version and each of
-- its components is below 2^53. So the host refuses, as not canonical, the canonical texts of
-- versions with a larger component, which the crate accepts.
pub parse_contract_version-mirrors :
    (t : CodePoints) (v : ContractVersion)
    → (parse_contract_version (utf16 t) ≡ ok v)
      ↔ ((Version.from_str (utf8 t) ≡ ok (twin v)) × IsSafe v)
parse_contract_version-mirrors t v =
    encodings_agree {P = λ s. parse_contract_version s ≡ ok v}
      {Q = λ s. (Version.from_str s ≡ ok (twin v)) × IsSafe v}
      (λ s. parse_contract_version-from_str s v)
      (λ s (accepted, safe).
        subst (λ u. is_ascii u ≡ true) ((from_str-version_iff s (twin v)).0 accepted).0
          (is_ascii-version (twin v)))
      t
