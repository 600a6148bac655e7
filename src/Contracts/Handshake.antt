-- ===== src/Contracts/Handshake.antt =====
-- crates/aiai-contracts/src/lib.rs: the directional handshake on contract versions.
use artificial_intelligence.Base.{
  Bytes, Option, Result, ap, arith, codes, err, if◌then◌else◌, none, ok, refl, some, sym, true, ◌↔◌,
  ◌∙◌, ◌≡◌,
}
use artificial_intelligence.Contracts.Version
use artificial_intelligence.Contracts.Version.{
  ContractVersion, VersionError, current, accepts_provider,
}
use artificial_intelligence.Contracts.Version.RoundTrip.{from_str-to_string, to_string-from_str}
use artificial_intelligence.Contracts.Decimal.{print_u64, print_digits}
use artificial_intelligence.Contracts.Identifier.{OperationId}
use artificial_intelligence.Contracts.Error.{FoundationError}
use artificial_intelligence.Contracts.Error.Failures.{unsupported_contract_version}

-- `CONTRACT_VERSION`
abbrev pub contract_version : Bytes
contract_version = codes "0.2.0"

-- The version is required to accept this build.
abbrev negotiate : Option OperationId → ContractVersion → Result ContractVersion FoundationError
negotiate op required =
    if accepts_provider required current
    then ok required
    else err (unsupported_contract_version op (some (Version.to_string required)) contract_version)

unfoldable pub require_compatible_contract :
    Bytes → Option OperationId → Result ContractVersion FoundationError
require_compatible_contract requested op = elim (Version.from_str requested) [
  | err e ↦ err (unsupported_contract_version op none contract_version)
  | ok required ↦ negotiate op required
]

current_of_accepts : (v : ContractVersion) → accepts_provider v current ≡ true → v ≡ current
unfolding accepts_provider
current_of_accepts v h = ground arith

to_string-current : Version.to_string current ≡ contract_version
unfolding Version.to_string print_u64 print_digits
to_string-current = refl

from_contract_version : Version.from_str contract_version ≡ ok current
from_contract_version =
    ap Version.from_str (sym to_string-current)
    ∙ from_str-to_string current
        (record { major_fits = omega arith; minor_fits = omega arith; patch_fits = omega arith })

-- The handshake accepts the text "0.2.0" and no other, and returns the current version.
pub require_compatible_contract_iff :
    (s : Bytes) (op : Option OperationId) (v : ContractVersion)
    → (require_compatible_contract s op ≡ ok v) ↔ ((s ≡ contract_version) × (v ≡ current))
unfolding require_compatible_contract accepts_provider
require_compatible_contract_iff s op v =
    (sound (Version.from_str s) refl, λ h. ground (arith, h.0, h.1, from_contract_version))
  where
    sound :
        (r : Result ContractVersion VersionError)
        → Version.from_str s ≡ r
        → require_compatible_contract s op ≡ ok v
        → (s ≡ contract_version) × (v ≡ current)
    sound (err e) p h = ground arith
    sound (ok w) p h =
        let same : w ≡ v = ground arith in
        let is_current : w ≡ current = current_of_accepts w (ground arith) in
        (
          sym (to_string-from_str s w p).0 ∙ ap Version.to_string is_current ∙ to_string-current,
          sym same ∙ is_current,
        )
