-- ===== src/Host/Version.antt =====
-- packages/aiai-contracts/src/version.ts: contract versions and the host's side of the handshake.
-- A component is a JavaScript number.
pub mod Mirror
pub mod Handshake
use artificial_intelligence.Base.{
  Bool, List, Option, Result, [], all, codes, eqb, err, if◌then◌else◌, leb, none, not, ok, ok_or,
  some, ℕ, ◌&&◌, ◌++◌, ◌-◌, ◌^◌, ◌∷◌,
}
use artificial_intelligence.Contracts.Decimal.{print_u64}
use artificial_intelligence.Contracts.Version.{split}
use artificial_intelligence.Host.Text.{Units}
use artificial_intelligence.Host.Violation.{
  ContractViolation, contract_violation, non_canonical_version,
}
use artificial_intelligence.Host.Error.{FoundationErrorValue, no_details}
use artificial_intelligence.Host.Scalar.{is_canonical_decimal, big_int}

-- `CONTRACT_VERSION`
abbrev pub contract_version : Units
contract_version = codes "0.2.0"

pub record ContractVersion : Type 0 where
  pub major : ℕ
  pub minor : ℕ
  pub patch : ℕ

-- `Number.MAX_SAFE_INTEGER`
abbrev pub max_safe_integer : ℕ
max_safe_integer = 2 ^ 53 - 1

-- `Number(part)` at a string of digits, as far as `Number.isSafeInteger` lets it be seen: the exact
-- value up to 2^53 - 1; a larger one is rounded to a number that is not safe.
abbrev pub safe_number : Units → Option ℕ
safe_number part = let n = big_int part in if leb n max_safe_integer then some n else none

-- The components of the array that `value.split(".")` gives, if it has three.
abbrev pub three : List Units → Option (Units × Units × Units)
three (a ∷ b ∷ c ∷ []) = some (a, b, c)
three _ = none

-- `components.map(Number)` at three components, with the tests for safe integers.
abbrev pub of_numbers : Units × Units × Units → Option ContractVersion
of_numbers (a, b, c) = elim (safe_number a) [
  | none ↦ none
  | some major ↦ elim (safe_number b) [
    | none ↦ none
    | some minor ↦ elim (safe_number c) [
      | none ↦ none
      | some patch ↦ some (record { major = major; minor = minor; patch = patch })
    ]
  ]
]

-- `parseContractVersion`, from the components on.
unfoldable pub parse_components : List Units → Result ContractVersion ContractViolation
unfolding is_canonical_decimal
parse_components components = elim (three components) [
  | none ↦ err (contract_violation non_canonical_version)
  | some parts ↦
      if not (all is_canonical_decimal components)
      then err (contract_violation non_canonical_version)
      else ok_or (of_numbers parts) (contract_violation non_canonical_version)
]

-- `parseContractVersion`
unfoldable pub parse_contract_version : Units → Result ContractVersion ContractViolation
parse_contract_version value = parse_components (split b'.' value)

-- `formatContractVersion`: a safe integer is printed with its decimal digits.
unfoldable pub format_contract_version : ContractVersion → Units
format_contract_version version =
    print_u64 version.major
    ++ (b'.' ∷ (print_u64 version.minor ++ (b'.' ∷ print_u64 version.patch)))

-- `CURRENT_CONTRACT_VERSION`, the constant parsed.
abbrev pub current_contract_version : ContractVersion
current_contract_version = record { major = 0; minor = 2; patch = 0 }

-- `acceptsProvider`
unfoldable pub accepts_provider : ContractVersion → ContractVersion → Bool
accepts_provider required provider =
    if eqb required.major 0
    then eqb provider.major 0
      && eqb provider.minor required.minor
      && leb required.patch provider.patch
    else eqb provider.major required.major && leb required.minor provider.minor

-- `refuse`
abbrev pub refuse : Option Units → Option Units → FoundationErrorValue
refuse operation_id required = record {
  code = codes "unsupported_contract_version";
  operation_id = operation_id;
  details = some (record no_details {
    required_contract_version = required;
    supported_contract_version = some contract_version;
  });
}

-- `requireCompatibleContract`
unfoldable pub require_compatible_contract :
    Units → Option Units → Result ContractVersion FoundationErrorValue
require_compatible_contract requested operation_id = elim (parse_contract_version requested) [
  | err _ ↦ err (refuse operation_id none)
  | ok required ↦
      if not (accepts_provider required current_contract_version)
      then err (refuse operation_id (some (format_contract_version required)))
      else ok required
]
