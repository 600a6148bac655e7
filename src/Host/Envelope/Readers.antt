-- ===== src/Host/Envelope/Readers.antt =====
-- What each reader of envelope.ts gives on what the encoders write.
use artificial_intelligence.Base.{[], arith, ok, some, true, ◌≡◌, ◌≤◌}
use artificial_intelligence.Contracts.Identifier.{IdentifierKind}
use artificial_intelligence.Contracts.Decimal.{u64_max, print_u64}
use artificial_intelligence.Contracts.Version
use artificial_intelligence.Contracts.Version.RoundTrip.{from_str-to_string}
use artificial_intelligence.Host.Text.{Units}
use artificial_intelligence.Host.Scalar.{ℤ, pos, negsuc, format_decimal_u64}
use artificial_intelligence.Host.Scalar.Mirror.{format-parse_decimal_u64, is_decimal_u64-parse}
use artificial_intelligence.Host.Version.{
  ContractVersion, parse_contract_version, format_contract_version,
}
use artificial_intelligence.Host.Version.Mirror.{twin, IsSafe, parse_contract_version-from_str}
use artificial_intelligence.Host.Identifier.{is_identifier}
use artificial_intelligence.Host.Capability.{is_capability_name}
use artificial_intelligence.Host.Canonical.{CanonicalJsonValue, string}
use artificial_intelligence.Host.Envelope.{
  read_identifier, read_decimal, read_capability, read_version,
}

-- A `bigint` that is a counter of the contract.
abbrev pub IsCounter : ℤ → Type 0
IsCounter (pos n) = n ≤ u64_max
IsCounter (negsuc n) = ⊥

-- The decimal string of a counter.
abbrev pub counter_str : ℤ → Units
counter_str (pos n) = print_u64 n
counter_str (negsuc n) = []

pub format-counter : (z : ℤ) → IsCounter z → format_decimal_u64 z ≡ ok (counter_str z)
unfolding format_decimal_u64
format-counter (pos n) h = ground arith
format-counter (negsuc n) h = absurd h

pub parse-format_contract_version :
    (v : ContractVersion) → IsSafe v → parse_contract_version (format_contract_version v) ≡ ok v
unfolding format_contract_version Version.to_string
parse-format_contract_version v h =
    (parse_contract_version-from_str (Version.to_string (twin v)) v).1 (
      from_str-to_string (twin v) (record {
        major_fits = omega (arith, h.major_safe);
        minor_fits = omega (arith, h.minor_safe);
        patch_fits = omega (arith, h.patch_safe);
      }),
      h,
    )

module _ {X : Type 0} where
  pub read_version-format :
      (source : CanonicalJsonValue) (v : ContractVersion)
      → IsSafe v
      → read_version {X = X} source (some (string (format_contract_version v))) ≡ ok v
  unfolding read_version
  read_version-format source v h = ground (arith, parse-format_contract_version v h)

  pub read_decimal-format :
      (source : CanonicalJsonValue) (z : ℤ)
      → IsCounter z
      → read_decimal {X = X} source (some (string (counter_str z))) ≡ ok z
  unfolding read_decimal
  read_decimal-format source (pos n) h = ground (
    arith,
    (format-parse_decimal_u64 n (print_u64 n)).0 (format-counter (pos n) h),
    is_decimal_u64-parse (print_u64 n),
  )
  read_decimal-format source (negsuc n) h = absurd h

  pub read_identifier-true :
      (source : CanonicalJsonValue) (s : Units) (kind : IdentifierKind)
      → is_identifier kind s ≡ true
      → read_identifier {X = X} source (some (string s)) kind ≡ ok s
  unfolding read_identifier
  read_identifier-true source s kind h = ground arith

  pub read_capability-true :
      (source : CanonicalJsonValue) (s : Units)
      → is_capability_name s ≡ true
      → read_capability {X = X} source (some (string s)) ≡ ok s
  unfolding read_capability
  read_capability-true source s h = ground arith
