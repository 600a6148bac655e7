-- ===== src/Contracts/Wire/Texts.antt =====
-- The types of aiai-contracts that are carried as texts, as exact texts.
use artificial_intelligence.Base.{
  Bytes, all, codes, length, ok, subst, sym, true, ◌++◌, ◌↔◌, ◌∙◌, ◌≡◌,
}
use artificial_intelligence.Contracts.Names.Shape.{IsName}
use artificial_intelligence.Contracts.Scalar
use artificial_intelligence.Contracts.Scalar.{
  DecimalU64, DecimalU64Error, decimal_u64_error, IsU64, from_str_iff,
}
use artificial_intelligence.Contracts.Version
use artificial_intelligence.Contracts.Version.{ContractVersion, VersionError, version_error}
use artificial_intelligence.Contracts.Version.RoundTrip.{IsInRange, from_str-version_iff}
use artificial_intelligence.Contracts.Capability
use artificial_intelligence.Contracts.Capability.{
  CapabilityName, CapabilityNameError, capability_name_error, capability_name_max_len,
}
use artificial_intelligence.Contracts.Identifier
use artificial_intelligence.Contracts.Identifier.{
  Identifier, IdentifierKind, IdentifierError, identifier_error, prefix, hex_length, is_hex_byte,
}
use artificial_intelligence.Contracts.Identifier.Laws
use artificial_intelligence.Contracts.Wire.Ascii.{
  is_ascii-decimal, is_ascii-version, is_ascii-name, is_ascii-identifier,
}
use artificial_intelligence.Contracts.Wire.{Text, ExactText}

unfoldable pub decimal_message : DecimalU64Error → Bytes
decimal_message decimal_u64_error = codes "unsigned integer string is not canonical u64"

unfoldable pub version_message : VersionError → Bytes
version_message version_error = codes "contract version is not canonical"

unfoldable pub capability_message : CapabilityNameError → Bytes
capability_message capability_name_error = codes "capability name is not canonical"

unfoldable pub identifier_message : IdentifierError → Bytes
identifier_message identifier_error = codes "identifier is not canonical"

abbrev pub decimal_text : Text DecimalU64 DecimalU64Error
decimal_text = record {
  print = Scalar.to_string;
  read = Scalar.from_str;
  message = decimal_message;
}

abbrev pub version_text : Text ContractVersion VersionError
version_text = record {
  print = Version.to_string;
  read = Version.from_str;
  message = version_message;
}

abbrev pub capability_text : Text CapabilityName CapabilityNameError
capability_text = record {
  print = λ name. name.as_str;
  read = Capability.try_from;
  message = capability_message;
}

abbrev pub identifier_text : (kind : IdentifierKind) → Text (Identifier kind) IdentifierError
identifier_text kind = record {
  print = λ name. name.as_str;
  read = Identifier.try_from kind;
  message = identifier_message;
}

abbrev pub decimal_exact : ExactText DecimalU64 DecimalU64Error
decimal_exact = record {
  text = decimal_text;
  Fits = IsU64;
  read_iff = from_str_iff;
  ascii = λ n fits. is_ascii-decimal n;
}

abbrev pub version_exact : ExactText ContractVersion VersionError
version_exact = record {
  text = version_text;
  Fits = IsInRange;
  read_iff = from_str-version_iff;
  ascii = λ v fits. is_ascii-version v;
}

-- What the text of an identifier of a kind is.
abbrev pub IsIdentifier : (kind : IdentifierKind) → Bytes → Type 0
IsIdentifier kind s =
    (rest : Bytes) × (s ≡ prefix kind ++ rest)
    × (length rest ≡ hex_length kind)
    × (all is_hex_byte rest ≡ true)

pub capability_read_iff :
    (s : Bytes) (n : CapabilityName)
    → (Capability.try_from s ≡ ok n) ↔ ((n.as_str ≡ s) × IsName capability_name_max_len n.as_str)
capability_read_iff s n = (
  λ h.
      let (same, shape) = (Capability.try_from_iff s n).0 h in
      (same, subst (IsName capability_name_max_len) (sym same) shape),
  λ (same, shape).
      (Capability.try_from_iff s n).1 (same, subst (IsName capability_name_max_len) same shape),
)

pub identifier_read_iff :
    (kind : IdentifierKind) (s : Bytes) (i : Identifier kind)
    → (Identifier.try_from kind s ≡ ok i) ↔ ((i.as_str ≡ s) × IsIdentifier kind i.as_str)
identifier_read_iff kind s i = (
  λ h.
      let (rest, shape, len, hex, same) = (Laws.try_from_iff kind s i).0 h in
      (same, (rest, same ∙ shape, len, hex)),
  λ (same, (rest, shape, len, hex)).
      (Laws.try_from_iff kind s i).1 (rest, sym same ∙ shape, len, hex, same),
)

abbrev pub capability_exact : ExactText CapabilityName CapabilityNameError
capability_exact = record {
  text = capability_text;
  Fits = λ n. IsName capability_name_max_len n.as_str;
  read_iff = capability_read_iff;
  ascii = λ n name. is_ascii-name capability_name_max_len n.as_str name;
}

abbrev pub identifier_exact : (kind : IdentifierKind) → ExactText (Identifier kind) IdentifierError
identifier_exact kind = record {
  text = identifier_text kind;
  Fits = λ i. IsIdentifier kind i.as_str;
  read_iff = identifier_read_iff kind;
  ascii = λ i (rest, shape, len, hex). is_ascii-identifier kind i.as_str rest shape hex;
}
