-- ===== src/Contracts/Wire/Exact.antt =====
-- The hand-written `Deserialize` of scalar.rs, version.rs, capability.rs and identifier.rs, each
-- with the reading of its own type.
use artificial_intelligence.Base.{ok, ◌↔◌, ◌≡◌}
use artificial_intelligence.Contracts.Names.Shape.{IsName}
use artificial_intelligence.Contracts.Scalar
use artificial_intelligence.Contracts.Scalar.{DecimalU64, IsU64}
use artificial_intelligence.Contracts.Version
use artificial_intelligence.Contracts.Version.{ContractVersion}
use artificial_intelligence.Contracts.Version.RoundTrip.{IsInRange}
use artificial_intelligence.Contracts.Capability.{CapabilityName, capability_name_max_len}
use artificial_intelligence.Contracts.Identifier.{Identifier, IdentifierKind}
use artificial_intelligence.Contracts.Wire.{Deserializer, deserialize}
use artificial_intelligence.Contracts.Wire.Laws.{deserialize_iff}
use artificial_intelligence.Contracts.Wire.Texts.{
  IsIdentifier, capability_exact, capability_text, decimal_exact, decimal_text, identifier_exact,
  identifier_text, version_exact, version_text,
}

-- The four types that are read from texts, at one input.
module _ {D X : Type 0} ⦃de : Deserializer D X⦄ where
  -- From an input, a counter is deserialized exactly if the input carries its decimal numeral, with
  -- no other spelling, and it fits in 64 bits; a version exactly if the input carries its print and
  -- its parts are in range; a capability name exactly if the input carries its text and that is
  -- a name; an identifier of a kind exactly if the input carries its text and that is the kind's
  -- prefix with its number of lowercase hexadecimal digits.
  pub deserialize_exact :
      (d : D)
      → ((n : DecimalU64)
          → (deserialize ⦃de = de⦄ decimal_text d ≡ ok n)
            ↔ ((de.string d ≡ ok (Scalar.to_string n)) × IsU64 n))
        × ((v : ContractVersion)
            → (deserialize ⦃de = de⦄ version_text d ≡ ok v)
              ↔ ((de.string d ≡ ok (Version.to_string v)) × IsInRange v))
        × ((n : CapabilityName)
            → (deserialize ⦃de = de⦄ capability_text d ≡ ok n)
              ↔ ((de.string d ≡ ok n.as_str) × IsName capability_name_max_len n.as_str))
        × ((kind : IdentifierKind) (i : Identifier kind)
            → (deserialize ⦃de = de⦄ (identifier_text kind) d ≡ ok i)
              ↔ ((de.string d ≡ ok i.as_str) × IsIdentifier kind i.as_str))
  deserialize_exact d = (
    λ n. deserialize_iff decimal_exact d n,
    λ v. deserialize_iff version_exact d v,
    λ n. deserialize_iff capability_exact d n,
    λ kind i. deserialize_iff (identifier_exact kind) d i,
  )
