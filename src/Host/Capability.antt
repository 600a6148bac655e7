-- ===== src/Host/Capability.antt =====
-- packages/aiai-contracts/src/capability.ts: the names of capabilities, read with a regular
-- expression.
pub mod Mirror
use artificial_intelligence.Base.{
  Bool, Result, [], eqb, err, false, if◌then◌else◌, leb, length, not, ok, true, ℕ, ◌&&◌, ◌||◌, ◌∷◌,
}
use artificial_intelligence.Contracts.Names.{is_ascii_lowercase}
use artificial_intelligence.Contracts.Names.Shape.{is_word_byte}
use artificial_intelligence.Host.Text.{Units}
use artificial_intelligence.Host.Violation.{
  ContractViolation, contract_violation, non_canonical_capability,
}

-- `CAPABILITY_NAME_MAX_LEN`
abbrev pub capability_name_max_len : ℕ
capability_name_max_len = 64

-- `CapabilityName`: a string, by its brand one that was checked.
abbrev pub CapabilityName : Type 0
CapabilityName = Units

-- `(?=[a-z0-9])`
abbrev pub looks_at_word : Units → Bool
looks_at_word [] = false
looks_at_word (c ∷ s) = is_word_byte c

-- `(?:[a-z0-9]|_(?=[a-z0-9]))*$`; at a unit one alternative at most applies.
unfoldable pub matches_rest : Units → Bool
matches_rest [] = true
matches_rest (c ∷ s) = (is_word_byte c || eqb c b'_' && looks_at_word s) && matches_rest s

-- `/^[a-z](?:[a-z0-9]|_(?=[a-z0-9]))*$/u`
unfoldable pub canonical_capability : Units → Bool
unfolding matches_rest
canonical_capability [] = false
canonical_capability (c ∷ s) = is_ascii_lowercase c && matches_rest s

-- `isCapabilityName`
unfoldable pub is_capability_name : Units → Bool
unfolding canonical_capability
is_capability_name value = leb (length value) capability_name_max_len && canonical_capability value

-- `parseCapabilityName`
unfoldable pub parse_capability_name : Units → Result CapabilityName ContractViolation
unfolding is_capability_name
parse_capability_name value =
    if not (is_capability_name value)
    then err (contract_violation non_canonical_capability)
    else ok value
