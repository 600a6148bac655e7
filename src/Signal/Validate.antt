-- ===== src/Signal/Validate.antt =====
-- crates/aiai-signal/src/validate.rs: the receiver's check of a signal, which repairs nothing.
pub mod Conformance
use artificial_intelligence.Base.{
  Bool, List, Option, Result, [], eqb, err, if◌then◌else◌, map_err, none, not, ok, refuse_if, some,
  ◌&&◌, ◌>>◌, ◌∷◌, ◌>>=◌,
}
use artificial_intelligence.BTree.{BTreeMap, keys, contains_key}
use artificial_intelligence.Contracts.Version.{ContractVersion}
use artificial_intelligence.Contracts.Identifier.{OperationId}
use artificial_intelligence.Contracts.Error.{FoundationError, SchemaViolation}
use artificial_intelligence.Contracts.Error.SchemaViolation.{
  unknown_archetype, unknown_field, missing_field, schema_version_mismatch,
}
use artificial_intelligence.Contracts.Error.Failures.{signal_schema_violation}
use artificial_intelligence.Signal.Token.{Token, token_ord}
use artificial_intelligence.Signal.Domain.{SignalValue, check}
use artificial_intelligence.Signal.Schema.{
  ArchetypeSchema, domain, check_combinations, SchemaRegistry, get_schema, TrainingSignal,
}

-- The derived equality of versions.
abbrev pub same_version : ContractVersion → ContractVersion → Bool
same_version a b = eqb a.major b.major && eqb a.minor b.minor && eqb a.patch b.patch

-- The loop over the names of the required fields.
unfoldable pub require_each :
    Option OperationId → BTreeMap Token SignalValue → List Token → Result (Unit {0}) FoundationError
require_each op fields [] = ok tt
require_each op fields (name ∷ names) =
    let rest = require_each op fields names in
    if not (contains_key name fields)
    then err (signal_schema_violation op missing_field (some name.as_str))
    else rest

-- One field of the signal, as an item of the loop over them.
unfoldable pub validate_field :
    Option OperationId → ArchetypeSchema → Token → SignalValue → Result (Unit {0}) FoundationError
unfolding domain
validate_field op schema name value = elim (domain schema name) [
  | none ↦ err (signal_schema_violation op unknown_field (some name.as_str))
  | some d ↦ map_err (λ v. signal_schema_violation op v (some name.as_str)) (check d value)
]

unfoldable pub validate_fields :
    Option OperationId
    → ArchetypeSchema
    → BTreeMap Token SignalValue
    → Result (Unit {0}) FoundationError
unfolding validate_field
validate_fields op schema [] = ok tt
validate_fields op schema ((name, value) ∷ rest) =
    let others = validate_fields op schema rest in validate_field op schema name value >> others

-- The closure that names the field of a violated rule.
abbrev pub rule_violation : Option OperationId → SchemaViolation × Token → FoundationError
rule_violation op (violation, field) = signal_schema_violation op violation (some field.as_str)

-- `validate` under the schema of the signal's archetype.
unfoldable pub validate_under :
    ArchetypeSchema → TrainingSignal → Option OperationId → Result (Unit {0}) FoundationError
validate_under schema signal op = do
  refuse_if (not (same_version schema.schema_version signal.schema_version))
      (signal_schema_violation op schema_version_mismatch none)
  require_each op signal.fields (keys schema.required_fields)
  validate_fields op schema signal.fields
  map_err (rule_violation op) (check_combinations schema (λ f. contains_key f signal.fields))

unfoldable pub validate :
    SchemaRegistry → TrainingSignal → Option OperationId → Result (Unit {0}) FoundationError
unfolding validate_under
validate registry signal op = elim (get_schema registry signal.archetype) [
  | none ↦ err (signal_schema_violation op unknown_archetype none)
  | some schema ↦ validate_under schema signal op
]
