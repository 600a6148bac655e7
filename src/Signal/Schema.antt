-- ===== src/Signal/Schema.antt =====
-- crates/aiai-signal/src/schema.rs and signal.rs: the archetypes that a registry admits, the fields
-- they declare, the rules across fields, and the observation and signal that carry the fields.
use artificial_intelligence.Base.{
  Bool, List, Option, Result, [], eqb, length, none, not, ok, refuse_if, some, ◌&&◌, ◌>>◌, ◌∷◌,
}
use artificial_intelligence.BTree.{BTreeMap, get, insert, values}
use artificial_intelligence.Contracts.Version.{ContractVersion}
use artificial_intelligence.Contracts.Error.{SchemaViolation}
use artificial_intelligence.Contracts.Error.SchemaViolation.{invalid_field_combination}
use artificial_intelligence.Signal.Token.{Token, token_ord}
use artificial_intelligence.Signal.Domain.{SignalValue, FieldDomain}

pub data FieldCombination : Type 0 where
  mutually_exclusive : Token → Token → FieldCombination
  required_with : Token → Token → FieldCombination

pub record ArchetypeSchema : Type 0 where
  pub archetype : Token
  pub schema_version : ContractVersion
  pub required_fields : BTreeMap Token FieldDomain
  pub optional_fields : BTreeMap Token FieldDomain
  pub combinations : List FieldCombination

-- `ArchetypeSchema::new`
abbrev pub new : Token → ContractVersion → BTreeMap Token FieldDomain → ArchetypeSchema
new archetype version required = record {
  archetype = archetype;
  schema_version = version;
  required_fields = required;
  optional_fields = [];
  combinations = [];
}

abbrev pub with_optional_fields : ArchetypeSchema → BTreeMap Token FieldDomain → ArchetypeSchema
with_optional_fields self fields = record self { optional_fields = fields }

abbrev pub with_combinations : ArchetypeSchema → List FieldCombination → ArchetypeSchema
with_combinations self combinations = record self { combinations = combinations }

-- `ArchetypeSchema::domain`
unfoldable pub domain : ArchetypeSchema → Token → Option FieldDomain
domain self field = elim (get field self.required_fields) [
  | some d ↦ some d
  | none ↦ get field self.optional_fields
]

-- One rule, as an item of the loop of `check_combinations`.
unfoldable pub check_combination :
    (Token → Bool) → FieldCombination → Result (Unit {0}) (SchemaViolation × Token)
check_combination present (mutually_exclusive left right) =
    refuse_if (present left && present right) (invalid_field_combination, right)
check_combination present (required_with field requires) =
    refuse_if (present field && not (present requires)) (invalid_field_combination, requires)

-- The loop of `check_combinations`.
unfoldable pub check_each :
    (Token → Bool) → List FieldCombination → Result (Unit {0}) (SchemaViolation × Token)
unfolding check_combination
check_each present [] = ok tt
check_each present (c ∷ cs) =
    let rest = check_each present cs in check_combination present c >> rest

unfoldable pub check_combinations :
    ArchetypeSchema → (Token → Bool) → Result (Unit {0}) (SchemaViolation × Token)
unfolding check_each
check_combinations self present = check_each present self.combinations

pub record SchemaRegistry : Type 0 where
  pub by_archetype : BTreeMap Token ArchetypeSchema

-- `SchemaRegistry::new`
abbrev pub empty_registry : SchemaRegistry
empty_registry = record { by_archetype = [] }

unfoldable pub with_archetype : SchemaRegistry → ArchetypeSchema → SchemaRegistry
with_archetype self schema = record {
  by_archetype = insert schema.archetype schema self.by_archetype;
}

-- `SchemaRegistry::get`
unfoldable pub get_schema : SchemaRegistry → Token → Option ArchetypeSchema
get_schema self archetype = get archetype self.by_archetype

-- `SchemaRegistry::archetypes`
abbrev pub archetypes : SchemaRegistry → List ArchetypeSchema
archetypes self = values self.by_archetype

abbrev pub is_empty : SchemaRegistry → Bool
is_empty self = eqb (length self.by_archetype) 0

pub record LocalObservation : Type 0 where
  pub archetype : Token
  pub fields : BTreeMap Token SignalValue

pub record TrainingSignal : Type 0 where
  pub schema_version : ContractVersion
  pub archetype : Token
  pub fields : BTreeMap Token SignalValue
