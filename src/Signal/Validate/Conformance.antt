-- ===== src/Signal/Validate/Conformance.antt =====
-- What a signal must be for the validator to admit it.
use artificial_intelligence.Base.{
  All, Bool, Bool-cases, List, Option, Option-cases, [], arith, false, inl, inr, ok, refl, some,
  true, ◌↔◌, ◌∷◌, ◌≡◌, ◌⊎◌,
}
use artificial_intelligence.BTree.{BTreeMap, keys, contains_key}
use artificial_intelligence.BTree.Entries.{EachEntry}
use artificial_intelligence.Contracts.Version.{ContractVersion}
use artificial_intelligence.Contracts.Identifier.{OperationId}
use artificial_intelligence.Signal.Token.{Token, token_ord}
use artificial_intelligence.Signal.Domain.{SignalValue, FieldDomain, check}
use artificial_intelligence.Signal.Schema.{
  FieldCombination, mutually_exclusive, required_with, ArchetypeSchema, domain, check_combination,
  check_each, check_combinations, SchemaRegistry, get_schema, TrainingSignal,
}
use artificial_intelligence.Signal.Validate.{
  same_version, require_each, validate_field, validate_fields, validate_under, validate,
}

-- A rule across two fields, for the fields that are present.
abbrev pub Obeys : (Token → Bool) → FieldCombination → Type 0
Obeys present (mutually_exclusive left right) = (present left ≡ false) ⊎ (present right ≡ false)
Obeys present (required_with field requires) = (present field ≡ false) ⊎ (present requires ≡ true)

-- A field that the schema declares, with a value that the declared domain accepts.
abbrev pub IsDeclared : ArchetypeSchema → Token → SignalValue → Type 0
IsDeclared schema name value =
    (d : FieldDomain) × (domain schema name ≡ some d) × (check d value ≡ ok tt)

pub record Conforms (schema : ArchetypeSchema) (signal : TrainingSignal) : Type 0 where
  pub version : signal.schema_version ≡ schema.schema_version
  pub complete : All (λ name. contains_key name signal.fields ≡ true) (keys schema.required_fields)
  pub declared : EachEntry (IsDeclared schema) signal.fields
  pub obeys : All (Obeys (λ f. contains_key f signal.fields)) schema.combinations

check_combination_iff :
    (present : Token → Bool) (c : FieldCombination)
    → (check_combination present c ≡ ok tt) ↔ Obeys present c
unfolding check_combination
check_combination_iff present (mutually_exclusive left right) =
    (sound, λ h. elim h [ inl e ↦ ground (arith, e) | inr e ↦ ground (arith, e) ])
  where
    sound :
        check_combination present (mutually_exclusive left right) ≡ ok tt
        → (present left ≡ false) ⊎ (present right ≡ false)
    sound h = elim (Bool-cases (present left)) [ inl e ↦ inr (ground arith) | inr e ↦ inl e ]
check_combination_iff present (required_with field requires) =
    (sound, λ h. elim h [ inl e ↦ ground (arith, e) | inr e ↦ ground (arith, e) ])
  where
    sound :
        check_combination present (required_with field requires) ≡ ok tt
        → (present field ≡ false) ⊎ (present requires ≡ true)
    sound h = elim (Bool-cases (present field)) [ inl e ↦ inr (ground arith) | inr e ↦ inl e ]

pub check_each_iff :
    (present : Token → Bool) (cs : List FieldCombination)
    → (check_each present cs ≡ ok tt) ↔ All (Obeys present) cs
unfolding check_each
check_each_iff present [] = (λ h. tt, λ h. refl)
check_each_iff present (c ∷ cs) =
    let head = check_combination_iff present c in
    let rest = check_each_iff present cs in
    (
      λ h. (head.0 (ground arith), rest.0 (ground arith)),
      λ h. ground (arith, head.1 h.0, rest.1 h.1),
    )

require_each_iff :
    (op : Option OperationId) (fields : BTreeMap Token SignalValue) (names : List Token)
    → (require_each op fields names ≡ ok tt) ↔ All (λ name. contains_key name fields ≡ true) names
unfolding require_each
require_each_iff op fields [] = (λ h. tt, λ h. refl)
require_each_iff op fields (name ∷ names) =
    let rest = require_each_iff op fields names in
    (λ h. (ground arith, rest.0 (ground arith)), λ h. ground (arith, h.0, rest.1 h.1))

validate_field_iff :
    (op : Option OperationId) (schema : ArchetypeSchema) (name : Token) (value : SignalValue)
    → (validate_field op schema name value ≡ ok tt) ↔ IsDeclared schema name value
unfolding validate_field
validate_field_iff op schema name value = (sound, λ (d, e, c). ground (arith, e, c))
  where
    sound : validate_field op schema name value ≡ ok tt → IsDeclared schema name value
    sound h = elim (Option-cases (domain schema name)) [
      | inl e ↦ absurd (ground arith)
      | inr (d, e) ↦ (d, e, ground arith)
    ]

validate_fields_iff :
    (op : Option OperationId) (schema : ArchetypeSchema) (fields : BTreeMap Token SignalValue)
    → (validate_fields op schema fields ≡ ok tt) ↔ EachEntry (IsDeclared schema) fields
unfolding validate_fields
validate_fields_iff op schema [] = (λ h. tt, λ h. refl)
validate_fields_iff op schema ((name, value) ∷ rest) =
    let head = validate_field_iff op schema name value in
    let others = validate_fields_iff op schema rest in
    (
      λ h. (head.0 (ground arith), others.0 (ground arith)),
      λ h. ground (arith, head.1 h.0, others.1 h.1),
    )

same_version_iff : (a b : ContractVersion) → (same_version a b ≡ true) ↔ (b ≡ a)
same_version_iff a b = (λ h. ground arith, λ h. ground (arith, h))

pub validate_under_iff :
    (schema : ArchetypeSchema) (signal : TrainingSignal) (op : Option OperationId)
    → (validate_under schema signal op ≡ ok tt) ↔ Conforms schema signal
unfolding validate_under check_combinations
validate_under_iff schema signal op =
    let version = same_version_iff schema.schema_version signal.schema_version in
    let complete = require_each_iff op signal.fields (keys schema.required_fields) in
    let declared = validate_fields_iff op schema signal.fields in
    let obeys = check_each_iff (λ f. contains_key f signal.fields) schema.combinations in
    (
      λ h. record {
        version = version.0 (ground arith);
        complete = complete.0 (ground arith);
        declared = declared.0 (ground arith);
        obeys = obeys.0 (ground arith);
      },
      λ c. ground (
        arith,
        version.1 c.version,
        complete.1 c.complete,
        declared.1 c.declared,
        obeys.1 c.obeys,
      ),
    )

-- A signal is admitted exactly if the registry has a schema for its archetype and the signal
-- conforms to it: the same version, every required field present, every field declared with a
-- value that its domain accepts, and every rule across fields obeyed.
pub validate_iff :
    (registry : SchemaRegistry) (signal : TrainingSignal) (op : Option OperationId)
    → (validate registry signal op ≡ ok tt) ↔ (
        (schema : ArchetypeSchema) × (get_schema registry signal.archetype ≡ some schema)
        × Conforms schema signal)
unfolding validate
validate_iff registry signal op =
    (sound, λ (schema, e, c). ground (arith, e, (validate_under_iff schema signal op).1 c))
  where
    sound :
        validate registry signal op ≡ ok tt
        → (schema : ArchetypeSchema) × (get_schema registry signal.archetype ≡ some schema)
          × Conforms schema signal
    sound h = elim (Option-cases (get_schema registry signal.archetype)) [
      | inl e ↦ absurd (ground arith)
      | inr (schema, e) ↦ (schema, e, (validate_under_iff schema signal op).0 (ground arith))
    ]
