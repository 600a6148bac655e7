-- ===== src/Signal/Transform.antt =====
-- crates/aiai-signal/src/transform.rs: one observation becomes a signal of its schema.
pub mod Soundness
pub mod Carrying
pub mod Loops
pub mod Fields
pub mod Succeeding
pub mod Idempotence
pub mod Forgetting
use artificial_intelligence.Base.{
  Option, Result, [], err, map_err, none, ok, some, ◌∷◌, ◌>>=◌, ◌>>◌,
}
use artificial_intelligence.BTree.{BTreeMap, get, insert, contains_key}
use artificial_intelligence.Contracts.Error.{SchemaViolation}
use artificial_intelligence.Contracts.Error.SchemaViolation.{unknown_archetype, missing_field}
use artificial_intelligence.Signal.Token.{Token, token_ord}
use artificial_intelligence.Signal.Domain.{
  SignalValue, FieldDomain, generalize, Halt, refused, panicked,
}
use artificial_intelligence.Signal.Schema.{
  ArchetypeSchema, check_combinations, SchemaRegistry, get_schema, LocalObservation, TrainingSignal,
}

pub record TransformRejection : Type 0 where
  pub violation : SchemaViolation
  pub field : Option Token

-- `TransformRejection::archetype` and `TransformRejection::field`
abbrev pub reject_archetype : SchemaViolation → TransformRejection
reject_archetype violation = record { violation = violation; field = none }

abbrev pub reject_field : SchemaViolation → Token → TransformRejection
reject_field violation field = record { violation = violation; field = some field }

-- The closure that names the field of a violation; a panic passes through.
abbrev pub at_field : Token → Halt SchemaViolation → Halt TransformRejection
at_field name (refused violation) = refused (reject_field violation name)
at_field name panicked = panicked

-- The loop over the required fields, from the fields so far.
unfoldable pub carry_required :
    BTreeMap Token SignalValue
    → BTreeMap Token SignalValue
    → BTreeMap Token FieldDomain
    → Result (BTreeMap Token SignalValue) (Halt TransformRejection)
carry_required observed fields [] = ok fields
carry_required observed fields ((name, d) ∷ rest) = elim (get name observed) [
  | none ↦ err (refused (reject_field missing_field name))
  | some v ↦ elim (generalize d v) [
    | err x ↦ err (at_field name x)
    | ok w ↦ carry_required observed (insert name w fields) rest
  ]
]

-- The loop over the optional fields.
unfoldable pub carry_optional :
    BTreeMap Token SignalValue
    → BTreeMap Token SignalValue
    → BTreeMap Token FieldDomain
    → Result (BTreeMap Token SignalValue) (Halt TransformRejection)
carry_optional observed fields [] = ok fields
carry_optional observed fields ((name, d) ∷ rest) = elim (get name observed) [
  | none ↦ carry_optional observed fields rest
  | some v ↦ elim (generalize d v) [
    | err x ↦ err (at_field name x)
    | ok w ↦ carry_optional observed (insert name w fields) rest
  ]
]

-- The closure that turns a violated rule into a rejection.
abbrev pub at_rule : SchemaViolation × Token → Halt TransformRejection
at_rule (violation, field) = refused (reject_field violation field)

-- `transform` under the schema of the observation's archetype.
unfoldable pub transform_under :
    ArchetypeSchema → LocalObservation → Result TrainingSignal (Halt TransformRejection)
transform_under schema observation = do
  required ← carry_required observation.fields [] schema.required_fields
  fields ← carry_optional observation.fields required schema.optional_fields
  map_err at_rule (check_combinations schema (λ f. contains_key f fields))
  ok (record {
    schema_version = schema.schema_version;
    archetype = schema.archetype;
    fields = fields;
  })

unfoldable pub transform :
    SchemaRegistry → LocalObservation → Result TrainingSignal (Halt TransformRejection)
unfolding transform_under
transform registry observation = elim (get_schema registry observation.archetype) [
  | none ↦ err (refused (reject_archetype unknown_archetype))
  | some schema ↦ transform_under schema observation
]
