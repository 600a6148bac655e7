-- ===== src/Tests/Signal.antt =====
-- A registry with one archetype, an observation, and the theorems on signals applied to them.
use artificial_intelligence.Base.{
  Bytes, [], arith, codes, err, false, is_ok, none, ok, refl, some, ◌↔◌, ◌∷◌, ◌≡◌,
}
use artificial_intelligence.BTree.{get, insert}
use artificial_intelligence.Contracts.Version.{current}
use artificial_intelligence.Signal.Token.{Token, token_ord}
use artificial_intelligence.Signal.Domain.{
  SignalValue, nil, cons, FieldDomain, check, check_measure, generalize, generalize_measure,
  collect_values, clamp, panicked,
}
use artificial_intelligence.Signal.Domain.Laws.{IsWellFormed, Admits, check_iff}
use artificial_intelligence.Signal.Domain.Generalizing.{generalize-check}
use artificial_intelligence.Signal.Schema.{
  FieldCombination, ArchetypeSchema, SchemaRegistry, get_schema, check_combinations, check_each,
  check_combination, domain, LocalObservation, TrainingSignal,
}
use artificial_intelligence.Signal.Transform.{
  transform, transform_under, carry_required, carry_optional,
}
use artificial_intelligence.Signal.Transform.Soundness.{IsSoundRegistry}
use artificial_intelligence.Contracts.Error.{SchemaViolation, violation_str}
use artificial_intelligence.Contracts.Error.Display.{show_violation}
use artificial_intelligence.Signal.Display.{show_rejection}
use artificial_intelligence.Signal.Transform.Fields.{Generalizes, transform-Generalizes}
use artificial_intelligence.Signal.Transform.Succeeding.{IsReady, transform_iff}
use artificial_intelligence.Signal.Transform.Idempotence.{transform_idempotent}
use artificial_intelligence.Signal.Transform.Carrying.{transform-validate}
use artificial_intelligence.Signal.Validate.{
  validate, validate_under, validate_fields, validate_field, require_each,
}
use artificial_intelligence.Signal.Validate.Conformance.{Conforms, validate_iff}

abbrev pub named : Bytes → Token
named text = record { as_str = text }

-- Minutes up to ten hours, at most two of them.
abbrev pub dwell : FieldDomain
dwell = FieldDomain.sequence (FieldDomain.quantized 0 600 60) 2

abbrev pub observed_dwell : SignalValue
observed_dwell = SignalValue.sequence (
    cons (SignalValue.measure 137)
      (cons (SignalValue.measure 9999) (cons (SignalValue.measure 1) nil)))

abbrev coarse_dwell : SignalValue
coarse_dwell =
    SignalValue.sequence (cons (SignalValue.measure 120) (cons (SignalValue.measure 600) nil))

dwell-IsWellFormed : IsWellFormed dwell
dwell-IsWellFormed = (omega arith, (omega arith, omega arith))

generalize-dwell : generalize dwell observed_dwell ≡ ok coarse_dwell
unfolding generalize generalize_measure collect_values clamp
generalize-dwell = refl

check_iff_example : (check dwell observed_dwell ≡ ok tt) ↔ Admits dwell observed_dwell
check_iff_example = check_iff dwell observed_dwell dwell-IsWellFormed

generalize-check_example :
    (check dwell coarse_dwell ≡ ok tt) × (generalize dwell coarse_dwell ≡ ok coarse_dwell)
generalize-check_example =
    generalize-check dwell observed_dwell coarse_dwell dwell-IsWellFormed generalize-dwell

-- Bounds in the wrong order make the generalization of any measure panic.
inverted_bounds : generalize (FieldDomain.quantized 9 3 1) (SignalValue.measure 5) ≡ err panicked
unfolding generalize generalize_measure clamp
inverted_bounds = refl

abbrev pub rest_stop : ArchetypeSchema
rest_stop = record {
  archetype = named (codes "rest_stop");
  schema_version = current;
  required_fields = (named (codes "dwell"), dwell) ∷ [];
  optional_fields = (named (codes "visits"), FieldDomain.quantized 0 9 3) ∷ [];
  combinations =
      FieldCombination.required_with (named (codes "visits")) (named (codes "dwell")) ∷ [];
}

abbrev pub one_archetype : SchemaRegistry
one_archetype = record { by_archetype = (named (codes "rest_stop"), rest_stop) ∷ [] }

abbrev pub observation : LocalObservation
observation = record {
  archetype = named (codes "rest_stop");
  fields =
      (named (codes "dwell"), observed_dwell)
      ∷ (named (codes "visits"), SignalValue.measure 8)
      ∷ (named (codes "where"), SignalValue.measure 51)
      ∷ [];
}

abbrev signal : TrainingSignal
signal = record {
  schema_version = current;
  archetype = named (codes "rest_stop");
  fields =
      (named (codes "dwell"), coarse_dwell) ∷ (named (codes "visits"), SignalValue.measure 6) ∷ [];
}

transform-observation : transform one_archetype observation ≡ ok signal
unfolding transform transform_under get_schema carry_required carry_optional get insert generalize
    generalize_measure collect_values clamp check_combinations check_each check_combination
transform-observation = refl

pub one_archetype-IsSoundRegistry : IsSoundRegistry one_archetype
one_archetype-IsSoundRegistry = (
  (
    refl,
    record {
      required_sorted = (tt, tt);
      optional_sorted = (tt, tt);
      required_domains = (dwell-IsWellFormed, tt);
      optional_domains = (((omega arith, omega arith), unfold get in refl), tt);
    },
  ),
  tt,
)

transform-validate_example : validate one_archetype signal none ≡ ok tt
transform-validate_example =
    transform-validate one_archetype observation signal none one_archetype-IsSoundRegistry
      transform-observation

transform-Generalizes_example :
    (schema : ArchetypeSchema) × (get_schema one_archetype observation.archetype ≡ some schema)
    × (signal.archetype ≡ observation.archetype)
    × (signal.schema_version ≡ schema.schema_version)
    × Generalizes schema observation.fields signal.fields
transform-Generalizes_example =
    transform-Generalizes one_archetype observation signal one_archetype-IsSoundRegistry
      transform-observation

transform_iff_example :
    (schema : ArchetypeSchema) × (get_schema one_archetype observation.archetype ≡ some schema)
    × IsReady schema observation.fields
transform_iff_example =
    (transform_iff one_archetype observation one_archetype-IsSoundRegistry).0
      (signal, transform-observation)

transform_idempotent_example :
    transform one_archetype (record { archetype = signal.archetype; fields = signal.fields })
    ≡ ok signal
transform_idempotent_example =
    transform_idempotent one_archetype observation signal one_archetype-IsSoundRegistry
      transform-observation

validate_iff_example :
    (schema : ArchetypeSchema) × (get_schema one_archetype signal.archetype ≡ some schema)
    × Conforms schema signal
validate_iff_example = (validate_iff one_archetype signal none).0 (
    transform-validate one_archetype observation signal none one_archetype-IsSoundRegistry
      transform-observation)

-- A schema that declares one field both required and optional, in domains that exclude each other.
abbrev doubled : SchemaRegistry
doubled = record {
  by_archetype =
      (
        named (codes "d"),
        record {
          archetype = named (codes "d");
          schema_version = current;
          required_fields = (named (codes "f"), FieldDomain.quantized 0 3 1) ∷ [];
          optional_fields = (named (codes "f"), FieldDomain.quantized 7 9 1) ∷ [];
          combinations = [];
        },
      )
      ∷ [];
}

abbrev doubled_observation : LocalObservation
doubled_observation = record {
  archetype = named (codes "d");
  fields = (named (codes "f"), SignalValue.measure 2) ∷ [];
}

abbrev doubled_signal : TrainingSignal
doubled_signal = record {
  schema_version = current;
  archetype = named (codes "d");
  fields = (named (codes "f"), SignalValue.measure 7) ∷ [];
}

transform-doubled : transform doubled doubled_observation ≡ ok doubled_signal
unfolding transform transform_under get_schema carry_required carry_optional get insert generalize
    generalize_measure collect_values clamp check_combinations check_each check_combination
transform-doubled = refl

validate-doubled : is_ok (validate doubled doubled_signal none) ≡ false
unfolding validate validate_under get_schema require_each validate_fields validate_field domain get
    check check_measure check_combinations check_each
validate-doubled = refl

abbrev located : Bytes
located = show_rejection (record {
  violation = SchemaViolation.value_out_of_domain;
  field = some (named (codes "dwell_seconds"));
})

show_rejection-located : located ≡ codes "value_out_of_domain at field dwell_seconds"
unfolding show_rejection show_violation violation_str
show_rejection-located = refl
