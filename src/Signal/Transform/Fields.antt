-- ===== src/Signal/Transform/Fields.antt =====
-- The fields of a signal, as the transform makes them of those observed.
use artificial_intelligence.Base.{
  Option-cases, Result-cases, [], arith, inl, inr, none, ok, some, subst, ◌∙◌, ◌≡◌, ◌⊎◌,
}
use artificial_intelligence.BTree.{BTreeMap, get}
use artificial_intelligence.BTree.Entries.{EachEntry-get}
use artificial_intelligence.Signal.Token.{Token, token_ord}
use artificial_intelligence.Signal.Domain.{SignalValue, FieldDomain}
use artificial_intelligence.Signal.Domain.Laws.{IsWellFormed}
use artificial_intelligence.Signal.Schema.{
  ArchetypeSchema, domain, SchemaRegistry, get_schema, LocalObservation, TrainingSignal,
}
use artificial_intelligence.Signal.Transform.{
  carry_required, carry_optional, transform_under, transform,
}
use artificial_intelligence.Signal.Transform.Soundness.{IsSound, IsSoundRegistry}
use artificial_intelligence.Signal.Transform.Loops.{
  Carried, frame_required, frame_optional, required-Carried, optional-Kept,
}

-- Every required field was observed and is generalized in its domain, every optional field too if it
-- was observed, and there is no other field.
pub record Generalizes (schema : ArchetypeSchema) (observed fields : BTreeMap Token SignalValue)
    : Type 0 where
  pub required :
      (n : Token) (d : FieldDomain)
      → get n schema.required_fields ≡ some d
      → Carried observed fields n d
  pub optional :
      (n : Token) (d : FieldDomain)
      → get n schema.optional_fields ≡ some d
      → ((get n observed ≡ none) × (get n fields ≡ none)) ⊎ Carried observed fields n d
  pub others : (n : Token) → domain schema n ≡ none → get n fields ≡ none

apart_optional :
    (schema : ArchetypeSchema) (n : Token) (d : FieldDomain)
    → IsSound schema
    → get n schema.required_fields ≡ some d
    → get n schema.optional_fields ≡ none
apart_optional schema n d s h = elim (Option-cases (get n schema.optional_fields)) [
  | inl z ↦ z
  | inr (c, z) ↦
      let (_, alone) =
        EachEntry-get (λ n d. IsWellFormed d × (get n schema.required_fields ≡ none)) n c
          schema.optional_fields s.optional_domains z in
      absurd (ground arith)
]

pub loops-Generalizes :
    (schema : ArchetypeSchema) (observed required fields : BTreeMap Token SignalValue)
    → IsSound schema
    → carry_required observed [] schema.required_fields ≡ ok required
    → carry_optional observed required schema.optional_fields ≡ ok fields
    → Generalizes schema observed fields
unfolding get
loops-Generalizes schema observed required fields s p q = record {
  required = first;
  optional = second;
  others = third;
}
  where
    first :
        (n : Token) (d : FieldDomain)
        → get n schema.required_fields ≡ some d
        → Carried observed fields n d
    first n d h =
        let (v, w, a, g, b) =
          required-Carried observed schema.required_fields [] required s.required_sorted p n d h in
        let kept =
          frame_optional observed schema.optional_fields required fields n
            (apart_optional schema n d s h) q in
        (v, w, a, g, kept ∙ b)

    second :
        (n : Token) (d : FieldDomain)
        → get n schema.optional_fields ≡ some d
        → ((get n observed ≡ none) × (get n fields ≡ none)) ⊎ Carried observed fields n d
    second n d h =
        elim (optional-Kept observed schema.optional_fields required fields s.optional_sorted q n d
          h) [
            | inr carried ↦ inr carried
            | inl (a, b) ↦
                let (_, alone) =
                  EachEntry-get (λ n d. IsWellFormed d × (get n schema.required_fields ≡ none)) n d
                    schema.optional_fields s.optional_domains h in
                inl (a, b ∙ frame_required observed schema.required_fields [] required n alone p)
          ]

    third : (n : Token) → domain schema n ≡ none → get n fields ≡ none
    third n h =
        let neither : (get n schema.required_fields ≡ none)
            × (get n schema.optional_fields ≡ none) =
          unfold domain in ground arith in
        frame_optional observed schema.optional_fields required fields n neither.1 q
        ∙ frame_required observed schema.required_fields [] required n neither.0 p

pub under-Generalizes :
    (schema : ArchetypeSchema) (observation : LocalObservation) (signal : TrainingSignal)
    → IsSound schema
    → transform_under schema observation ≡ ok signal
    → (signal.schema_version ≡ schema.schema_version)
      × (signal.archetype ≡ schema.archetype)
      × Generalizes schema observation.fields signal.fields
unfolding transform_under
under-Generalizes schema observation signal s e =
    elim (Result-cases (carry_required observation.fields [] schema.required_fields)) [
      | inr (x, p) ↦ absurd (ground arith)
      | inl (required, p) ↦
          elim (Result-cases (carry_optional observation.fields required schema.optional_fields)) [
            | inr (x, q) ↦ absurd (ground arith)
            | inl (fields, q) ↦
                let carried : fields ≡ signal.fields = ground arith in
                (
                  ground arith,
                  ground arith,
                  subst (Generalizes schema observation.fields) carried
                      (loops-Generalizes schema observation.fields required fields s p q),
                )
          ]
    ]

-- A signal that the transform makes under a registry of sound schemas is of the observation's
-- archetype and of its schema's version. Each required field was observed and stands in the signal
-- as its domain generalizes it; so does each optional field that was observed, and one that was not
-- is absent; no other field is present.
pub transform-Generalizes :
    (registry : SchemaRegistry) (observation : LocalObservation) (signal : TrainingSignal)
    → IsSoundRegistry registry
    → transform registry observation ≡ ok signal
    → (schema : ArchetypeSchema) × (get_schema registry observation.archetype ≡ some schema)
      × (signal.archetype ≡ observation.archetype)
      × (signal.schema_version ≡ schema.schema_version)
      × Generalizes schema observation.fields signal.fields
unfolding transform get_schema
transform-Generalizes registry observation signal s e =
    elim (Option-cases (get observation.archetype registry.by_archetype)) [
      | inl z ↦ absurd (ground arith)
      | inr (schema, k) ↦
          let (keyed, sound) =
            EachEntry-get (λ name schema. (schema.archetype ≡ name) × IsSound schema)
              observation.archetype schema registry.by_archetype s k in
          let (version, named, fields) =
            under-Generalizes schema observation signal sound (ground arith) in
          (schema, k, named ∙ keyed, version, fields)
    ]
