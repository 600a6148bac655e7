-- ===== src/Signal/Transform/Idempotence.antt =====
-- The transform run on the fields of its own signal.
use artificial_intelligence.Base.{
  Option-cases, Result-cases, [], ap, arith, inl, inr, none, ok, refl, some, subst, ◌∙◌, ◌∷◌, ◌≡◌,
  ◌⊎◌,
}
use artificial_intelligence.BTree.{BTreeMap, get, insert}
use artificial_intelligence.BTree.Entries.{
  EachEntry, EachEntry-map, EachEntry-zip, EachEntry-get, IsSorted-EachEntry,
}
use artificial_intelligence.Signal.Token.{Token, token_ord}
use artificial_intelligence.Signal.Domain.{SignalValue, FieldDomain}
use artificial_intelligence.Signal.Domain.Laws.{IsWellFormed}
use artificial_intelligence.Signal.Domain.Generalizing.{generalize-check}
use artificial_intelligence.Signal.Schema.{
  ArchetypeSchema, SchemaRegistry, get_schema, LocalObservation, TrainingSignal,
}
use artificial_intelligence.Signal.Transform.{
  carry_required, carry_optional, transform_under, transform,
}
use artificial_intelligence.Signal.Transform.Soundness.{IsSound, IsSoundRegistry}
use artificial_intelligence.Signal.Transform.Fields.{Generalizes, loops-Generalizes}
use artificial_intelligence.Signal.Transform.Loops.{Carried}

module _ (observed out : BTreeMap Token SignalValue) where
  required_again :
      (ds : BTreeMap Token FieldDomain) (fields : BTreeMap Token SignalValue)
      → EachEntry (λ n d. IsWellFormed d × Carried observed out n d) ds
      → carry_required out fields ds ≡ carry_required observed fields ds
  unfolding carry_required
  required_again [] fields h = refl
  required_again ((name, d) ∷ rest) fields ((well, (v, w, p, g, q)), h) = ground (
    arith,
    p,
    g,
    q,
    (generalize-check d v w well g).1,
    required_again rest (insert name w fields) h,
  )

  optional_again :
      (ds : BTreeMap Token FieldDomain) (fields : BTreeMap Token SignalValue)
      → EachEntry
          (λ n d.
            IsWellFormed d
            × (((get n observed ≡ none) × (get n out ≡ none)) ⊎ Carried observed out n d))
          ds
      → carry_optional out fields ds ≡ carry_optional observed fields ds
  unfolding carry_optional
  optional_again [] fields h = refl
  optional_again ((name, d) ∷ rest) fields ((well, inl (p, q)), h) =
      ground (arith, p, q, optional_again rest fields h)
  optional_again ((name, d) ∷ rest) fields ((well, inr (v, w, p, g, q)), h) = ground (
    arith,
    p,
    g,
    q,
    (generalize-check d v w well g).1,
    optional_again rest (insert name w fields) h,
  )

-- The two loops over a sound schema, run on what they have carried.
loops_again :
    (schema : ArchetypeSchema) (observed required fields : BTreeMap Token SignalValue)
    → IsSound schema
    → carry_required observed [] schema.required_fields ≡ ok required
    → carry_optional observed required schema.optional_fields ≡ ok fields
    → (carry_required fields [] schema.required_fields ≡ ok required)
      × (carry_optional fields required schema.optional_fields ≡ ok fields)
unfolding get
loops_again schema observed required fields s p q = (
  required_again observed fields schema.required_fields [] (
        EachEntry-map (λ n d. IsWellFormed d × (get n schema.required_fields ≡ some d))
          (λ n d. IsWellFormed d × Carried observed fields n d) first schema.required_fields
          (EachEntry-zip (λ n d. IsWellFormed d) (λ n d. get n schema.required_fields ≡ some d)
            schema.required_fields s.required_domains
            (IsSorted-EachEntry schema.required_fields s.required_sorted)))
      ∙ p,
  optional_again observed fields schema.optional_fields required (
        EachEntry-map
          (λ n d.
            (IsWellFormed d × (get n schema.required_fields ≡ none))
            × (get n schema.optional_fields ≡ some d))
          (λ n d.
            IsWellFormed d
            × (((get n observed ≡ none) × (get n fields ≡ none)) ⊎ Carried observed fields n d))
          second schema.optional_fields
          (EachEntry-zip (λ n d. IsWellFormed d × (get n schema.required_fields ≡ none))
            (λ n d. get n schema.optional_fields ≡ some d) schema.optional_fields s.optional_domains
            (IsSorted-EachEntry schema.optional_fields s.optional_sorted)))
      ∙ q,
)
  where
    whole : Generalizes schema observed fields
    whole = loops-Generalizes schema observed required fields s p q

    first :
        (n : Token) (d : FieldDomain)
        → IsWellFormed d × (get n schema.required_fields ≡ some d)
        → IsWellFormed d × Carried observed fields n d
    first n d (well, h) = (well, whole.required n d h)

    second :
        (n : Token) (d : FieldDomain)
        → (IsWellFormed d × (get n schema.required_fields ≡ none))
          × (get n schema.optional_fields ≡ some d)
        → IsWellFormed d
          × (((get n observed ≡ none) × (get n fields ≡ none)) ⊎ Carried observed fields n d)
    second n d ((well, alone), h) = (well, whole.optional n d h)

under_again :
    (schema : ArchetypeSchema) (observation : LocalObservation) (signal : TrainingSignal)
    → IsSound schema
    → transform_under schema observation ≡ ok signal
    → (signal.archetype ≡ schema.archetype)
      × (transform_under schema (record { archetype = signal.archetype; fields = signal.fields })
          ≡ ok signal)
unfolding transform_under
under_again schema observation signal s e =
    elim (Result-cases (carry_required observation.fields [] schema.required_fields)) [
      | inr (x, p) ↦ absurd (ground arith)
      | inl (required, p) ↦
          elim (Result-cases (carry_optional observation.fields required schema.optional_fields)) [
            | inr (x, q) ↦ absurd (ground arith)
            | inl (fields, q) ↦
                let carried : fields ≡ signal.fields = ground arith in
                let (a, b) = loops_again schema observation.fields required fields s p q in
                let a' : carry_required signal.fields [] schema.required_fields ≡ ok required =
                  subst (λ m. carry_required m [] schema.required_fields ≡ ok required) carried a in
                let b' : carry_optional signal.fields required schema.optional_fields ≡ ok fields =
                  subst (λ m. carry_optional m required schema.optional_fields ≡ ok fields) carried
                    b in
                (ground arith, ground (arith, a', b'))
          ]
    ]

-- Under a registry of sound schemas, the transform makes of its own signal's fields the same signal
-- again.
pub transform_idempotent :
    (registry : SchemaRegistry) (observation : LocalObservation) (signal : TrainingSignal)
    → IsSoundRegistry registry
    → transform registry observation ≡ ok signal
    → transform registry (record { archetype = signal.archetype; fields = signal.fields })
      ≡ ok signal
unfolding transform get_schema transform_under
transform_idempotent registry observation signal s e =
    elim (Option-cases (get observation.archetype registry.by_archetype)) [
      | inl n ↦ absurd (ground arith)
      | inr (schema, k) ↦
          let (keyed, sound) =
            EachEntry-get (λ name schema. (schema.archetype ≡ name) × IsSound schema)
              observation.archetype schema registry.by_archetype s k in
          let (named, again) = under_again schema observation signal sound (ground arith) in
          ground (arith, ap (λ a. get a registry.by_archetype) (named ∙ keyed) ∙ k, again)
    ]
