-- ===== src/Signal/Transform/Forgetting.antt =====
-- What the transform reads of an observation.
use artificial_intelligence.Base.{
  Option-cases, Result-cases, [], ap, arith, inl, inr, refl, some, ◌∷◌, ◌≡◌,
}
use artificial_intelligence.BTree.{BTreeMap, get, insert}
use artificial_intelligence.BTree.Entries.{
  EachEntry, EachEntry-map, EachEntry-get, IsSorted-EachEntry,
}
use artificial_intelligence.Signal.Token.{Token, token_ord}
use artificial_intelligence.Signal.Domain.{SignalValue, FieldDomain, generalize}
use artificial_intelligence.Signal.Schema.{
  ArchetypeSchema, domain, SchemaRegistry, get_schema, LocalObservation,
}
use artificial_intelligence.Signal.Transform.{
  carry_required, carry_optional, transform_under, transform,
}
use artificial_intelligence.Signal.Transform.Soundness.{IsSound, IsSoundRegistry}

module _ (a b : BTreeMap Token SignalValue) where
  required_alike :
      (ds : BTreeMap Token FieldDomain) (fields : BTreeMap Token SignalValue)
      → EachEntry (λ n d. get n a ≡ get n b) ds
      → carry_required a fields ds ≡ carry_required b fields ds
  unfolding carry_required
  required_alike [] fields h = refl
  required_alike ((name, d) ∷ rest) fields (same, h) = elim (Option-cases (get name b)) [
    | inl z ↦ ground (arith, same, z)
    | inr (v, p) ↦ elim (Result-cases (generalize d v)) [
      | inr (x, g) ↦ ground (arith, same, p, g)
      | inl (w, g) ↦ ground (arith, same, p, g, required_alike rest (insert name w fields) h)
    ]
  ]

  optional_alike :
      (ds : BTreeMap Token FieldDomain) (fields : BTreeMap Token SignalValue)
      → EachEntry (λ n d. get n a ≡ get n b) ds
      → carry_optional a fields ds ≡ carry_optional b fields ds
  unfolding carry_optional
  optional_alike [] fields h = refl
  optional_alike ((name, d) ∷ rest) fields (same, h) = elim (Option-cases (get name b)) [
    | inl z ↦ ground (arith, same, z, optional_alike rest fields h)
    | inr (v, p) ↦ elim (Result-cases (generalize d v)) [
      | inr (x, g) ↦ ground (arith, same, p, g)
      | inl (w, g) ↦ ground (arith, same, p, g, optional_alike rest (insert name w fields) h)
    ]
  ]

-- The observations agree on every field that the schema declares.
abbrev pub AgreeOn : ArchetypeSchema → LocalObservation → LocalObservation → Type 0
AgreeOn schema a b =
    (n : Token) (d : FieldDomain) → domain schema n ≡ some d → get n a.fields ≡ get n b.fields

under_alike :
    (schema : ArchetypeSchema) (a b : LocalObservation)
    → IsSound schema
    → AgreeOn schema a b
    → transform_under schema a ≡ transform_under schema b
unfolding transform_under domain
under_alike schema a b s h =
    let required = required_alike a.fields b.fields schema.required_fields [] (
      EachEntry-map (λ n d. get n schema.required_fields ≡ some d)
        (λ n d. get n a.fields ≡ get n b.fields) (λ n d k. h n d (ground (arith, k)))
        schema.required_fields (IsSorted-EachEntry schema.required_fields s.required_sorted)) in
    let optional = λ (fields : BTreeMap Token SignalValue).
      optional_alike a.fields b.fields schema.optional_fields fields (
        EachEntry-map (λ n d. get n schema.optional_fields ≡ some d)
          (λ n d. get n a.fields ≡ get n b.fields)
          (λ n d k. elim (Option-cases (get n schema.required_fields)) [
            | inl z ↦ h n d (ground (arith, k, z))
            | inr (c, z) ↦ h n c (ground (arith, z))
          ])
          schema.optional_fields (IsSorted-EachEntry schema.optional_fields s.optional_sorted)) in
    elim (Result-cases (carry_required b.fields [] schema.required_fields)) [
      | inr (x, p) ↦ ground (arith, required, p)
      | inl (fields, p) ↦
          elim (Result-cases (carry_optional b.fields fields schema.optional_fields)) [
            | inr (x, q) ↦ ground (arith, required, p, optional fields, q)
            | inl (out, q) ↦ ground (arith, required, p, optional fields, q)
          ]
    ]

-- Nothing of an observation reaches a signal but its declared fields: under a registry of sound
-- schemas, observations of one archetype that agree on the fields its schema declares are
-- transformed alike, whatever else they hold, into one signal or into one refusal.
pub transform_forgets :
    (registry : SchemaRegistry) (a b : LocalObservation)
    → IsSoundRegistry registry
    → a.archetype ≡ b.archetype
    → ((schema : ArchetypeSchema)
        → get_schema registry a.archetype ≡ some schema
        → AgreeOn schema a b)
    → transform registry a ≡ transform registry b
unfolding transform get_schema
transform_forgets registry a b s e h =
    let one = ap (λ x. get x registry.by_archetype) e in
    elim (Option-cases (get a.archetype registry.by_archetype)) [
      | inl z ↦ ground (arith, one, z)
      | inr (schema, k) ↦
          let (keyed, sound) =
            EachEntry-get (λ name schema. (schema.archetype ≡ name) × IsSound schema) a.archetype
              schema registry.by_archetype s k in
          ground (arith, one, k, under_alike schema a b sound (h schema k))
    ]
