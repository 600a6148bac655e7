-- ===== src/Signal/Transform/Carrying.antt =====
-- What the loops of the transform carry into a signal, for the validator of the same registry.
use artificial_intelligence.Base.{
  All, All-map, Option, Option-cases, Result-cases, [], ap, arith, inl, inr, ok, subst, true, ◌∙◌,
  ◌∷◌, ◌≡◌,
}
use artificial_intelligence.BTree.{BTreeMap, get, insert, keys, contains_key}
use artificial_intelligence.BTree.Entries.{
  EachEntry, EachEntry-insert, EachEntry-get, contains_key-insert, contains_key-insert_self,
}
use artificial_intelligence.Contracts.Identifier.{OperationId}
use artificial_intelligence.Signal.Token.{Token, token_ord}
use artificial_intelligence.Signal.Domain.{SignalValue, FieldDomain, generalize}
use artificial_intelligence.Signal.Domain.Generalizing.{generalize-check}
use artificial_intelligence.Signal.Schema.{
  ArchetypeSchema, check_each, check_combinations, SchemaRegistry, get_schema, LocalObservation,
  TrainingSignal,
}
use artificial_intelligence.Signal.Transform.{
  carry_required, carry_optional, transform_under, transform,
}
use artificial_intelligence.Signal.Validate.{validate}
use artificial_intelligence.Signal.Validate.Conformance.{
  IsDeclared, Conforms, check_each_iff, validate_iff,
}
use artificial_intelligence.Signal.Transform.Soundness.{
  IsSound, IsSoundRegistry, IsOffered, required-IsOffered, optional-IsOffered,
}

module _ (schema : ArchetypeSchema) (observed : BTreeMap Token SignalValue) where
  insert-IsDeclared :
      (name : Token) (d : FieldDomain) (v w : SignalValue) (fields : BTreeMap Token SignalValue)
      → IsOffered schema name d
      → generalize d v ≡ ok w
      → EachEntry (IsDeclared schema) fields
      → EachEntry (IsDeclared schema) (insert name w fields)
  insert-IsDeclared name d v w fields (well, e) g h =
      EachEntry-insert (IsDeclared schema) name w fields (d, e, (generalize-check d v w well g).0) h

  -- What the loop over the required fields leaves in the fields.
  carry_required_lem :
      (ds : BTreeMap Token FieldDomain) (fields out : BTreeMap Token SignalValue)
      → EachEntry (IsOffered schema) ds
      → EachEntry (IsDeclared schema) fields
      → carry_required observed fields ds ≡ ok out
      → EachEntry (IsDeclared schema) out
        × All (λ name. contains_key name out ≡ true) (keys ds)
        × ((name : Token) → contains_key name fields ≡ true → contains_key name out ≡ true)
  unfolding carry_required
  carry_required_lem [] fields out a h e =
      let same : fields ≡ out = ground arith in
      (
        subst (EachEntry (IsDeclared schema)) same h,
        tt,
        λ name c. subst (λ m. contains_key name m ≡ true) same c,
      )
  carry_required_lem ((name, d) ∷ rest) fields out a h e = elim (Option-cases (get name observed)) [
    | inl n ↦ absurd (ground arith)
    | inr (v, p) ↦ elim (Result-cases (generalize d v)) [
      | inr (x, g) ↦ absurd (ground arith)
      | inl (w, g) ↦
          let (checked, complete, kept) =
            carry_required_lem rest (insert name w fields) out a.1
              (insert-IsDeclared name d v w fields a.0 g h) (ground arith) in
          (
            checked,
            (kept name (contains_key-insert_self name w fields), complete),
            λ other c. kept other (contains_key-insert name other w fields c),
          )
    ]
  ]

  carry_optional_lem :
      (ds : BTreeMap Token FieldDomain) (fields out : BTreeMap Token SignalValue)
      → EachEntry (IsOffered schema) ds
      → EachEntry (IsDeclared schema) fields
      → carry_optional observed fields ds ≡ ok out
      → EachEntry (IsDeclared schema) out
        × ((name : Token) → contains_key name fields ≡ true → contains_key name out ≡ true)
  unfolding carry_optional
  carry_optional_lem [] fields out a h e =
      let same : fields ≡ out = ground arith in
      (
        subst (EachEntry (IsDeclared schema)) same h,
        λ name c. subst (λ m. contains_key name m ≡ true) same c,
      )
  carry_optional_lem ((name, d) ∷ rest) fields out a h e = elim (Option-cases (get name observed)) [
    | inl n ↦ carry_optional_lem rest fields out a.1 h (ground arith)
    | inr (v, p) ↦ elim (Result-cases (generalize d v)) [
      | inr (x, g) ↦ absurd (ground arith)
      | inl (w, g) ↦
          let (checked, kept) =
            carry_optional_lem rest (insert name w fields) out a.1
              (insert-IsDeclared name d v w fields a.0 g h) (ground arith) in
          (checked, λ other c. kept other (contains_key-insert name other w fields c))
    ]
  ]

transform_under-Conforms :
    (schema : ArchetypeSchema) (observation : LocalObservation) (signal : TrainingSignal)
    → IsSound schema
    → transform_under schema observation ≡ ok signal
    → Conforms schema signal × (signal.archetype ≡ schema.archetype)
unfolding transform_under check_combinations
transform_under-Conforms schema observation signal s e =
    elim (Result-cases (carry_required observation.fields [] schema.required_fields)) [
      | inr (x, p) ↦ absurd (ground arith)
      | inl (required, p) ↦
          elim (Result-cases (carry_optional observation.fields required schema.optional_fields)) [
            | inr (x, q) ↦ absurd (ground arith)
            | inl (fields, q) ↦
                let (checked, complete, kept) =
                  carry_required_lem schema observation.fields schema.required_fields [] required
                    (required-IsOffered schema s) tt p in
                let (all_checked, all_kept) =
                  carry_optional_lem schema observation.fields schema.optional_fields required
                    fields (optional-IsOffered schema s) checked q in
                let carried : fields ≡ signal.fields = ground arith in
                let rules : check_each (λ f. contains_key f fields) schema.combinations ≡ ok tt =
                  ground arith in
                (
                  record {
                    version = ground arith;
                    complete =
                        subst
                          (λ m.
                            All (λ name. contains_key name m ≡ true) (keys schema.required_fields))
                          carried (All-map all_kept (keys schema.required_fields) complete);
                    declared = subst (EachEntry (IsDeclared schema)) carried all_checked;
                    obeys =
                        (check_each_iff (λ f. contains_key f signal.fields) schema.combinations).0 (
                          subst
                            (λ m. check_each (λ f. contains_key f m) schema.combinations ≡ ok tt)
                            carried rules);
                  },
                  ground arith,
                )
          ]
    ]

-- Under a registry of sound schemas, whatever the transform makes of an observation, the validator
-- admits.
pub transform-validate :
    (registry : SchemaRegistry) (observation : LocalObservation) (signal : TrainingSignal)
    (op : Option OperationId)
    → IsSoundRegistry registry
    → transform registry observation ≡ ok signal
    → validate registry signal op ≡ ok tt
unfolding transform get_schema
transform-validate registry observation signal op s e =
    elim (Option-cases (get observation.archetype registry.by_archetype)) [
      | inl n ↦ absurd (ground arith)
      | inr (schema, p) ↦
          let (keyed, sound) =
            EachEntry-get (λ name schema. (schema.archetype ≡ name) × IsSound schema)
              observation.archetype schema registry.by_archetype s p in
          let (conforms, named) =
            transform_under-Conforms schema observation signal sound (ground arith) in
          (validate_iff registry signal op).1
            (schema, ap (λ a. get a registry.by_archetype) (named ∙ keyed) ∙ p, conforms)
    ]
