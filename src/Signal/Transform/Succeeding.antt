-- ===== src/Signal/Transform/Succeeding.antt =====
-- When the transform makes a signal.
use artificial_intelligence.Base.{
  Bool, List, Option-cases, Result-cases, [], arith, inl, inr, is_some, none, ok, refl, some, subst,
  sym, ◌&&◌, ◌↔◌, ◌∙◌, ◌∷◌, ◌≡◌, ◌⊎◌,
}
use artificial_intelligence.BTree.{BTreeMap, get, insert, contains_key}
use artificial_intelligence.BTree.Entries.{
  EachEntry, EachEntry-map, EachEntry-get, IsSorted-EachEntry,
}
use artificial_intelligence.Signal.Token.{Token, token_ord}
use artificial_intelligence.Signal.Domain.{SignalValue, FieldDomain, generalize}
use artificial_intelligence.Signal.Schema.{
  FieldCombination, ArchetypeSchema, domain, check_combination, check_each, check_combinations,
  SchemaRegistry, get_schema, LocalObservation, TrainingSignal,
}
use artificial_intelligence.Signal.Transform.{
  carry_required, carry_optional, transform_under, transform,
}
use artificial_intelligence.Signal.Transform.Soundness.{IsSound, IsSoundRegistry}
use artificial_intelligence.Signal.Transform.Fields.{
  Generalizes, loops-Generalizes, under-Generalizes,
}

-- The field was observed, and its domain can generalize the value.
abbrev pub IsCarriable : BTreeMap Token SignalValue → Token → FieldDomain → Type 0
IsCarriable observed n d =
    (v : SignalValue) × (w : SignalValue) × (get n observed ≡ some v) × (generalize d v ≡ ok w)

-- A declared field that was observed.
abbrev pub is_carried : ArchetypeSchema → BTreeMap Token SignalValue → Token → Bool
is_carried schema observed n = is_some (domain schema n) && contains_key n observed

-- What an observation needs for a schema: every required field, values that the domains can
-- generalize, and the rules across fields kept by the declared fields that are there.
pub record IsReady (schema : ArchetypeSchema) (observed : BTreeMap Token SignalValue) : Type 0 where
  pub required :
      (n : Token) (d : FieldDomain)
      → get n schema.required_fields ≡ some d
      → IsCarriable observed n d
  pub optional :
      (n : Token) (d : FieldDomain)
      → get n schema.optional_fields ≡ some d
      → (get n observed ≡ none) ⊎ IsCarriable observed n d
  pub rules : check_combinations schema (is_carried schema observed) ≡ ok tt

check_each_same :
    (p q : Token → Bool) (cs : List FieldCombination)
    → ((n : Token) → p n ≡ q n)
    → check_each p cs ≡ check_each q cs
unfolding check_each check_combination
check_each_same p q [] h = refl
check_each_same p q (FieldCombination.mutually_exclusive a b ∷ cs) h =
    ground (arith, h a, h b, check_each_same p q cs h)
check_each_same p q (FieldCombination.required_with a b ∷ cs) h =
    ground (arith, h a, h b, check_each_same p q cs h)

module _ (observed : BTreeMap Token SignalValue) where
  required_total :
      (ds : BTreeMap Token FieldDomain) (fields : BTreeMap Token SignalValue)
      → EachEntry (IsCarriable observed) ds
      → (out : BTreeMap Token SignalValue) × (carry_required observed fields ds ≡ ok out)
  unfolding carry_required
  required_total [] fields h = (fields, refl)
  required_total ((name, d) ∷ rest) fields ((v, w, p, g), h) =
      let (out, e) = required_total rest (insert name w fields) h in (out, ground (arith, p, g, e))

  optional_total :
      (ds : BTreeMap Token FieldDomain) (fields : BTreeMap Token SignalValue)
      → EachEntry (λ n d. (get n observed ≡ none) ⊎ IsCarriable observed n d) ds
      → (out : BTreeMap Token SignalValue) × (carry_optional observed fields ds ≡ ok out)
  unfolding carry_optional
  optional_total [] fields h = (fields, refl)
  optional_total ((name, d) ∷ rest) fields (inl p, h) =
      let (out, e) = optional_total rest fields h in (out, ground (arith, p, e))
  optional_total ((name, d) ∷ rest) fields (inr (v, w, p, g), h) =
      let (out, e) = optional_total rest (insert name w fields) h in (out, ground (arith, p, g, e))

-- The fields of a signal are the declared fields that were observed.
present_lem :
    (schema : ArchetypeSchema) (observed fields : BTreeMap Token SignalValue)
    → Generalizes schema observed fields
    → (n : Token) → contains_key n fields ≡ is_carried schema observed n
unfolding domain
present_lem schema observed fields g n = elim (Option-cases (get n schema.required_fields)) [
  | inr (d, z) ↦ let (v, w, a, k, b) = g.required n d z in ground (arith, z, a, b)
  | inl z ↦ elim (Option-cases (get n schema.optional_fields)) [
    | inl y ↦ let gone = g.others n (ground (arith, z, y)) in ground (arith, z, y, gone)
    | inr (d, y) ↦ elim (g.optional n d y) [
      | inl (a, b) ↦ ground (arith, z, y, a, b)
      | inr (v, w, a, k, b) ↦ ground (arith, z, y, a, b)
    ]
  ]
]

rules_same :
    (schema : ArchetypeSchema) (observed fields : BTreeMap Token SignalValue)
    → Generalizes schema observed fields
    → check_combinations schema (λ f. contains_key f fields)
      ≡ check_combinations schema (is_carried schema observed)
unfolding check_combinations
rules_same schema observed fields g =
    check_each_same (λ f. contains_key f fields) (is_carried schema observed) schema.combinations
      (present_lem schema observed fields g)

under_total :
    (schema : ArchetypeSchema) (observation : LocalObservation)
    → IsSound schema
    → IsReady schema observation.fields
    → (signal : TrainingSignal) × (transform_under schema observation ≡ ok signal)
unfolding transform_under
under_total schema observation s r =
    let observed = observation.fields in
    let (required, p) = required_total observed schema.required_fields [] (
      EachEntry-map (λ n d. get n schema.required_fields ≡ some d) (IsCarriable observed) r.required
        schema.required_fields (IsSorted-EachEntry schema.required_fields s.required_sorted)) in
    let (fields, q) = optional_total observed schema.optional_fields required (
      EachEntry-map (λ n d. get n schema.optional_fields ≡ some d)
        (λ n d. (get n observed ≡ none) ⊎ IsCarriable observed n d) r.optional
        schema.optional_fields (IsSorted-EachEntry schema.optional_fields s.optional_sorted)) in
    let rules =
      rules_same schema observed fields (loops-Generalizes schema observed required fields s p q)
      ∙ r.rules in
    (
      record {
        schema_version = schema.schema_version;
        archetype = schema.archetype;
        fields = fields;
      },
      ground (arith, p, q, rules),
    )

under_rules :
    (schema : ArchetypeSchema) (observation : LocalObservation) (signal : TrainingSignal)
    → transform_under schema observation ≡ ok signal
    → check_combinations schema (λ f. contains_key f signal.fields) ≡ ok tt
unfolding transform_under
under_rules schema observation signal e =
    elim (Result-cases (carry_required observation.fields [] schema.required_fields)) [
      | inr (x, p) ↦ absurd (ground arith)
      | inl (required, p) ↦
          elim (Result-cases (carry_optional observation.fields required schema.optional_fields)) [
            | inr (x, q) ↦ absurd (ground arith)
            | inl (fields, q) ↦
                let carried : fields ≡ signal.fields = ground arith in
                let kept : check_combinations schema (λ f. contains_key f fields) ≡ ok tt =
                  ground arith in
                subst (λ m. check_combinations schema (λ f. contains_key f m) ≡ ok tt) carried kept
          ]
    ]

under-IsReady :
    (schema : ArchetypeSchema) (observation : LocalObservation) (signal : TrainingSignal)
    → IsSound schema
    → transform_under schema observation ≡ ok signal
    → IsReady schema observation.fields
under-IsReady schema observation signal s e =
    let (_, _, g) = under-Generalizes schema observation signal s e in
    record {
      required = λ n d h. let (v, w, a, k, b) = g.required n d h in (v, w, a, k);
      optional = λ n d h. elim (g.optional n d h) [
        | inl (a, b) ↦ inl a
        | inr (v, w, a, k, b) ↦ inr (v, w, a, k)
      ];
      rules =
          sym (rules_same schema observation.fields signal.fields g)
          ∙ under_rules schema observation signal e;
    }

-- Under a registry of sound schemas, the transform makes a signal of an observation exactly if its
-- archetype has a schema, every required field was observed, each observed value of a declared field
-- can be generalized in its domain, and the declared fields observed obey the rules across fields.
pub transform_iff :
    (registry : SchemaRegistry) (observation : LocalObservation)
    → IsSoundRegistry registry
    → ((signal : TrainingSignal) × (transform registry observation ≡ ok signal)) ↔ (
        (schema : ArchetypeSchema) × (get_schema registry observation.archetype ≡ some schema)
        × IsReady schema observation.fields)
transform_iff registry observation s = (only, whenever)
  where
    sound :
        (schema : ArchetypeSchema)
        → get_schema registry observation.archetype ≡ some schema
        → IsSound schema
    sound schema k =
        (EachEntry-get (λ name schema. (schema.archetype ≡ name) × IsSound schema)
          observation.archetype schema registry.by_archetype s (unfold get_schema in k)).1

    only :
        ((signal : TrainingSignal) × (transform registry observation ≡ ok signal))
        → (schema : ArchetypeSchema) × (get_schema registry observation.archetype ≡ some schema)
          × IsReady schema observation.fields
    only (signal, e) = elim (Option-cases (get_schema registry observation.archetype)) [
      | inl z ↦ absurd (unfold transform in ground arith)
      | inr (schema, k) ↦ (
        schema,
        k,
        under-IsReady schema observation signal (sound schema k) (unfold transform in ground arith),
      )
    ]

    whenever :
        ((schema : ArchetypeSchema) × (get_schema registry observation.archetype ≡ some schema)
          × IsReady schema observation.fields)
        → (signal : TrainingSignal) × (transform registry observation ≡ ok signal)
    whenever (schema, k, r) =
        let (signal, e) = under_total schema observation (sound schema k) r in
        (signal, unfold transform in ground (arith, k, e))
