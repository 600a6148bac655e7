-- ===== src/Tests/Forgetting.antt =====
-- Two observations that differ in a field no schema declares.
use artificial_intelligence.Base.{
  Bool-cases, [], ap, arith, codes, eq_of_==, inl, inr, none, refl, some, subst, ◌==◌, ◌∷◌, ◌≡◌,
  bytes_ord,
}
use artificial_intelligence.BTree.{get}
use artificial_intelligence.Signal.Token.{token_ord}
use artificial_intelligence.Signal.Domain.{SignalValue}
use artificial_intelligence.Signal.Schema.{ArchetypeSchema, domain, get_schema, LocalObservation}
use artificial_intelligence.Signal.Transform.{transform}
use artificial_intelligence.Signal.Transform.Forgetting.{AgreeOn, transform_forgets}
use artificial_intelligence.Tests.Signal.{
  named, rest_stop, one_archetype, observation, observed_dwell, one_archetype-IsSoundRegistry,
}

abbrev elsewhere : LocalObservation
elsewhere = record {
  archetype = named (codes "rest_stop");
  fields =
      (named (codes "dwell"), observed_dwell)
      ∷ (named (codes "visits"), SignalValue.measure 8)
      ∷ (named (codes "where"), SignalValue.measure 77)
      ∷ [];
}

domain-where : domain rest_stop (named (codes "where")) ≡ none
unfolding domain get
domain-where = refl

rest_stop-AgreeOn : AgreeOn rest_stop observation elsewhere
unfolding get
rest_stop-AgreeOn n d h = elim (Bool-cases (named (codes "where") == n)) [
  | inl same ↦
      let here = eq_of_== (named (codes "where")) n same in
      absurd (ground (arith, domain-where, ap (domain rest_stop) here))
  | inr other ↦ ground arith
]

schema-AgreeOn :
    (schema : ArchetypeSchema)
    → get_schema one_archetype observation.archetype ≡ some schema
    → AgreeOn schema observation elsewhere
unfolding get_schema get
schema-AgreeOn schema h =
    let one : rest_stop ≡ schema = ground arith in
    subst (λ x. AgreeOn x observation elsewhere) one rest_stop-AgreeOn

transform_forgets_example : transform one_archetype observation ≡ transform one_archetype elsewhere
transform_forgets_example =
    transform_forgets one_archetype observation elsewhere one_archetype-IsSoundRegistry refl
      schema-AgreeOn
