-- ===== src/Signal/Transform/Soundness.antt =====
-- Schemas whose declarations are coherent, and the domains that they offer for their fields.
use artificial_intelligence.Base.{arith, none, some, ◌≡◌}
use artificial_intelligence.BTree.{get}
use artificial_intelligence.BTree.Sorted.{IsSorted}
use artificial_intelligence.BTree.Entries.{
  EachEntry, EachEntry-map, EachEntry-zip, IsSorted-EachEntry,
}
use artificial_intelligence.Signal.Token.{Token, token_ord}
use artificial_intelligence.Signal.Domain.{FieldDomain}
use artificial_intelligence.Signal.Domain.Laws.{IsWellFormed}
use artificial_intelligence.Signal.Schema.{ArchetypeSchema, domain, SchemaRegistry}

-- A schema whose maps are in key order, whose domains are well formed, and none of whose optional
-- fields is required too.
pub record IsSound (schema : ArchetypeSchema) : Type 0 where
  pub required_sorted : IsSorted schema.required_fields
  pub optional_sorted : IsSorted schema.optional_fields
  pub required_domains : EachEntry (λ name d. IsWellFormed d) schema.required_fields
  pub optional_domains :
      EachEntry
        (λ name d. IsWellFormed d × (get name schema.required_fields ≡ none))
        schema.optional_fields

-- A registry of sound schemas, each under its own archetype.
abbrev pub IsSoundRegistry : SchemaRegistry → Type 0
IsSoundRegistry registry =
    EachEntry (λ name schema. (schema.archetype ≡ name) × IsSound schema) registry.by_archetype

-- A field with a well-formed domain that the schema declares for it.
abbrev pub IsOffered : ArchetypeSchema → Token → FieldDomain → Type 0
IsOffered schema name d = IsWellFormed d × (domain schema name ≡ some d)

pub required-IsOffered :
    (schema : ArchetypeSchema)
    → IsSound schema
    → EachEntry (IsOffered schema) schema.required_fields
unfolding domain
required-IsOffered schema s =
    EachEntry-map (λ name d. IsWellFormed d × (get name schema.required_fields ≡ some d))
      (IsOffered schema) (λ name d h. (h.0, ground (arith, h.1))) schema.required_fields
      (EachEntry-zip (λ name d. IsWellFormed d) (λ name d. get name schema.required_fields ≡ some d)
        schema.required_fields s.required_domains
        (IsSorted-EachEntry schema.required_fields s.required_sorted))

pub optional-IsOffered :
    (schema : ArchetypeSchema)
    → IsSound schema
    → EachEntry (IsOffered schema) schema.optional_fields
unfolding domain
optional-IsOffered schema s =
    EachEntry-map
      (λ name d.
        (IsWellFormed d × (get name schema.required_fields ≡ none))
        × (get name schema.optional_fields ≡ some d))
      (IsOffered schema) (λ name d h. ((h.0).0, ground (arith, (h.0).1, h.1)))
      schema.optional_fields
      (EachEntry-zip (λ name d. IsWellFormed d × (get name schema.required_fields ≡ none))
        (λ name d. get name schema.optional_fields ≡ some d) schema.optional_fields
        s.optional_domains (IsSorted-EachEntry schema.optional_fields s.optional_sorted))
