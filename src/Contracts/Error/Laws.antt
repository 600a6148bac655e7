-- ===== src/Contracts/Error/Laws.antt =====
-- The wire tokens of the codes and violations.
use artificial_intelligence.Base.{
  Bytes, List, Option, [], ap, if◌then◌else◌, none, refl, some, ◌==◌, ◌∷◌, ◌≡◌, bytes_ord,
}
use artificial_intelligence.Contracts.Error.{ErrorCode, SchemaViolation, code_str, violation_str}

-- The first value whose token is the text.
find_token {ℓ} : {A : Type ℓ} → (A → Bytes) → Bytes → List A → Option A
find_token f s [] = none
find_token f s (x ∷ xs) = let rest = find_token f s xs in if f x == s then some x else rest

abbrev error_codes : List ErrorCode
error_codes =
    ErrorCode.malformed_envelope ∷ ErrorCode.unsupported_contract_version
    ∷ ErrorCode.unknown_variant ∷ ErrorCode.missing_context ∷ ErrorCode.runtime_inactive
    ∷ ErrorCode.inference_unavailable ∷ ErrorCode.subject_continuity_violation
    ∷ ErrorCode.unknown_proposal ∷ ErrorCode.duplicate_proposal_id ∷ ErrorCode.authority_withheld
    ∷ ErrorCode.authority_scope_exceeded ∷ ErrorCode.sequence_exhausted
    ∷ ErrorCode.signal_schema_violation ∷ []

find_token-code_str : (c : ErrorCode) → find_token code_str (code_str c) error_codes ≡ some c
unfolding find_token code_str
find_token-code_str ErrorCode.malformed_envelope = refl
find_token-code_str _ = refl

-- No two error codes share a wire token.
pub code_str-injective : (a b : ErrorCode) → code_str a ≡ code_str b → a ≡ b
code_str-injective a b e =
    cc (find_token-code_str a, find_token-code_str b, ap (λ s. find_token code_str s error_codes) e)

abbrev schema_violations : List SchemaViolation
schema_violations =
    SchemaViolation.unknown_archetype ∷ SchemaViolation.unknown_field
    ∷ SchemaViolation.missing_field ∷ SchemaViolation.value_out_of_domain
    ∷ SchemaViolation.excess_precision ∷ SchemaViolation.excess_cardinality
    ∷ SchemaViolation.non_canonical_encoding ∷ SchemaViolation.invalid_field_combination
    ∷ SchemaViolation.schema_version_mismatch ∷ []

find_token-violation_str :
    (v : SchemaViolation) → find_token violation_str (violation_str v) schema_violations ≡ some v
unfolding find_token violation_str
find_token-violation_str SchemaViolation.unknown_archetype = refl
find_token-violation_str _ = refl

-- No two schema violations share a wire token.
pub violation_str-injective : (a b : SchemaViolation) → violation_str a ≡ violation_str b → a ≡ b
violation_str-injective a b e = cc (
  find_token-violation_str a,
  find_token-violation_str b,
  ap (λ s. find_token violation_str s schema_violations) e,
)
