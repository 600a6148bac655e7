-- ===== src/Tests/Wire.antt =====
-- The theorems on texts and on canonical JSON, applied to a format that marks a text by a sign.
use artificial_intelligence.Base.{
  All, Bytes, Result, [], arith, codes, eqb, err, if◌then◌else◌, ok, refl, ℕ, ◌↔◌, ◌∷◌, ◌≡◌,
}
use artificial_intelligence.Contracts.Scalar
use artificial_intelligence.Contracts.Scalar.{DecimalU64, IsU64, from_str_iff}
use artificial_intelligence.Contracts.Version
use artificial_intelligence.Contracts.Version.{ContractVersion}
use artificial_intelligence.Contracts.Version.RoundTrip.{IsInRange}
use artificial_intelligence.Contracts.Names.Shape.{IsName}
use artificial_intelligence.Contracts.Capability.{CapabilityName, capability_name_max_len}
use artificial_intelligence.Contracts.Identifier.{Identifier, IdentifierKind}
use artificial_intelligence.Contracts.Wire.Exact.{deserialize_exact}
use artificial_intelligence.Contracts.Decimal.{print_u64, print_digits}
use artificial_intelligence.Contracts.Canonical.{
  Value, string, number, array, object, nil, element, end, member, CanonicalJsonError, number_token,
  validate, canonical_json,
}
use artificial_intelligence.Contracts.Canonical.Parts.{parts, IsPlain}
use artificial_intelligence.Contracts.Canonical.Laws.{canonical_json_iff}
use artificial_intelligence.Contracts.Wire.{Serializer, Deserializer, serialize, deserialize}
use artificial_intelligence.Contracts.Wire.Laws.{deserialize-serialize, canonical_json-text}
use artificial_intelligence.Contracts.Wire.Texts.{
  IsIdentifier, capability_text, decimal_exact, decimal_text, identifier_text, version_text,
}

abbrev mark : Bytes → Bytes
mark text = b'$' ∷ text

abbrev unmark : Bytes → Result Bytes Bytes
unmark [] = err (codes "end of input")
unmark (b ∷ text) = if eqb b b'$' then ok text else err (codes "expected a string")

instance abbrev marking : Serializer (Unit {0}) Bytes Bytes
marking = record { serialize_str = λ s text. ok (mark text) }

instance abbrev unmarking : Deserializer Bytes Bytes
unmarking = record { string = unmark; custom = λ message. message }

unmark-mark :
    (s : Unit {0}) (text o : Bytes)
    → marking.serialize_str s text ≡ ok o
    → unmarking.string o ≡ ok text
unmark-mark s text o h = ground arith

serialize-forty_two : serialize ⦃ser = marking⦄ decimal_exact.text 42 tt ≡ ok (codes "$42")
unfolding serialize Scalar.to_string print_u64 print_digits
serialize-forty_two = refl

deserialize-serialize_example :
    deserialize ⦃de = unmarking⦄ decimal_exact.text (codes "$42") ≡ ok 42
deserialize-serialize_example =
    deserialize-serialize decimal_exact (λ o. o) unmark-mark 42 tt (codes "$42") (omega arith)
      serialize-forty_two

-- The text of the number forty-two, read as each of the four types.
deserialize_exact_example :
    ((n : DecimalU64)
      → (deserialize ⦃de = unmarking⦄ decimal_text (codes "$42") ≡ ok n)
        ↔ ((unmarking.string (codes "$42") ≡ ok (Scalar.to_string n)) × IsU64 n))
    × ((v : ContractVersion)
        → (deserialize ⦃de = unmarking⦄ version_text (codes "$42") ≡ ok v)
          ↔ ((unmarking.string (codes "$42") ≡ ok (Version.to_string v)) × IsInRange v))
    × ((n : CapabilityName)
        → (deserialize ⦃de = unmarking⦄ capability_text (codes "$42") ≡ ok n) ↔ (
            (unmarking.string (codes "$42") ≡ ok n.as_str)
            × IsName capability_name_max_len n.as_str))
    × ((kind : IdentifierKind) (i : Identifier kind)
        → (deserialize ⦃de = unmarking⦄ (identifier_text kind) (codes "$42") ≡ ok i)
          ↔ ((unmarking.string (codes "$42") ≡ ok i.as_str) × IsIdentifier kind i.as_str))
deserialize_exact_example = deserialize_exact ⦃de = unmarking⦄ (codes "$42")

-- The JSON form of a counter, and a printer of JSON texts alone.
abbrev form : ℕ → Result (Value ℕ) Bytes
form n = ok (string (Scalar.to_string n))

abbrev printed : Value ℕ → Result Bytes Bytes
printed (string text) = ok (mark text)
printed v = err (codes "not a text")

printed-forty_two : printed (string (Scalar.to_string 42)) ≡ ok (codes "$42")
unfolding Scalar.to_string print_u64 print_digits
printed-forty_two = refl

canonical_json_iff_example :
    (v : Value ℕ) × (form 42 ≡ ok v)
    × All (IsPlain (λ text. text)) (parts v)
    × (printed v ≡ ok (codes "$42"))
canonical_json_iff_example = (canonical_json_iff (λ text. text) form printed 42 (codes "$42")).0 (
    canonical_json-text decimal_exact (λ text. text) (λ s h. refl) form printed 42 (codes "$42")
      refl printed-forty_two (omega arith))

abbrev given : Value ℕ → Result (Value ℕ) Bytes
given v = ok v

-- An object inside an array, whose one member has a number.
abbrev numbered : Value ℕ
numbered = array (element (object (member (codes "n") (number 7) end)) nil)

abbrev rejected_number : CanonicalJsonError Bytes
rejected_number = number_token

canonical_json-numbered : canonical_json (λ text. text) given printed numbered ≡ err rejected_number
unfolding canonical_json validate
canonical_json-numbered = refl
