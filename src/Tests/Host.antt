-- ===== src/Tests/Host.antt =====
-- Concrete texts and payloads of the TypeScript package, and the theorems on it at them.
use artificial_intelligence.Base.{
  ==_refl, [], arith, codes, err, false, is_ok, map_err, none, ok, refl, some, sym, true, ℕ, ◌↔◌,
  ◌∙◌, ◌∷◌, ◌≡◌, ◌⊎◌, bytes_ord,
}
use artificial_intelligence.Contracts.Version
use artificial_intelligence.Contracts.Version.{ContractVersion}
use artificial_intelligence.Contracts.Scalar
use artificial_intelligence.Contracts.Decimal.{is_noncanonical, parse_u64, read_digits}
use artificial_intelligence.Contracts.Capability
use artificial_intelligence.Contracts.Canonical
use artificial_intelligence.Contracts.Canonical.{Value, validate, is_nfc}
use artificial_intelligence.Contracts.Handshake
use artificial_intelligence.Host.Text.{Units, CodePoints, utf8, utf16}
use artificial_intelligence.Host.Scalar.{parse_decimal_u64, big_digits}
use artificial_intelligence.Host.Scalar.Mirror.{parse_decimal_u64-mirrors}
use artificial_intelligence.Host.Capability.{parse_capability_name, is_capability_name}
use artificial_intelligence.Host.Capability.Mirror.{parse_capability_name-mirrors}
use artificial_intelligence.Host.Identifier.{is_identifier}
use artificial_intelligence.Host.Version.{
  parse_contract_version, parse_components, require_compatible_contract, refuse,
}
use artificial_intelligence.Host.Version.Mirror.{twin, IsSafe, parse_contract_version-mirrors}
use artificial_intelligence.Host.Version.Handshake.{host_version, told, op_str, handshake_mirrors}
use artificial_intelligence.Host.Canonical.{
  CanonicalJsonValue, Entries, null, string, array, object, nil, element, end, entry, accept,
}
use artificial_intelligence.Host.Canonical.Write.{encode_canonical_json}
use artificial_intelligence.Host.Canonical.Encodable.{IsText, encode-accept}
use artificial_intelligence.Host.Canonical.Order.{
  SameValue, itself, arrays, objects, no_elements, elements, swapped, encode-SameValue,
}
use artificial_intelligence.Host.Canonical.Mirror.{encoded, reason, verdict}
use artificial_intelligence.Host.Canonical.Reordered
use artificial_intelligence.Host.Canonical.Reordered.{accept-mirrors}
use artificial_intelligence.Host.Error.{FoundationErrorValue, no_details}
use artificial_intelligence.Host.Error.Decode.{decode_foundation_error, encode_foundation_error}
use artificial_intelligence.Host.Error.Laws.{IsFailure, decode-encode_foundation_error}
use artificial_intelligence.Host.Error.Closed.{Decodes, decode_foundation_error_lem}

-- A letter outside ASCII, of two bytes and one code unit, and one outside the basic plane.
abbrev accented : CodePoints
accented = 0xE9 ∷ codes "7"

two_bytes : utf8 accented ≡ 0xC3 ∷ 0xA9 ∷ b'7' ∷ []
unfolding utf8
two_bytes = refl

surrogates : utf16 (0x1F600 ∷ []) ≡ 0xD83D ∷ 0xDE00 ∷ []
unfolding utf16
surrogates = refl

parse_decimal_u64-mirrors_example :
    (parse_decimal_u64 (utf16 (codes "1801")) ≡ ok 1801)
    ↔ (Scalar.from_str (utf8 (codes "1801")) ≡ ok 1801)
parse_decimal_u64-mirrors_example = parse_decimal_u64-mirrors (codes "1801") 1801

parse_capability_name-mirrors_example :
    (parse_capability_name (utf16 (codes "deliver_asset")) ≡ ok (codes "deliver_asset")) ↔ (
      (n : Capability.CapabilityName) × (Capability.try_from (utf8 (codes "deliver_asset")) ≡ ok n)
      × (n.as_str ≡ codes "deliver_asset"))
parse_capability_name-mirrors_example =
    parse_capability_name-mirrors (codes "deliver_asset") (codes "deliver_asset")

abbrev an_operation : Units
an_operation = codes "op_0123456789abcdef0123456789abcdef"

-- 2^53, one more than the largest safe integer.
abbrev unsafe_text : CodePoints
unsafe_text = codes "0.9007199254740992.0"

host_refuses : is_ok (parse_contract_version (utf16 unsafe_text)) ≡ false
unfolding parse_contract_version utf16 Version.split parse_components big_digits
host_refuses = refl

crate_accepts : is_ok (Version.from_str (utf8 unsafe_text)) ≡ true
unfolding utf8 Version.from_str Version.split Version.parse_component is_noncanonical parse_u64
    read_digits
crate_accepts = refl

parse_contract_version-mirrors_example :
    (parse_contract_version (utf16 (codes "1.4.2"))
      ≡ ok (host_version (record { major = 1; minor = 4; patch = 2 })))
    ↔ ((Version.from_str (utf8 (codes "1.4.2"))
          ≡ ok (twin (host_version (record { major = 1; minor = 4; patch = 2 }))))
        × IsSafe (host_version (record { major = 1; minor = 4; patch = 2 })))
parse_contract_version-mirrors_example =
    parse_contract_version-mirrors (codes "1.4.2")
      (host_version (record { major = 1; minor = 4; patch = 2 }))

handshake_mirrors_example :
    (require_compatible_contract (utf16 (codes "0.3.0")) (op_str none)
      ≡ told (Handshake.require_compatible_contract (utf8 (codes "0.3.0")) none))
    ⊎ ((v : ContractVersion) × (Version.from_str (utf8 (codes "0.3.0")) ≡ ok v)
        × (¬ IsSafe (host_version v))
        × (require_compatible_contract (utf16 (codes "0.3.0")) (op_str none)
            ≡ err (refuse (op_str none) none)))
handshake_mirrors_example = handshake_mirrors (codes "0.3.0") none

-- A normalization that leaves every text alone, and a value with a number behind a text.
abbrev mixed : Value ℕ
mixed = Canonical.array (
    Canonical.element (Canonical.string accented)
      (Canonical.element (Canonical.number 7) Canonical.nil))

same_text : (t : CodePoints) → is_nfc (λ s. s) (utf8 t) ≡ is_nfc (λ s. s) (utf16 t)
same_text t = ==_refl (utf8 t) ∙ sym (==_refl (utf16 t))

-- An object with a number and a text that is not ASCII under its name, in two orders.
abbrev given_order : Value ℕ
given_order =
    Canonical.object
      (Canonical.member (codes "b") mixed (Canonical.member accented Canonical.null Canonical.end))

abbrev other_order : Value ℕ
other_order =
    Canonical.object
      (Canonical.member accented Canonical.null (Canonical.member (codes "b") mixed Canonical.end))

accept-mirrors_example :
    (is_ok (accept (λ s. s) (encoded utf16 given_order))
      ≡ is_ok (validate {E = Unit {0}} (λ s. s) (encoded utf8 other_order)))
    × (verdict (accept (λ s. s) (encoded utf16 given_order))
        ≡ map_err reason (validate {E = Unit {0}} (λ s. s) (encoded utf8 given_order)))
accept-mirrors_example =
    accept-mirrors ℕ (Unit {0}) (λ s. s) (λ s. s) (λ t. same_text t) given_order other_order
      (Reordered.objects
        (Reordered.swapped (codes "b") accented mixed Canonical.null Canonical.end))

-- Two orders of the members of an inner object, behind a list.
abbrev listed : Entries → CanonicalJsonValue
listed entries = array (element (string (codes "a")) (element (object entries) nil))

abbrev first_order : CanonicalJsonValue
first_order = listed (entry (codes "b") null (entry (codes "a") null end))

abbrev second_order : CanonicalJsonValue
second_order = listed (entry (codes "a") null (entry (codes "b") null end))

first_order-SameValue : SameValue first_order second_order
first_order-SameValue = arrays (
    elements (itself _) (
      elements (objects (swapped (codes "b") (codes "a") null null end (λ e. ground arith)))
        no_elements))

encode-SameValue_example :
    encode_canonical_json (λ s. s) (λ s. s) first_order
    ≡ encode_canonical_json (λ s. s) (λ s. s) second_order
encode-SameValue_example =
    encode-SameValue (λ s. s) (λ s. s) first_order second_order first_order-SameValue

-- A payload that is accepted.
abbrev accepted_payload : Value ℕ
accepted_payload =
    Canonical.object (Canonical.member (codes "code") (Canonical.string accented) Canonical.end)

encode-accept_example :
    IsText (
      encode_canonical_json (λ s. s) (λ s. s) (object (entry (codes "code") (string accented) end)))
encode-accept_example = encode-accept (λ s. s) (λ s. s) accepted_payload _ (unfold accept in refl)

abbrev withheld : FoundationErrorValue
withheld = record {
  code = codes "authority_withheld";
  operation_id = some an_operation;
  details = some (record no_details { requested_capability = some (codes "message") });
}

withheld-IsFailure : IsFailure withheld
unfolding is_identifier is_capability_name
withheld-IsFailure = record {
  code = refl;
  operation_id = refl;
  details = record {
    port = tt;
    variant_kind = tt;
    bound_subject_id = tt;
    attempted_subject_id = tt;
    proposal_id = tt;
    requested_capability = refl;
    schema_violation = tt;
  };
}

decode-encode_foundation_error_example :
    decode_foundation_error (encode_foundation_error withheld) ≡ ok withheld
decode-encode_foundation_error_example = decode-encode_foundation_error withheld withheld-IsFailure

-- A code that is not in the vocabulary, under an operation.
abbrev stranger : CanonicalJsonValue
stranger = object (
    entry (codes "operation_id") (string an_operation)
      (entry (codes "code") (string (codes "gone")) end))

decode_foundation_error_lem_example : Decodes stranger (decode_foundation_error stranger)
decode_foundation_error_lem_example = decode_foundation_error_lem stranger
