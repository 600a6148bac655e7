-- ===== src/Host/Envelope/Closed.antt =====
-- What the readers of envelope.ts take, and what they throw at the rest.
use artificial_intelligence.Base.{
  Bool, Bool-cases, List, Option, Result, Result-cases, all, ap, arith, codes, eqb, err, false, inl,
  inr, is_some, length, none, not, ok, refl, some, sym, true, ℕ, ◌>>=◌, ◌||◌, ◌≡◌,
}
use artificial_intelligence.Contracts.Identifier.{IdentifierKind}
use artificial_intelligence.Contracts.Scalar
use artificial_intelligence.Contracts.Version
use artificial_intelligence.Contracts.Version.RoundTrip.{from_str-version_iff}
use artificial_intelligence.Contracts.Scalar.{from_str_iff}
use artificial_intelligence.Host.Text.{Units}
use artificial_intelligence.Host.Scalar.{pos, parse_decimal_u64, is_decimal_u64}
use artificial_intelligence.Host.Scalar.Mirror.{parse_decimal_u64-from_str}
use artificial_intelligence.Host.Identifier.{is_identifier}
use artificial_intelligence.Host.Capability.{is_capability_name}
use artificial_intelligence.Host.Version.{
  ContractVersion, parse_contract_version, format_contract_version,
}
use artificial_intelligence.Host.Version.Mirror.{twin, IsSafe, parse_contract_version-from_str}
use artificial_intelligence.Host.Canonical.{
  CanonicalJsonValue, Entries, null, string, array, object,
}
use artificial_intelligence.Host.Error.{FoundationErrorValue, get}
use artificial_intelligence.Host.Error.Decode.{decode_foundation_error}
use artificial_intelligence.Host.Error.Laws.{IsFailure}
use artificial_intelligence.Host.Error.Closed.{decode_foundation_error_lem}
use artificial_intelligence.Host.Envelope.{
  Thrown, foundation, product, PayloadDecoder, members, read_identifier, read_decimal,
  read_capability, read_version, read_array, read_payload, count_members,
}
use artificial_intelligence.Host.Envelope.Decode.{decode_error}
use artificial_intelligence.Host.Envelope.Readers.{IsCounter, counter_str}

module _ {A X : Type 0} where
  -- A result has the property; or what is thrown is a malformed envelope, or the product's own.
  pub data Closes (P : A → Type 0) : Result A (Thrown X) → Type 0 where
    closes : {a : A} → P a → Closes P (ok a)
    malformed :
        {f : FoundationErrorValue}
        → f.code ≡ codes "malformed_envelope"
        → Closes P (err (foundation f))
    own : {x : X} → Closes P (err (product x))

pub Closes-bind :
    {A B X : Type 0} {P : A → Type 0} {Q : B → Type 0} {m : Result A (Thrown X)}
    {f : A → Result B (Thrown X)}
    → Closes P m
    → ((a : A) → P a → Closes Q (f a))
    → Closes Q (m >>= f)
Closes-bind (closes h) k = k _ h
Closes-bind (malformed h) k = malformed h
Closes-bind own k = own

-- An object with as many members as are expected.
abbrev pub IsClosed : CanonicalJsonValue → List Units → Entries → Type 0
IsClosed source expected fields =
    (source ≡ object fields) × (count_members fields ≡ length expected)

-- A member stands for the payload of a product, by its decoder.
abbrev pub IsPayload : {X T : Type 0} → PayloadDecoder X T → Option CanonicalJsonValue → T → Type 0
IsPayload decode o payload =
    (value : CanonicalJsonValue) × (o ≡ some value) × (decode value ≡ ok payload)

-- A version is read from its canonical print alone.
format-parse_contract_version :
    (s : Units) (v : ContractVersion)
    → parse_contract_version s ≡ ok v
    → IsSafe v × (format_contract_version v ≡ s)
unfolding format_contract_version Version.to_string
format-parse_contract_version s v h =
    let (accepted, safe) = (parse_contract_version-from_str s v).0 h in
    (safe, ((from_str-version_iff s (twin v)).0 accepted).0)

-- A counter is read from its decimal numeral alone.
print-parse_decimal_u64 :
    (s : Units) (n : ℕ) → parse_decimal_u64 s ≡ ok n → IsCounter (pos n) × (counter_str (pos n) ≡ s)
unfolding Scalar.to_string
print-parse_decimal_u64 s n h =
    let (print, fits) = (from_str_iff s n).0 ((parse_decimal_u64-from_str s n).0 h) in (fits, print)

module _ {X : Type 0} where
  pub members-Closes :
      (source : CanonicalJsonValue) (expected : List Units)
      → Closes (IsClosed source expected) (members {X = X} source expected)
  unfolding members
  members-Closes (object fields) expected = elim (Bool-cases (fails fields expected)) [
    | inl e ↦ rw e (malformed refl)
    | inr e ↦ rw e (closes (refl, counted fields expected e))
  ]
    where
      fails : Entries → List Units → Bool
      fails entries names =
          not (eqb (count_members entries) (length names))
          || not (all (λ name. is_some (get entries name)) names)

      counted :
          (entries : Entries) (names : List Units)
          → fails entries names ≡ false
          → count_members entries ≡ length names
      counted entries names e = ground arith
  members-Closes null expected = malformed refl
  members-Closes _ expected = malformed refl

  pub read_identifier-Closes :
      (source : CanonicalJsonValue) (o : Option CanonicalJsonValue) (kind : IdentifierKind)
      → Closes
          (λ s. (is_identifier kind s ≡ true) × (o ≡ some (string s)))
          (read_identifier {X = X} source o kind)
  unfolding read_identifier
  read_identifier-Closes source none kind = malformed refl
  read_identifier-Closes source (some (string s)) kind = elim (Bool-cases (is_identifier kind s)) [
    | inl e ↦ rw e (closes (e, refl))
    | inr e ↦ rw e (malformed refl)
  ]
  read_identifier-Closes source (some null) kind = malformed refl
  read_identifier-Closes source (some _) kind = malformed refl

  pub read_capability-Closes :
      (source : CanonicalJsonValue) (o : Option CanonicalJsonValue)
      → Closes
          (λ s. (is_capability_name s ≡ true) × (o ≡ some (string s)))
          (read_capability {X = X} source o)
  unfolding read_capability
  read_capability-Closes source none = malformed refl
  read_capability-Closes source (some (string s)) = elim (Bool-cases (is_capability_name s)) [
    | inl e ↦ rw e (closes (e, refl))
    | inr e ↦ rw e (malformed refl)
  ]
  read_capability-Closes source (some null) = malformed refl
  read_capability-Closes source (some _) = malformed refl

  pub read_array-Closes :
      (source : CanonicalJsonValue) (o : Option CanonicalJsonValue)
      → Closes (λ es. o ≡ some (array es)) (read_array {X = X} source o)
  unfolding read_array
  read_array-Closes source none = malformed refl
  read_array-Closes source (some (array es)) = closes refl
  read_array-Closes source (some null) = malformed refl
  read_array-Closes source (some _) = malformed refl

  pub read_payload-Closes :
      {T : Type 0} (source : CanonicalJsonValue) (o : Option CanonicalJsonValue)
      (decode : PayloadDecoder X T)
      → Closes (IsPayload decode o) (read_payload source o decode)
  read_payload-Closes source none decode = malformed refl
  read_payload-Closes source (some v) decode = elim (Result-cases (decode v)) [
    | inl (a, e) ↦ rw e (closes (v, refl, e))
    | inr (x, e) ↦ rw e own
  ]

  pub read_version-Closes :
      (source : CanonicalJsonValue) (o : Option CanonicalJsonValue)
      → Closes
          (λ v. IsSafe v × (o ≡ some (string (format_contract_version v))))
          (read_version {X = X} source o)
  unfolding read_version
  read_version-Closes source none = malformed refl
  read_version-Closes source (some (string s)) = elim (Result-cases (parse_contract_version s)) [
    | inl (v, e) ↦
        let (safe, print) = format-parse_contract_version s v e in
        rw (e, read_version) (closes (safe, ap (λ (t : Units). some (string t)) (sym print)))
    | inr (x, e) ↦ rw (e, read_version) (malformed refl)
  ]
  read_version-Closes source (some null) = malformed refl
  read_version-Closes source (some _) = malformed refl

  pub read_decimal-Closes :
      (source : CanonicalJsonValue) (o : Option CanonicalJsonValue)
      → Closes
          (λ z. IsCounter z × (o ≡ some (string (counter_str z))))
          (read_decimal {X = X} source o)
  unfolding read_decimal
  read_decimal-Closes source none = malformed refl
  read_decimal-Closes source (some (string s)) = elim (Bool-cases (is_decimal_u64 s)) [
    | inr e ↦ rw e (malformed refl)
    | inl e ↦ elim (Result-cases (parse_decimal_u64 s)) [
      | inl (n, f) ↦
          let (fits, print) = print-parse_decimal_u64 s n f in
          rw (e, f, read_decimal) (closes (fits, ap (λ (t : Units). some (string t)) (sym print)))
      | inr (x, f) ↦ rw (e, f, read_decimal) (malformed refl)
    ]
  ]
  read_decimal-Closes source (some null) = malformed refl
  read_decimal-Closes source (some _) = malformed refl

  pub decode_error-Closes :
      (v : CanonicalJsonValue)
      → Closes (λ f. IsFailure f × (decode_foundation_error v ≡ ok f)) (decode_error {X = X} v)
  decode_error-Closes v =
      let outcome = decode_foundation_error_lem v in
      elim (Result-cases (decode_foundation_error v)) [
        | inl (f, e) ↦ rw e (closes ((rw e at outcome).0, refl))
        | inr (f, e) ↦
            rw e (malformed (ap (λ (g : FoundationErrorValue). g.code) (rw e at outcome)))
      ]
