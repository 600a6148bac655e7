-- ===== src/Host/Envelope.antt =====
-- packages/aiai-contracts/src/envelope.ts: the closed envelopes as the host holds them, and the
-- readers of their members. A product's decoder is a function that may throw what it likes, here of
-- type `X`; `none` is `undefined`, the value of a member that is absent.
pub mod Decode
pub mod Records
pub mod Encode
pub mod Readers
pub mod RoundTrip
pub mod Turns
pub mod Closed
pub mod Carried
pub mod Reports
use artificial_intelligence.Base.{
  List, Option, Result, all, eqb, err, if◌then◌else◌, is_some, length, map_err, none, not, ok, some,
  suc, ℕ, ◌||◌,
}
use artificial_intelligence.Contracts.Identifier.{IdentifierKind}
use artificial_intelligence.Host.Text.{Units}
use artificial_intelligence.Host.Scalar.{ℤ, pos, is_decimal_u64, parse_decimal_u64}
use artificial_intelligence.Host.Version.{ContractVersion, parse_contract_version}
use artificial_intelligence.Host.Identifier.{is_identifier}
use artificial_intelligence.Host.Capability.{is_capability_name}
use artificial_intelligence.Host.Canonical.{
  CanonicalJsonValue, Elements, Entries, string, array, object, nil, element, end, entry,
}
use artificial_intelligence.Host.Error.{
  FoundationErrorValue, malformed_envelope, correlation_of, get,
}

-- What a decoder throws: a failure of the foundation, or the product's own.
pub data Thrown (X : Type 0) : Type 0 where
  foundation : FoundationErrorValue → Thrown X
  product : X → Thrown X

-- `PayloadDecoder` and `PayloadEncoder`
abbrev pub PayloadDecoder : Type 0 → Type 0 → Type 0
PayloadDecoder X T = CanonicalJsonValue → Result T X

abbrev pub PayloadEncoder : Type 0 → Type 0
PayloadEncoder T = T → CanonicalJsonValue

pub record WakeEnvelope (R : Type 0) : Type 0 where
  pub contract_version : ContractVersion
  pub operation_id : Units
  pub session_id : Units
  pub observed_at_unix_ms : ℤ
  pub reason : R

pub record ProposalEnvelope (P : Type 0) : Type 0 where
  pub contract_version : ContractVersion
  pub operation_id : Units
  pub proposal_id : Units
  pub sequence : ℤ
  pub requested_capability : Units
  pub proposal : P

pub record AdmissionEnvelope (A : Type 0) : Type 0 where
  pub contract_version : ContractVersion
  pub operation_id : Units
  pub proposal_id : Units
  pub sequence : ℤ
  pub granted_capability : Units
  pub action : A

pub record EffectRequestEnvelope (F : Type 0) : Type 0 where
  pub contract_version : ContractVersion
  pub operation_id : Units
  pub sequence : ℤ
  pub effect : F

pub record TurnOk (P F : Type 0) : Type 0 where
  pub contract_version : ContractVersion
  pub operation_id : Units
  pub session_revision : ℤ
  pub proposals : List (ProposalEnvelope P)
  pub effect_requests : List (EffectRequestEnvelope F)

pub data TurnOutcome (P F : Type 0) : Type 0 where
  turn_ok : TurnOk P F → TurnOutcome P F
  turn_error : FoundationErrorValue → TurnOutcome P F

pub record FailureRecord : Type 0 where
  pub contract_version : ContractVersion
  pub recorded_at_unix_ms : ℤ
  pub session_id : Option Units
  pub error : FoundationErrorValue

-- `Object.keys(source).length`
abbrev pub count_members : Entries → ℕ
count_members end = 0
count_members (entry name value entries) = suc (count_members entries)

module _ {X : Type 0} where
  -- `refuse`
  abbrev pub refuse {ℓ} : {A : Type ℓ} → CanonicalJsonValue → Result A (Thrown X)
  refuse source = err (foundation (malformed_envelope (correlation_of source)))

  -- `members`
  unfoldable pub members : CanonicalJsonValue → List Units → Result Entries (Thrown X)
  members (object fields) expected =
      if not (eqb (count_members fields) (length expected))
        || not (all (λ name. is_some (get fields name)) expected)
      then refuse (object fields)
      else ok fields
  members source expected = refuse source

  -- `readIdentifier`
  unfoldable pub read_identifier :
      CanonicalJsonValue → Option CanonicalJsonValue → IdentifierKind → Result Units (Thrown X)
  read_identifier source (some (string value)) kind =
      if not (is_identifier kind value) then refuse source else ok value
  read_identifier source _ kind = refuse source

  -- `readDecimal`; what `parseDecimalU64` throws, a `ContractViolation`, cannot arise behind
  -- `isDecimalU64`.
  unfoldable pub read_decimal : CanonicalJsonValue → Option CanonicalJsonValue → Result ℤ (Thrown X)
  read_decimal source (some (string value)) =
      if not (is_decimal_u64 value)
      then refuse source
      else elim (parse_decimal_u64 value) [ err _ ↦ refuse source | ok n ↦ ok (pos n) ]
  read_decimal source _ = refuse source

  -- `readCapability`
  unfoldable pub read_capability :
      CanonicalJsonValue → Option CanonicalJsonValue → Result Units (Thrown X)
  read_capability source (some (string value)) =
      if not (is_capability_name value) then refuse source else ok value
  read_capability source _ = refuse source

  -- `readVersion`
  unfoldable pub read_version :
      CanonicalJsonValue → Option CanonicalJsonValue → Result ContractVersion (Thrown X)
  read_version source (some (string value)) = elim (parse_contract_version value) [
    | err _ ↦ refuse source
    | ok version ↦ ok version
  ]
  read_version source _ = refuse source

  -- `readArray`
  unfoldable pub read_array :
      CanonicalJsonValue → Option CanonicalJsonValue → Result Elements (Thrown X)
  read_array source (some (array elements)) = ok elements
  read_array source _ = refuse source

  -- A product's decoder on a member, which `members` has found to be present.
  abbrev pub read_payload :
      {T : Type 0}
      → CanonicalJsonValue
      → Option CanonicalJsonValue
      → PayloadDecoder X T
      → Result T (Thrown X)
  read_payload source none decode = refuse source
  read_payload source (some value) decode = map_err product (decode value)
