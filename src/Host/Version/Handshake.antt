-- ===== src/Host/Version/Handshake.antt =====
-- `requireCompatibleContract` of version.ts beside `require_compatible_contract` of
-- crates/aiai-contracts/src/lib.rs.
use mathlib.Core.Option
use artificial_intelligence.Base.{
  Bool, Bool-cases, Bytes, Option, Result, Result-cases, ap, arith, err, false, if◌then◌else◌, inl,
  inr, leb, none, not, ok, refl, some, sym, ◌&&◌, ◌∙◌, ◌≡◌, ◌⊎◌,
}
use artificial_intelligence.Contracts.Version
use artificial_intelligence.Contracts.Version.{VersionError}
use artificial_intelligence.Contracts.Handshake
use artificial_intelligence.Contracts.Handshake.{require_compatible_contract_iff}
use artificial_intelligence.Contracts.Identifier.{OperationId}
use artificial_intelligence.Contracts.Error.Failures.{unsupported_contract_version}
use artificial_intelligence.Contracts.Error.{FoundationError, code_str}
use artificial_intelligence.Host.Text.{Units, CodePoints, utf8, utf16}
use artificial_intelligence.Host.Error.{FoundationErrorValue}
use artificial_intelligence.Host.Error.Mirror.{error_str}
use artificial_intelligence.Host.Version.{
  ContractVersion, max_safe_integer, parse_contract_version, format_contract_version,
  current_contract_version, accepts_provider, refuse, require_compatible_contract,
}
use artificial_intelligence.Host.Version.Mirror.{twin, IsSafe, parse_contract_version-mirrors}

-- The host's version with the components of a version of the crate.
abbrev pub host_version : Version.ContractVersion → ContractVersion
host_version v = record { major = v.major; minor = v.minor; patch = v.patch }

-- The answer of the crate, told in the host's values.
abbrev pub told :
    Result Version.ContractVersion FoundationError → Result ContractVersion FoundationErrorValue
told (ok v) = ok (host_version v)
told (err e) = err (error_str e)

-- The operation identifier as the host holds it.
abbrev pub op_str : Option OperationId → Option Units
op_str op = Option.map (λ i. i.as_str) op

refuse_unread :
    (s : Units) (op : Option Units)
    → ((v : ContractVersion) → ¬ (parse_contract_version s ≡ ok v))
    → require_compatible_contract s op ≡ err (refuse op none)
unfolding require_compatible_contract
refuse_unread s op unread = elim (Result-cases (parse_contract_version s)) [
  | inl (v, e) ↦ absurd (unread v e)
  | inr (x, e) ↦ ground arith
]

rust_unread :
    (s : Bytes) (op : Option OperationId) (e : VersionError)
    → Version.from_str s ≡ err e
    → Handshake.require_compatible_contract s op
      ≡ err (unsupported_contract_version op none Handshake.contract_version)
unfolding Handshake.require_compatible_contract
rust_unread s op e h = ground arith

agree_unread :
    (s : Bytes) (op : Option OperationId) (e : VersionError)
    → Version.from_str s ≡ err e
    → told (Handshake.require_compatible_contract s op) ≡ err (refuse (op_str op) none)
unfolding code_str
agree_unread s op e h = ap told (rust_unread s op e h)

-- What both sides answer to a version that was read.
rust_answer :
    Option OperationId → Version.ContractVersion → Result Version.ContractVersion FoundationError
rust_answer op v =
    if Version.accepts_provider v Version.current
    then ok v
    else err
        (unsupported_contract_version op (some (Version.to_string v)) Handshake.contract_version)

rust_read :
    (s : Bytes) (op : Option OperationId) (v : Version.ContractVersion)
    → Version.from_str s ≡ ok v
    → Handshake.require_compatible_contract s op ≡ rust_answer op v
unfolding Handshake.require_compatible_contract rust_answer
rust_read s op v h = ground arith

host_answer : Option Units → ContractVersion → Result ContractVersion FoundationErrorValue
host_answer op v =
    if not (accepts_provider v current_contract_version)
    then err (refuse op (some (format_contract_version v)))
    else ok v

host_read :
    (s : Units) (op : Option Units) (v : ContractVersion)
    → parse_contract_version s ≡ ok v
    → require_compatible_contract s op ≡ host_answer op v
unfolding require_compatible_contract host_answer
host_read s op v h = ground arith

same_test :
    (v : Version.ContractVersion)
    → accepts_provider (host_version v) current_contract_version
      ≡ Version.accepts_provider v Version.current
unfolding accepts_provider Version.accepts_provider
same_test v = refl

same_answer :
    (op : Option OperationId) (v : Version.ContractVersion)
    → host_answer (op_str op) (host_version v) ≡ told (rust_answer op v)
unfolding host_answer rust_answer format_contract_version Version.to_string code_str
same_answer op v = elim (Bool-cases (Version.accepts_provider v Version.current)) [
  | inl e ↦ rw same_test (rw e refl)
  | inr e ↦ rw same_test (rw e refl)
]

agree_read :
    (s8 s16 : Units) (op : Option OperationId) (v : Version.ContractVersion)
    → Version.from_str s8 ≡ ok v
    → parse_contract_version s16 ≡ ok (host_version v)
    → require_compatible_contract s16 (op_str op)
      ≡ told (Handshake.require_compatible_contract s8 op)
agree_read s8 s16 op v h k =
    host_read s16 (op_str op) (host_version v) k
    ∙ same_answer op v
    ∙ ap told (sym (rust_read s8 op v h))

is_safe : Version.ContractVersion → Bool
is_safe v =
    leb v.major max_safe_integer && leb v.minor max_safe_integer && leb v.patch max_safe_integer

-- On every claim of a peer the host and the crate answer alike: the same version is agreed on, or
-- the same failure reported, with the same operation and the same versions in its details. There is
-- one exception: of a canonical version with a component of 2^53 or more, which both refuse, the
-- host's failure does not name the version.
pub handshake_mirrors :
    (t : CodePoints) (op : Option OperationId)
    → (require_compatible_contract (utf16 t) (op_str op)
        ≡ told (Handshake.require_compatible_contract (utf8 t) op))
      ⊎ ((v : Version.ContractVersion) × (Version.from_str (utf8 t) ≡ ok v)
          × (¬ IsSafe (host_version v))
          × (require_compatible_contract (utf16 t) (op_str op) ≡ err (refuse (op_str op) none)))
unfolding is_safe
handshake_mirrors t op = elim (Result-cases (Version.from_str (utf8 t))) [
  | inr (e, unread) ↦ inl (
      refuse_unread (utf16 t) (op_str op)
        (λ v h. refused_twice e unread v ((parse_contract_version-mirrors t v).0 h).0)
      ∙ sym (agree_unread (utf8 t) op e unread))
  | inl (v, read) ↦ elim (Bool-cases (is_safe v)) [
    | inl safe ↦ inl (
        agree_read (utf8 t) (utf16 t) op v read
          ((parse_contract_version-mirrors t (host_version v)).1 (read, ground arith)))
    | inr unsafe ↦ inr (
      v,
      read,
      λ k. ground arith,
      refuse_unread (utf16 t) (op_str op)
          (λ w h. unsafe_twice v unsafe w read ((parse_contract_version-mirrors t w).0 h)),
    )
  ]
]
  where
    refused_twice :
        (e : VersionError)
        → Version.from_str (utf8 t) ≡ err e
        → (v : ContractVersion) → Version.from_str (utf8 t) ≡ ok (twin v)
        → ⊥
    refused_twice e h v k = ground arith

    unsafe_twice :
        (v : Version.ContractVersion)
        → is_safe v ≡ false
        → (w : ContractVersion) → Version.from_str (utf8 t) ≡ ok v
        → (Version.from_str (utf8 t) ≡ ok (twin w)) × IsSafe w
        → ⊥
    unsafe_twice v h w k (l, s) = ground arith
