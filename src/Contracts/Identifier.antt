-- ===== src/Contracts/Identifier.antt =====
-- crates/aiai-contracts/src/identifier.rs: the identifier types that the macro `identifier_type!`
-- generates, as one type over the macro's arguments.
pub mod Laws
use artificial_intelligence.Base.{
  Bool, Bytes, List, Option, Ord, Result, [], all, bytes_ord, codes, derive_ord, eqb, err,
  if◌then◌else◌, leb, length, ltb, none, ok, some, ℕ, ◌%◌, ◌&&◌, ◌++◌, ◌+◌, ◌-◌, ◌/◌, ◌||◌, ◌∷◌,
}
use artificial_intelligence.Contracts.Decimal.{is_ascii_digit}

pub data IdentifierError : Type 0 where
  identifier_error : IdentifierError

-- The eight calls of the macro.
pub data IdentifierKind : Type 0 where
  subject controller runtime model session proposal operation sha256 : IdentifierKind

abbrev pub prefix : IdentifierKind → Bytes
prefix subject = codes "sub_"
prefix controller = codes "ctl_"
prefix runtime = codes "rt_"
prefix model = codes "mdl_"
prefix session = codes "ses_"
prefix proposal = codes "prp_"
prefix operation = codes "op_"
prefix sha256 = codes "sha256_"

abbrev pub hex_length : IdentifierKind → ℕ
hex_length subject = 64
hex_length sha256 = 64
hex_length _ = 32

pub record Identifier (kind : IdentifierKind) : Type 0 where
  pub as_str : Bytes

abbrev pub SubjectId : Type 0
SubjectId = Identifier subject

abbrev pub ControllerId : Type 0
ControllerId = Identifier controller

abbrev pub RuntimeId : Type 0
RuntimeId = Identifier runtime

abbrev pub ModelId : Type 0
ModelId = Identifier model

abbrev pub SessionId : Type 0
SessionId = Identifier session

abbrev pub ProposalId : Type 0
ProposalId = Identifier proposal

abbrev pub OperationId : Type 0
OperationId = Identifier operation

abbrev pub Sha256Digest : Type 0
Sha256Digest = Identifier sha256

-- The derived order and equality compare the text.
instance abbrev pub identifier_ord : {kind : IdentifierKind} → Ord (Identifier kind)
identifier_ord = derive_ord bytes_ord (λ n. n.as_str) (λ a b e i. record { as_str = e i })

abbrev pub is_hex_byte : ℕ → Bool
is_hex_byte c = is_ascii_digit c || leb b'a' c && leb c b'f'

abbrev pub is_lower_hex : Bytes → ℕ → Bool
is_lower_hex value len = eqb (length value) len && all is_hex_byte value

-- `value.strip_prefix(p)`
abbrev pub strip_prefix : Bytes → Bytes → Option Bytes
strip_prefix [] value = some value
strip_prefix (p ∷ ps) [] = none
strip_prefix (p ∷ ps) (b ∷ s) = let rest = strip_prefix ps s in if eqb p b then rest else none

-- `impl TryFrom<String>`
unfoldable pub try_from : (kind : IdentifierKind) → Bytes → Result (Identifier kind) IdentifierError
try_from kind value = elim (strip_prefix (prefix kind) value) [
  | none ↦ err identifier_error
  | some rest ↦
      if is_lower_hex rest (hex_length kind)
      then ok (record { as_str = value })
      else err identifier_error
]

-- `impl FromStr`: the same on a copy of the text.
abbrev pub from_str : (kind : IdentifierKind) → Bytes → Result (Identifier kind) IdentifierError
from_str kind value = try_from kind value

-- One lower-case hexadecimal digit of `{byte:02x}`.
abbrev pub hex_digit : ℕ → ℕ
hex_digit d = if ltb d 10 then b'0' + d else b'a' + (d - 10)

abbrev pub write_hex : List ℕ → Bytes
write_hex [] = []
write_hex (byte ∷ bytes) = hex_digit (byte / 16) ∷ hex_digit (byte % 16) ∷ write_hex bytes

-- `Sha256Digest::from_bytes`; the source takes an array of 32 bytes.
unfoldable pub from_bytes : List ℕ → Sha256Digest
from_bytes bytes = record { as_str = prefix sha256 ++ write_hex bytes }
