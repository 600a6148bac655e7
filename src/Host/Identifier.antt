-- ===== src/Host/Identifier.antt =====
-- packages/aiai-contracts/src/identifier.ts: the identifiers by kind. The kinds, the keys of
-- `IDENTIFIER_SHAPES`, are those of crates/aiai-contracts/src/identifier.rs.
pub mod Mirror
use artificial_intelligence.Base.{
  Bool, List, Result, [], codes, eqb, err, false, if◌then◌else◌, leb, length, ltb, not, ok, suc,
  true, zero, ℕ, ◌%◌, ◌&&◌, ◌++◌, ◌+◌, ◌-◌, ◌/◌, ◌∷◌,
}
use artificial_intelligence.Contracts.Identifier.{
  IdentifierKind, subject, controller, runtime, model, session, proposal, operation, sha256,
}
use artificial_intelligence.Host.Text.{Units}
use artificial_intelligence.Host.Violation.{
  ContractViolation, contract_violation, non_canonical_identifier,
}

pub record IdentifierShape : Type 0 where
  pub prefix : Units
  pub hex_length : ℕ

-- `IDENTIFIER_SHAPES`
abbrev pub identifier_shapes : IdentifierKind → IdentifierShape
identifier_shapes subject = record { prefix = codes "sub_"; hex_length = 64 }
identifier_shapes controller = record { prefix = codes "ctl_"; hex_length = 32 }
identifier_shapes runtime = record { prefix = codes "rt_"; hex_length = 32 }
identifier_shapes model = record { prefix = codes "mdl_"; hex_length = 32 }
identifier_shapes session = record { prefix = codes "ses_"; hex_length = 32 }
identifier_shapes proposal = record { prefix = codes "prp_"; hex_length = 32 }
identifier_shapes operation = record { prefix = codes "op_"; hex_length = 32 }
identifier_shapes sha256 = record { prefix = codes "sha256_"; hex_length = 64 }

-- `Identifier<K>`: a string, by its brand one that was checked for the kind.
abbrev pub Identifier : IdentifierKind → Type 0
Identifier kind = Units

-- The loop of `isLowerHex`.
unfoldable pub hex_loop : Units → Bool
hex_loop [] = true
hex_loop (c ∷ s) =
    let digit = leb 0x30 c && leb c 0x39 in
    let lower_hex = leb 0x61 c && leb c 0x66 in
    if not digit && not lower_hex then false else hex_loop s

-- `isLowerHex`
unfoldable pub is_lower_hex : Units → ℕ → Bool
unfolding hex_loop
is_lower_hex value len = if not (eqb (length value) len) then false else hex_loop value

-- `value.startsWith(p)`
abbrev pub starts_with : Units → Units → Bool
starts_with [] value = true
starts_with (p ∷ ps) [] = false
starts_with (p ∷ ps) (c ∷ s) = eqb p c && starts_with ps s

-- `value.slice(n)`
abbrev pub slice : ℕ → Units → Units
slice zero value = value
slice (suc n) [] = []
slice (suc n) (c ∷ s) = slice n s

-- `isIdentifier`
unfoldable pub is_identifier : IdentifierKind → Units → Bool
unfolding is_lower_hex
is_identifier kind value =
    let shape = identifier_shapes kind in
    starts_with shape.prefix value
    && is_lower_hex (slice (length shape.prefix) value) shape.hex_length

-- `parseIdentifier`
unfoldable pub parse_identifier :
    (kind : IdentifierKind) → Units → Result (Identifier kind) ContractViolation
unfolding is_identifier
parse_identifier kind value =
    if not (is_identifier kind value)
    then err (contract_violation non_canonical_identifier)
    else ok value

-- One digit of `toString(16)`.
abbrev pub hex_unit : ℕ → ℕ
hex_unit d = if ltb d 10 then b'0' + d else b'a' + (d - 10)

-- `byte.toString(16)` of a byte: no leading zero.
abbrev pub to_hex : ℕ → Units
to_hex b = if ltb b 16 then hex_unit b ∷ [] else hex_unit (b / 16) ∷ hex_unit (b % 16) ∷ []

-- `text.padStart(2, "0")`
abbrev pub pad_start : Units → Units
pad_start [] = b'0' ∷ b'0' ∷ []
pad_start (c ∷ []) = b'0' ∷ c ∷ []
pad_start (c ∷ d ∷ s) = c ∷ d ∷ s

-- The loop of `formatSha256Digest`.
unfoldable pub hex_body : List ℕ → Units → Units
hex_body [] body = body
hex_body (byte ∷ bytes) body = hex_body bytes (body ++ pad_start (to_hex byte))

-- `formatSha256Digest`
unfoldable pub format_sha256_digest : List ℕ → Result (Identifier sha256) ContractViolation
unfolding parse_identifier hex_body
format_sha256_digest bytes =
    if not (eqb (length bytes) 32)
    then err (contract_violation non_canonical_identifier)
    else parse_identifier sha256 (codes "sha256_" ++ hex_body bytes [])
