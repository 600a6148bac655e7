-- ===== src/Host/Identifier/Mirror.antt =====
-- The identifiers of identifier.ts beside those of crates/aiai-contracts/src/identifier.rs.
use artificial_intelligence.Base.{
  All, Bool-cases, List, [], all, append-nil, append_assoc, arith, eqb, err, if◌then◌else◌, inl,
  inr, length, ok, refl, sym, true, ℕ, ◌%◌, ◌++◌, ◌/◌, ◌<◌, ◌↔◌, ◌∙◌, ◌∷◌, ◌≡◌,
}
use artificial_intelligence.Contracts.Identifier
use artificial_intelligence.Contracts.Identifier.{
  IdentifierKind, subject, controller, runtime, model, session, proposal, operation, sha256, prefix,
  hex_length, is_hex_byte, write_hex, hex_digit, from_bytes,
}
use artificial_intelligence.Contracts.Identifier.Laws.{try_from_iff, IsByte, from_bytes-canonical}
use artificial_intelligence.Contracts.Wire.Ascii.{is_ascii-identifier}
use artificial_intelligence.Host.Text.{Units, CodePoints, utf8, utf16, encodings_agree}
use artificial_intelligence.Host.Violation.{contract_violation, non_canonical_identifier}
use artificial_intelligence.Host.Identifier.{
  identifier_shapes, hex_loop, is_lower_hex, starts_with, slice, is_identifier, parse_identifier,
  to_hex, pad_start, hex_body, format_sha256_digest,
}

shape-prefix : (kind : IdentifierKind) → (identifier_shapes kind).prefix ≡ prefix kind
shape-prefix subject = refl
shape-prefix controller = refl
shape-prefix runtime = refl
shape-prefix model = refl
shape-prefix session = refl
shape-prefix proposal = refl
shape-prefix operation = refl
shape-prefix sha256 = refl

shape-hex_length : (kind : IdentifierKind) → (identifier_shapes kind).hex_length ≡ hex_length kind
shape-hex_length subject = refl
shape-hex_length controller = refl
shape-hex_length runtime = refl
shape-hex_length model = refl
shape-hex_length session = refl
shape-hex_length proposal = refl
shape-hex_length operation = refl
shape-hex_length sha256 = refl

hex_loop-all : (s : Units) → hex_loop s ≡ all is_hex_byte s
unfolding hex_loop
hex_loop-all [] = refl
hex_loop-all (c ∷ s) = ground (arith, hex_loop-all s)

starts_with-append : (p s : Units) → starts_with p (p ++ s) ≡ true
starts_with-append [] s = refl
starts_with-append (c ∷ p) s = ground (arith, starts_with-append p s)

slice-append : (p s : Units) → slice (length p) (p ++ s) ≡ s
slice-append [] s = refl
slice-append (c ∷ p) s = slice-append p s

append-slice : (p s : Units) → starts_with p s ≡ true → p ++ slice (length p) s ≡ s
append-slice [] s h = refl
append-slice (c ∷ p) [] h = cc
append-slice (c ∷ p) (d ∷ s) h = ground (arith, append-slice p s)

abbrev HasShape : IdentifierKind → Units → Type 0
HasShape kind s =
    (rest : Units) × (s ≡ prefix kind ++ rest)
    × (length rest ≡ hex_length kind)
    × (all is_hex_byte rest ≡ true)

is_identifier_iff :
    (kind : IdentifierKind) (s : Units) → (is_identifier kind s ≡ true) ↔ HasShape kind s
unfolding is_identifier is_lower_hex
is_identifier_iff kind s = (
  λ h.
      let rest = slice (length (prefix kind)) s in
      (
        rest,
        sym (append-slice (prefix kind) s (ground (arith, shape-prefix kind))),
        ground (arith, shape-prefix kind, shape-hex_length kind),
        ground (arith, shape-prefix kind, shape-hex_length kind, hex_loop-all rest),
      ),
  λ (rest, e, len, hex). ground (
    arith,
    shape-prefix kind,
    shape-hex_length kind,
    starts_with-append (prefix kind) rest,
    slice-append (prefix kind) rest,
    hex_loop-all rest,
  ),
)

parse_identifier_iff :
    (kind : IdentifierKind) (s u : Units)
    → (parse_identifier kind s ≡ ok u) ↔ ((s ≡ u) × HasShape kind s)
unfolding parse_identifier
parse_identifier_iff kind s u = (
  λ h. (ground arith, (is_identifier_iff kind s).0 (ground arith)),
  λ h. ground (arith, h.0, (is_identifier_iff kind s).1 h.1),
)

-- Of every text and for every kind, the host's package and the crate accept the same identifier or
-- both refuse it, each in its own encoding of the text.
pub parse_identifier-mirrors :
    (kind : IdentifierKind) (t : CodePoints) (u : Units)
    → (parse_identifier kind (utf16 t) ≡ ok u) ↔ (
        (i : Identifier.Identifier kind) × (Identifier.try_from kind (utf8 t) ≡ ok i)
        × (i.as_str ≡ u))
parse_identifier-mirrors kind t u =
    encodings_agree {P = λ s. parse_identifier kind s ≡ ok u}
      {Q = λ s.
        (i : Identifier.Identifier kind) × (Identifier.try_from kind s ≡ ok i) × (i.as_str ≡ u)}
      (λ s. (
        λ h.
            let (same, (rest, e, len, hex)) = (parse_identifier_iff kind s u).0 h in
            (record { as_str = s }, (try_from_iff kind s _).1 (rest, e, len, hex, refl), same),
        λ (i, accepted, text).
            let (rest, e, len, hex, same) = (try_from_iff kind s i).0 accepted in
            (parse_identifier_iff kind s u).1 (sym same ∙ text, (rest, e, len, hex)),
      ))
      (λ s (i, accepted, text).
        let (rest, e, len, hex, same) = (try_from_iff kind s i).0 accepted in
        is_ascii-identifier kind s rest e hex)
      t

padded : (b : ℕ) → b < 256 → pad_start (to_hex b) ≡ hex_digit (b / 16) ∷ hex_digit (b % 16) ∷ []
padded b h = ground arith

hex_body-write_hex :
    (bytes : List ℕ) (body : Units)
    → All IsByte bytes
    → hex_body bytes body ≡ body ++ write_hex bytes
unfolding hex_body
hex_body-write_hex [] body h = sym (append-nil body)
hex_body-write_hex (b ∷ bytes) body h = ground (
  arith,
  hex_body-write_hex bytes (body ++ pad_start (to_hex b)) h.1,
  padded b h.0,
  append_assoc body (hex_digit (b / 16) ∷ hex_digit (b % 16) ∷ []) (write_hex bytes),
)

-- The host formats a digest of 32 bytes as the crate does, and refuses bytes of any other number.
pub format_sha256_digest_lem :
    (bytes : List ℕ)
    → All IsByte bytes
    → format_sha256_digest bytes ≡ (
        if eqb (length bytes) 32
        then ok (from_bytes bytes).as_str
        else err (contract_violation non_canonical_identifier))
unfolding format_sha256_digest from_bytes
format_sha256_digest_lem bytes h = elim (Bool-cases (eqb (length bytes) 32)) [
  | inl full ↦
      let (rest, e, len, hex, same) =
        (try_from_iff sha256 _ _).0 (from_bytes-canonical bytes (ground arith) h) in
      rw full (
        rw (hex_body-write_hex bytes [] h)
          ((parse_identifier_iff sha256 _ _).1 (refl, (rest, e, len, hex))))
  | inr short ↦ rw short refl
]
