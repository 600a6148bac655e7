-- ===== src/Contracts/Identifier/Laws.antt =====
-- Which texts are identifiers, and that a digest is one.
use artificial_intelligence.Base.{
  All, Bytes, List, Option, [], all, ap, arith, length, none, ok, refl, some, sym, true, ℕ, ◌%◌,
  ◌*◌, ◌++◌, ◌/◌, ◌<◌, ◌↔◌, ◌∷◌, ◌≡◌,
}
use artificial_intelligence.Contracts.Identifier.{
  IdentifierKind, sha256, Identifier, prefix, hex_length, is_hex_byte, strip_prefix, try_from,
  hex_digit, write_hex, from_bytes,
}

strip_prefix-append : (p s : Bytes) → strip_prefix p (p ++ s) ≡ some s
strip_prefix-append [] s = refl
strip_prefix-append (c ∷ p) s = ground (arith, strip_prefix-append p s)

append-strip_prefix : (p s rest : Bytes) → strip_prefix p s ≡ some rest → p ++ rest ≡ s
append-strip_prefix [] s rest h = ground arith
append-strip_prefix (c ∷ p) [] rest h = cc
append-strip_prefix (c ∷ p) (b ∷ s) rest h = ground (arith, append-strip_prefix p s rest)

-- A text is an identifier of its kind exactly if it is the prefix of the kind and then the kind's
-- number of lower-case hexadecimal digits, and it is kept as it was written.
pub try_from_iff :
    (kind : IdentifierKind) (s : Bytes) (i : Identifier kind)
    → (try_from kind s ≡ ok i) ↔ (
        (rest : Bytes) × (s ≡ prefix kind ++ rest)
        × (length rest ≡ hex_length kind)
        × (all is_hex_byte rest ≡ true)
        × (i.as_str ≡ s))
unfolding try_from
try_from_iff kind s i = (sound (strip_prefix (prefix kind) s) refl, complete)
  where
    sound :
        (o : Option Bytes)
        → strip_prefix (prefix kind) s ≡ o
        → try_from kind s ≡ ok i
        → (rest : Bytes) × (s ≡ prefix kind ++ rest)
          × (length rest ≡ hex_length kind)
          × (all is_hex_byte rest ≡ true)
          × (i.as_str ≡ s)
    sound none e h = cc
    sound (some rest) e h = (
      rest,
      sym (append-strip_prefix (prefix kind) s rest e),
      ground arith,
      ground arith,
      ground arith,
    )

    complete :
        (rest : Bytes) × (s ≡ prefix kind ++ rest)
          × (length rest ≡ hex_length kind)
          × (all is_hex_byte rest ≡ true)
          × (i.as_str ≡ s)
        → try_from kind s ≡ ok i
    complete (rest, e, l, a, t) = ground (arith, strip_prefix-append (prefix kind) rest)

abbrev pub IsByte : ℕ → Type 0
IsByte b = b < 256

write_hex-hex :
    (bs : List ℕ)
    → All IsByte bs
    → (all is_hex_byte (write_hex bs) ≡ true) × (length (write_hex bs) ≡ 2 * length bs)
write_hex-hex [] h = (refl, refl)
write_hex-hex (b ∷ bs) h = ground (arith, write_hex-hex bs h.1)

-- The digest of any 32 bytes is a canonical identifier, which its own text reads back.
pub from_bytes-canonical :
    (bs : List ℕ)
    → length bs ≡ 32
    → All IsByte bs
    → try_from sha256 (from_bytes bs).as_str ≡ ok (from_bytes bs)
unfolding from_bytes
from_bytes-canonical bs n h =
    (try_from_iff sha256 _ _).1
      (write_hex bs, refl, omega (arith, (write_hex-hex bs h).1), (write_hex-hex bs h).0, refl)

hex_digit-injective : (a b : ℕ) → a < 16 → b < 16 → hex_digit a ≡ hex_digit b → a ≡ b
hex_digit-injective a b h k e = ground arith

byte_of_digits : (a b : ℕ) → a / 16 ≡ b / 16 → a % 16 ≡ b % 16 → a ≡ b
byte_of_digits a b e f = omega arith

write_hex-injective :
    (xs ys : List ℕ) → All IsByte xs → All IsByte ys → write_hex xs ≡ write_hex ys → xs ≡ ys
write_hex-injective [] [] h k e = refl
write_hex-injective [] (b ∷ ys) h k e = cc
write_hex-injective (a ∷ xs) [] h k e = cc
write_hex-injective (a ∷ xs) (b ∷ ys) h k e = ground (
  arith,
  hex_digit-injective (a / 16) (b / 16),
  hex_digit-injective (a % 16) (b % 16),
  byte_of_digits a b,
  write_hex-injective xs ys,
)

-- Different digests have different identifiers.
pub from_bytes-injective :
    (xs ys : List ℕ) → All IsByte xs → All IsByte ys → from_bytes xs ≡ from_bytes ys → xs ≡ ys
unfolding from_bytes
from_bytes-injective xs ys h k e =
    write_hex-injective xs ys h k (ground (arith, ap (λ (d : Identifier sha256). d.as_str) e))
