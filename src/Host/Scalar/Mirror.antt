-- ===== src/Host/Scalar/Mirror.antt =====
-- The counters of scalar.ts beside those of crates/aiai-contracts/src/scalar.rs.
use artificial_intelligence.Base.{
  Bool-cases, [], all, arith, inl, inr, is_ok, ok, subst, true, ℕ, ◌↔◌, ◌∷◌, ◌≡◌, ◌≤◌,
}
use mathlib.Core.Option
use artificial_intelligence.Contracts.Decimal.{u64_max, is_ascii_digit, parse_u64}
use artificial_intelligence.Contracts.Scalar
use artificial_intelligence.Contracts.Scalar.{from_str_iff}
use artificial_intelligence.Contracts.Wire.Ascii.{is_ascii-decimal}
use artificial_intelligence.Contracts.Canonical.{is_ascii}
use artificial_intelligence.Host.Text.{Units, CodePoints, utf8, utf16, encodings_agree}
use artificial_intelligence.Host.Scalar.{
  pos, is_canonical_decimal, is_decimal_u64, parse_decimal_u64, format_decimal_u64, next_sequence,
  canonical_decimal, read_digits-big_digits,
}

digits_of_canonical :
    (c : ℕ) (s : Units) → is_canonical_decimal (c ∷ s) ≡ true → all is_ascii_digit (c ∷ s) ≡ true
unfolding is_canonical_decimal
digits_of_canonical c [] h = ground arith
digits_of_canonical c (d ∷ s) h = ground arith

pub parse_decimal_u64-from_str :
    (s : Units) (n : ℕ) → (parse_decimal_u64 s ≡ ok n) ↔ (Scalar.from_str s ≡ ok n)
unfolding parse_decimal_u64 Scalar.from_str parse_u64
parse_decimal_u64-from_str [] n =
    (λ h. ground (arith, canonical_decimal []), λ h. ground (arith, canonical_decimal []))
parse_decimal_u64-from_str (c ∷ s) n = elim (Bool-cases (is_canonical_decimal (c ∷ s))) [
  | inl yes_ ↦
      let digits = digits_of_canonical c s yes_ in
      let read = read_digits-big_digits 0 (c ∷ s) digits (omega arith) in
      (
        λ h. ground (arith, canonical_decimal (c ∷ s), read),
        λ h. ground (arith, canonical_decimal (c ∷ s), read),
      )
  | inr no_ ↦ (
    λ h. ground (arith, canonical_decimal (c ∷ s)),
    λ h. ground (arith, canonical_decimal (c ∷ s)),
  )
]

-- Of every text, the host's package and the crate read the same counter or both refuse it, each in
-- its own encoding of the text.
pub parse_decimal_u64-mirrors :
    (t : CodePoints) (n : ℕ)
    → (parse_decimal_u64 (utf16 t) ≡ ok n) ↔ (Scalar.from_str (utf8 t) ≡ ok n)
parse_decimal_u64-mirrors t n =
    encodings_agree {P = λ s. parse_decimal_u64 s ≡ ok n} {Q = λ s. Scalar.from_str s ≡ ok n}
      (λ s. parse_decimal_u64-from_str s n)
      (λ s h. subst (λ u. is_ascii u ≡ true) ((from_str_iff s n).0 h).0 (is_ascii-decimal n)) t

-- Of an integer the host formats exactly those in the range of the type, and to the string that it
-- reads back as the same value; the next value is the crate's, with the same ceiling.
pub format-parse_decimal_u64 :
    (n : ℕ) (s : Units) → (format_decimal_u64 (pos n) ≡ ok s) ↔ (parse_decimal_u64 s ≡ ok n)
unfolding format_decimal_u64 Scalar.to_string
format-parse_decimal_u64 n s = (
  λ h. (parse_decimal_u64-from_str s n).1 ((from_str_iff s n).1 (ground arith, ground arith)),
  λ h.
      let fit = (from_str_iff s n).0 ((parse_decimal_u64-from_str s n).0 h) in
      ground (arith, fit.0, fit.1),
)

-- `isDecimalU64` is the test that `parseDecimalU64` makes.
pub is_decimal_u64-parse : (s : Units) → is_decimal_u64 s ≡ is_ok (parse_decimal_u64 s)
unfolding is_decimal_u64 parse_decimal_u64
is_decimal_u64-parse s = ground arith

-- Of a counter of 64 bits the host and the crate compute the same next value, and neither has one
-- at the ceiling.
pub next_sequence-mirrors :
    (n : ℕ) → n ≤ u64_max → next_sequence (pos n) ≡ Option.map pos (Scalar.next n)
unfolding next_sequence Scalar.next
next_sequence-mirrors n h = ground arith
