-- ===== src/Host/Scalar.antt =====
-- packages/aiai-contracts/src/scalar.ts: the u64 counters, carried as decimal strings and held as a
-- `bigint`.
pub mod Mirror
use artificial_intelligence.Base.{
  Bool, Option, Result, [], all, arith, eqb, err, false, if◌then◌else◌, leb, ltb, none, not, ok,
  refl, some, suc, true, zero, ℕ, ◌&&◌, ◌*◌, ◌+◌, ◌-◌, ◌||◌, ◌∷◌, ◌≡◌, ◌≤◌,
}
use artificial_intelligence.Contracts.Decimal.{
  u64_max, is_ascii_digit, is_noncanonical, read_digits, print_u64,
}
use artificial_intelligence.Host.Text.{Units}
use artificial_intelligence.Host.Violation.{
  ContractViolation, contract_violation, non_canonical_decimal,
}

-- A `bigint`; `negsuc n` is -(n + 1).
pub data ℤ : Type 0 where
  pos : ℕ → ℤ
  negsuc : ℕ → ℤ

-- `DECIMAL_U64_MAX`
abbrev pub decimal_u64_max : ℕ
decimal_u64_max = 18446744073709551615

abbrev pub is_empty : Units → Bool
is_empty [] = true
is_empty (c ∷ s) = false

-- `/^(?:0|[1-9][0-9]*)$/u`
unfoldable pub is_canonical_decimal : Units → Bool
is_canonical_decimal [] = false
is_canonical_decimal (c ∷ s) =
    eqb c b'0' && is_empty s || leb b'1' c && leb c b'9' && all is_ascii_digit s

-- `BigInt(value)` at a string of digits: no bound on the value.
unfoldable pub big_digits : ℕ → Units → ℕ
big_digits n [] = n
big_digits n (c ∷ s) = big_digits (n * 10 + (c - b'0')) s

abbrev pub big_int : Units → ℕ
big_int value = big_digits 0 value

-- `isDecimalU64`
unfoldable pub is_decimal_u64 : Units → Bool
unfolding is_canonical_decimal big_digits
is_decimal_u64 value = is_canonical_decimal value && leb (big_int value) decimal_u64_max

-- `parseDecimalU64`
unfoldable pub parse_decimal_u64 : Units → Result ℕ ContractViolation
unfolding is_canonical_decimal big_digits
parse_decimal_u64 value =
    if not (is_canonical_decimal value)
    then err (contract_violation non_canonical_decimal)
    else if ltb decimal_u64_max (big_int value)
    then err (contract_violation non_canonical_decimal)
    else ok (big_int value)

-- `formatDecimalU64`
unfoldable pub format_decimal_u64 : ℤ → Result Units ContractViolation
format_decimal_u64 (negsuc n) = err (contract_violation non_canonical_decimal)
format_decimal_u64 (pos n) =
    if ltb decimal_u64_max n
    then err (contract_violation non_canonical_decimal)
    else ok (print_u64 n)

-- `nextSequence`
unfoldable pub next_sequence : ℤ → Option ℤ
next_sequence (negsuc zero) = some (pos 0)
next_sequence (negsuc (suc n)) = some (negsuc n)
next_sequence (pos n) = if leb decimal_u64_max n then none else some (pos (n + 1))

-- The two tests for a canonical numeral agree.
pub canonical_decimal : (s : Units) → is_canonical_decimal s ≡ not (is_noncanonical s)
unfolding is_canonical_decimal is_noncanonical
canonical_decimal [] = refl
canonical_decimal (c ∷ []) = ground arith
canonical_decimal (c ∷ d ∷ s) = ground arith

pub big_digits-le : (n : ℕ) (s : Units) → n ≤ big_digits n s
unfolding big_digits
big_digits-le n [] = omega arith
big_digits-le n (c ∷ s) = omega (arith, big_digits-le (n * 10 + (c - b'0')) s)

-- Reading with overflow checked at each digit is reading without a bound, and one test at the end.
pub read_digits-big_digits :
    (n : ℕ) (s : Units)
    → all is_ascii_digit s ≡ true
    → n ≤ u64_max
    → read_digits n s ≡ (if ltb u64_max (big_digits n s) then none else some (big_digits n s))
unfolding read_digits big_digits
read_digits-big_digits n [] h k = ground arith
read_digits-big_digits n (c ∷ s) h k =
    ground
      (arith, read_digits-big_digits (n * 10 + (c - b'0')) s, big_digits-le (n * 10 + (c - b'0')) s)
