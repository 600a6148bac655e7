-- ===== src/Contracts/Decimal.antt =====
-- The decimal numerals of `u64` as the standard library reads and prints them, and the test for a
-- canonical numeral that scalar.rs and version.rs both make.
pub mod Print
pub mod Read
use artificial_intelligence.Base.{
  Bool, Bytes, Option, [], all, eqb, false, if◌then◌else◌, leb, length, ltb, none, not, some, suc,
  zero, ℕ, ◌%◌, ◌&&◌, ◌*◌, ◌++◌, ◌+◌, ◌-◌, ◌/◌, ◌^◌, ◌||◌, ◌∷◌,
}

abbrev pub u64_max : ℕ
u64_max = 2 ^ 64 - 1

-- `u64::checked_add` and `u64::checked_mul`
abbrev pub checked_add : ℕ → ℕ → Option ℕ
checked_add a b = if leb (a + b) u64_max then some (a + b) else none

abbrev pub checked_mul : ℕ → ℕ → Option ℕ
checked_mul a b = if leb (a * b) u64_max then some (a * b) else none

-- `u8::is_ascii_digit`
abbrev pub is_ascii_digit : ℕ → Bool
is_ascii_digit c = leb b'0' c && leb c b'9'

-- `value.starts_with(c)`
abbrev pub starts_with : ℕ → Bytes → Bool
starts_with c [] = false
starts_with c (b ∷ s) = eqb b c

-- Not empty, no leading zero but in "0" itself, digits alone.
unfoldable pub is_noncanonical : Bytes → Bool
is_noncanonical value =
    eqb (length value) 0
    || ltb 1 (length value) && starts_with b'0' value
    || not (all is_ascii_digit value)

-- The loop of `str::parse::<u64>`: each digit extends the number, with overflow checked.
unfoldable pub read_digits : ℕ → Bytes → Option ℕ
read_digits n [] = some n
read_digits n (c ∷ s) =
    let rest = λ (m : ℕ). read_digits m s in
    if is_ascii_digit c
    then elim (checked_mul n 10) [
      | none ↦ none
      | some t ↦ elim (checked_add t (c - b'0')) [ none ↦ none | some m ↦ rest m ]
    ]
    else none

-- `str::parse::<u64>` at a text of digits.
unfoldable pub parse_u64 : Bytes → Option ℕ
parse_u64 [] = none
parse_u64 (c ∷ s) = read_digits 0 (c ∷ s)

-- `Display` for `u64`; the fuel is above the number, so it never runs out.
unfoldable pub print_digits : ℕ → ℕ → Bytes
print_digits zero n = []
print_digits (suc f) n =
    let rest = print_digits f (n / 10) in
    if ltb n 10 then (b'0' + n) ∷ [] else rest ++ (b'0' + n % 10) ∷ []

unfoldable pub print_u64 : ℕ → Bytes
print_u64 n = print_digits (suc n) n
