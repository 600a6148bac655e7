-- ===== src/Contracts/Scalar.antt =====
-- crates/aiai-contracts/src/scalar.rs: an unsigned 64-bit counter carried as a decimal string. A
-- value is a plain number; that it fits 64 bits is stated where it matters, as `IsU64`.
use artificial_intelligence.Base.{
  Bytes, Option, Result, arith, err, if◌then◌else◌, none, ok, ok_or, some, ℕ, ◌+◌, ◌<◌, ◌↔◌, ◌≡◌,
  ◌≤◌,
}
use artificial_intelligence.Contracts.Decimal.{
  u64_max, checked_add, is_noncanonical, parse_u64, print_u64,
}
use artificial_intelligence.Contracts.Decimal.Print.{print_u64-canonical, parse_u64-print_u64}
use artificial_intelligence.Contracts.Decimal.Read.{print_u64-parse_u64, parse_u64-le}

abbrev pub DecimalU64 : Type 0
DecimalU64 = ℕ

abbrev pub IsU64 : DecimalU64 → Type 0
IsU64 n = n ≤ u64_max

pub data DecimalU64Error : Type 0 where
  decimal_u64_error : DecimalU64Error

-- `DecimalU64::next`
unfoldable pub next : DecimalU64 → Option DecimalU64
next n = elim (checked_add n 1) [ some value ↦ some value | none ↦ none ]

-- `impl FromStr for DecimalU64`
unfoldable pub from_str : Bytes → Result DecimalU64 DecimalU64Error
from_str value =
    if is_noncanonical value
    then err decimal_u64_error
    else ok_or (parse_u64 value) decimal_u64_error

-- `impl Display for DecimalU64`
unfoldable pub to_string : DecimalU64 → Bytes
to_string n = print_u64 n

pub next-eq-some : (n m : DecimalU64) → next n ≡ some m → (m ≡ n + 1) × (m ≤ u64_max)
unfolding next
next-eq-some n m h = ground arith

pub next-eq-none : (n : DecimalU64) → next n ≡ none → u64_max ≤ n
unfolding next
next-eq-none n h = ground arith

pub next_below : (n : DecimalU64) → n < u64_max → next n ≡ some (n + 1)
unfolding next
next_below n h = ground arith

-- The counter fails closed: `next` gives exactly the successor, if that fits 64 bits, and nothing
-- exactly at or above the ceiling.
pub next_iff :
    (n m : DecimalU64)
    → ((next n ≡ some m) ↔ ((m ≡ n + 1) × IsU64 m)) × ((next n ≡ none) ↔ (u64_max ≤ n))
unfolding next
next_iff n m =
    ((λ h. (ground arith, ground arith), λ h. ground arith), (λ h. ground arith, λ h. ground arith))

-- A text is read as a value exactly if it is the print of that value and the value fits 64 bits:
-- every 64-bit value has one accepted text.
pub from_str_iff :
    (s : Bytes) (n : DecimalU64) → (from_str s ≡ ok n) ↔ ((to_string n ≡ s) × IsU64 n)
unfolding from_str to_string
from_str_iff s n = (
  λ h. ground (arith, print_u64-parse_u64 n s, parse_u64-le n s),
  λ h. ground (arith, h.0, h.1, print_u64-canonical n, parse_u64-print_u64 n h.1),
)

pub ruleset counter = (next-eq-some, next-eq-none, next_below)
