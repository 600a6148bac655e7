-- ===== src/Contracts/Decimal/Read.antt =====
-- A canonical numeral that reads as a number is the number's own print, and the number fits.
use artificial_intelligence.Base.{
  Bytes, [], append-nil, append_assoc, arith, false, some, ℕ, ◌%◌, ◌*◌, ◌++◌, ◌+◌, ◌-◌, ◌/◌, ◌<◌,
  ◌∷◌, ◌≡◌, ◌≤◌,
}
use artificial_intelligence.Contracts.Decimal.{
  u64_max, is_noncanonical, read_digits, parse_u64, print_u64,
}
use artificial_intelligence.Contracts.Decimal.Print.{print_u64_step}

-- One more digit behind a positive number is one more digit behind its print.
print_u64_shift :
    (n d : ℕ) → 0 < n → d < 10 → print_u64 (n * 10 + d) ≡ print_u64 n ++ (b'0' + d) ∷ []
print_u64_shift n d h k =
    let q : (n * 10 + d) / 10 ≡ n = omega arith in
    let r : (n * 10 + d) % 10 ≡ d = omega arith in ground (arith, print_u64_step (n * 10 + d), q, r)

read_digits_sound :
    (n m : ℕ) (s : Bytes) → 0 < n → read_digits n s ≡ some m → print_u64 m ≡ print_u64 n ++ s
unfolding read_digits
read_digits_sound n m [] h e = ground (arith, append-nil (print_u64 n))
read_digits_sound n m (c ∷ s) h e = ground (
  arith,
  read_digits_sound (n * 10 + (c - b'0')) m s,
  print_u64_shift n (c - b'0'),
  append_assoc (print_u64 n) ((b'0' + (c - b'0')) ∷ []) s,
)

pub read_digits-le : (n m : ℕ) (s : Bytes) → n ≤ u64_max → read_digits n s ≡ some m → m ≤ u64_max
unfolding read_digits
read_digits-le n m [] h e = ground arith
read_digits-le n m (c ∷ s) h e = ground (arith, read_digits-le (n * 10 + (c - b'0')) m s)

pub parse_u64-le : (m : ℕ) (s : Bytes) → parse_u64 s ≡ some m → m ≤ u64_max
unfolding parse_u64
parse_u64-le m [] e = cc
parse_u64-le m (c ∷ s) e = read_digits-le 0 m (c ∷ s) (omega arith) e

-- A canonical text that parses is the print of what it parses to.
pub print_u64-parse_u64 :
    (m : ℕ) (s : Bytes) → is_noncanonical s ≡ false → parse_u64 s ≡ some m → print_u64 m ≡ s
unfolding is_noncanonical parse_u64 read_digits
print_u64-parse_u64 m [] h e = cc
print_u64-parse_u64 m (c ∷ []) h e = ground (arith, print_u64_step m)
print_u64-parse_u64 m (c ∷ d ∷ s) h e =
    ground (arith, read_digits_sound (c - b'0') m (d ∷ s), print_u64_step (c - b'0'))
