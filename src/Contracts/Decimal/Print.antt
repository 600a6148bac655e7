-- ===== src/Contracts/Decimal/Print.antt =====
-- The printed numeral: it does not depend on the fuel, has only digits and no leading zero, and
-- reads back as the number.
use artificial_intelligence.Base.{
  Bool-cases, Bytes, [], all, all-append, arith, false, if◌then◌else◌, inl, inr, length,
  length-append, ltb, refl, some, suc, true, zero, ℕ, ◌%◌, ◌*◌, ◌++◌, ◌+◌, ◌-◌, ◌/◌, ◌<◌, ◌∙◌, ◌∷◌,
  ◌≡◌, ◌≤◌,
}
use artificial_intelligence.Contracts.Decimal.{
  u64_max, is_ascii_digit, starts_with, is_noncanonical, read_digits, parse_u64, print_digits,
  print_u64,
}

print_digits_fuel : (f g n : ℕ) → n < f → n < g → print_digits f n ≡ print_digits g n
unfolding print_digits
print_digits_fuel zero g n h k = absurd (omega arith)
print_digits_fuel (suc f) zero n h k = absurd (omega arith)
print_digits_fuel (suc f) (suc g) n h k = ground (arith, print_digits_fuel f g (n / 10))

-- The last digit of a number stands after the numeral of its tenth.
pub print_u64_step :
    (n : ℕ)
    → print_u64 n
      ≡ (if ltb n 10 then (b'0' + n) ∷ [] else print_u64 (n / 10) ++ (b'0' + n % 10) ∷ [])
unfolding print_u64 print_digits
print_u64_step n = ground (arith, print_digits_fuel n (suc (n / 10)) (n / 10))

print_digits-digits : (f n : ℕ) → all is_ascii_digit (print_digits f n) ≡ true
unfolding print_digits
print_digits-digits zero n = refl
print_digits-digits (suc f) n = ground (
  arith,
  print_digits-digits f (n / 10),
  all-append is_ascii_digit (print_digits f (n / 10)) ((b'0' + n % 10) ∷ []),
)

pub print_u64-digits : (n : ℕ) → all is_ascii_digit (print_u64 n) ≡ true
unfolding print_u64
print_u64-digits n = print_digits-digits (suc n) n

starts_with-append :
    (c : ℕ) (xs ys : Bytes) → 0 < length xs → starts_with c (xs ++ ys) ≡ starts_with c xs
starts_with-append c [] ys h = absurd (omega arith)
starts_with-append c (x ∷ xs) ys h = refl

print_digits-pos : (f n : ℕ) → n < f → 0 < length (print_digits f n)
unfolding print_digits
print_digits-pos zero n h = absurd (omega arith)
print_digits-pos (suc f) n h =
    ground (arith, length-append (print_digits f (n / 10)) ((b'0' + n % 10) ∷ []))

pub print_u64-pos : (n : ℕ) → 0 < length (print_u64 n)
unfolding print_u64
print_u64-pos n = print_digits-pos (suc n) n (omega arith)

print_digits-leading : (f n : ℕ) → n < f → 0 < n → starts_with b'0' (print_digits f n) ≡ false
unfolding print_digits
print_digits-leading zero n h p = absurd (omega arith)
print_digits-leading (suc f) n h p = ground (
  arith,
  print_digits-leading f (n / 10),
  print_digits-pos f (n / 10),
  starts_with-append b'0' (print_digits f (n / 10)) ((b'0' + n % 10) ∷ []),
)

print_u64-leading : (n : ℕ) → 0 < n → starts_with b'0' (print_u64 n) ≡ false
unfolding print_u64
print_u64-leading n h = print_digits-leading (suc n) n (omega arith) h

pub print_u64-canonical : (n : ℕ) → is_noncanonical (print_u64 n) ≡ false
unfolding is_noncanonical
print_u64-canonical zero = unfold print_u64 print_digits in refl
print_u64-canonical (suc n) = ground (
  arith,
  print_u64-pos (suc n),
  print_u64-digits (suc n),
  print_u64-leading (suc n) (omega arith),
)

-- Reading a text and then more is reading on from the number read so far.
read_digits-append :
    (n m : ℕ) (s t : Bytes) → read_digits n s ≡ some m → read_digits n (s ++ t) ≡ read_digits m t
unfolding read_digits
read_digits-append n m [] t h = ground arith
read_digits-append n m (c ∷ s) t h = ground (arith, read_digits-append (n * 10 + (c - b'0')) m s t)

read_digits-print : (f n : ℕ) → n < f → n ≤ u64_max → read_digits 0 (print_digits f n) ≡ some n
unfolding print_digits
read_digits-print zero n h k = absurd (omega arith)
read_digits-print (suc f) n h k = elim (Bool-cases (ltb n 10)) [
  | inl small ↦ rw small (unfold read_digits in ground arith)
  | inr large ↦ rw large (
      read_digits-append 0 (n / 10) (print_digits f (n / 10)) ((b'0' + n % 10) ∷ [])
        (read_digits-print f (n / 10) (ground arith) (ground arith))
      ∙ (unfold read_digits in ground arith))
]

parse_u64-read : (s : Bytes) → 0 < length s → parse_u64 s ≡ read_digits 0 s
unfolding parse_u64
parse_u64-read [] h = absurd (omega arith)
parse_u64-read (c ∷ s) h = refl

pub parse_u64-print_u64 : (n : ℕ) → n ≤ u64_max → parse_u64 (print_u64 n) ≡ some n
parse_u64-print_u64 n h =
    parse_u64-read (print_u64 n) (print_u64-pos n)
    ∙ (unfold print_u64 in read_digits-print (suc n) n (omega arith) h)
