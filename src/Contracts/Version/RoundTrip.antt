-- ===== src/Contracts/Version/RoundTrip.antt =====
-- Reading a printed version, and printing a version that was read.
use artificial_intelligence.Base.{
  Bool-cases, Bytes, List, [], all, arith, eqb, inl, inr, ok, refl, subst, true, ℕ, ◌++◌, ◌↔◌, ◌∷◌,
  ◌≡◌, ◌≤◌,
}
use artificial_intelligence.Contracts.Decimal.{u64_max, is_ascii_digit, print_u64}
use artificial_intelligence.Contracts.Decimal.Print.{
  print_u64-canonical, print_u64-digits, parse_u64-print_u64,
}
use artificial_intelligence.Contracts.Decimal.Read.{print_u64-parse_u64, parse_u64-le}
use artificial_intelligence.Contracts.Version.{
  ContractVersion, parse_component, cons_head, split, from_components, from_str, to_string,
}

parse_component-print : (n : ℕ) → n ≤ u64_max → parse_component (print_u64 n) ≡ ok n
unfolding parse_component
parse_component-print n h = ground (arith, print_u64-canonical n, parse_u64-print_u64 n h)

print-parse_component :
    (s : Bytes) (n : ℕ) → parse_component s ≡ ok n → (print_u64 n ≡ s) × (n ≤ u64_max)
unfolding parse_component
print-parse_component s n h = ground (arith, print_u64-parse_u64 n s, parse_u64-le n s)

-- A piece of digits ends at the first separator.
split_digits :
    (p s : Bytes) → all is_ascii_digit p ≡ true → split b'.' (p ++ (b'.' ∷ s)) ≡ p ∷ split b'.' s
unfolding split
split_digits [] s h = refl
split_digits (c ∷ p) s h = ground (arith, split_digits p s)

split_last : (p : Bytes) → all is_ascii_digit p ≡ true → split b'.' p ≡ p ∷ []
unfolding split
split_last [] h = refl
split_last (c ∷ p) h = ground (arith, split_last p)

split-to_string :
    (v : ContractVersion)
    → split b'.' (to_string v) ≡ print_u64 v.major ∷ print_u64 v.minor ∷ print_u64 v.patch ∷ []
unfolding to_string
split-to_string v = ground (
  arith,
  split_digits (print_u64 v.major) (print_u64 v.minor ++ (b'.' ∷ print_u64 v.patch))
      (print_u64-digits v.major),
  split_digits (print_u64 v.minor) (print_u64 v.patch) (print_u64-digits v.minor),
  split_last (print_u64 v.patch) (print_u64-digits v.patch),
)

pub record IsInRange (v : ContractVersion) : Type 0 where
  pub major_fits : v.major ≤ u64_max
  pub minor_fits : v.minor ≤ u64_max
  pub patch_fits : v.patch ≤ u64_max

-- A version whose components fit 64 bits is read back from its print.
pub from_str-to_string : (v : ContractVersion) → IsInRange v → from_str (to_string v) ≡ ok v
unfolding from_str
from_str-to_string v h = ground (
  arith,
  split-to_string v,
  parse_component-print v.major h.major_fits,
  parse_component-print v.minor h.minor_fits,
  parse_component-print v.patch h.patch_fits,
)

-- The pieces with a separator between them.
abbrev join : ℕ → List Bytes → Bytes
join c [] = []
join c (p ∷ []) = p
join c (p ∷ q ∷ ps) = p ++ (c ∷ join c (q ∷ ps))

join-cons_head : (c b : ℕ) (ps : List Bytes) → join c (cons_head b ps) ≡ b ∷ join c ps
join-cons_head c b [] = refl
join-cons_head c b (p ∷ []) = refl
join-cons_head c b (p ∷ q ∷ ps) = refl

cons_head-cons :
    (b : ℕ) (ps : List Bytes) → (p : Bytes) × (qs : List Bytes) × (cons_head b ps ≡ p ∷ qs)
cons_head-cons b [] = (b ∷ [], [], refl)
cons_head-cons b (p ∷ ps) = (b ∷ p, ps, refl)

split-cons : (c : ℕ) (s : Bytes) → (p : Bytes) × (qs : List Bytes) × (split c s ≡ p ∷ qs)
unfolding split
split-cons c [] = ([], [], refl)
split-cons c (b ∷ s) = elim (Bool-cases (eqb b c)) [
  | inl e ↦ ([], split c s, rw e)
  | inr e ↦ rw e (cons_head-cons b (split c s))
]

join-nil_cons : (c : ℕ) (s : Bytes) → join c ([] ∷ split c s) ≡ c ∷ join c (split c s)
join-nil_cons c s = let (p, qs, e) = split-cons c s in rw e

join-split : (c : ℕ) (s : Bytes) → join c (split c s) ≡ s
unfolding split
join-split c [] = refl
join-split c (b ∷ s) =
    ground (arith, join-split c s, join-cons_head c b (split c s), join-nil_cons c s)

to_string-from_components :
    (ps : List Bytes) (v : ContractVersion)
    → from_components ps ≡ ok v
    → (to_string v ≡ join b'.' ps) × IsInRange v
unfolding from_components to_string
to_string-from_components [] v h = cc
to_string-from_components (p ∷ []) v h = ground arith
to_string-from_components (p ∷ q ∷ []) v h = ground arith
to_string-from_components (p ∷ q ∷ r ∷ []) v h = ground (
  arith,
  print-parse_component p v.major,
  print-parse_component q v.minor,
  print-parse_component r v.patch,
)
to_string-from_components (p ∷ q ∷ r ∷ x ∷ ps) v h = ground arith

-- An accepted text is the print of the version that it stands for, and its components fit 64 bits.
pub to_string-from_str :
    (s : Bytes) (v : ContractVersion) → from_str s ≡ ok v → (to_string v ≡ s) × IsInRange v
unfolding from_str
to_string-from_str s v h = rw join-split at (to_string-from_components (split b'.' s) v h)

-- A text is read as a version exactly if it is the print of that version and every component fits
-- 64 bits: every version has one accepted text.
pub from_str-version_iff :
    (s : Bytes) (v : ContractVersion) → (from_str s ≡ ok v) ↔ ((to_string v ≡ s) × IsInRange v)
from_str-version_iff s v =
    (to_string-from_str s v, λ h. subst (λ t. from_str t ≡ ok v) h.0 (from_str-to_string v h.1))
