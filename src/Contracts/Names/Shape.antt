-- ===== src/Contracts/Names/Shape.antt =====
-- The grammar of canonical names: words of lowercase letters and digits, joined by single
-- underscores, the first word beginning with a letter.
use artificial_intelligence.Base.{
  Bool, Bool-cases, Bytes, [], all, arith, eqb, inl, inr, length, not, true, ℕ, ◌&&◌, ◌||◌, ◌↔◌,
  ◌∷◌, ◌≡◌, ◌≤◌,
}
use artificial_intelligence.Contracts.Decimal.{is_ascii_digit}
use artificial_intelligence.Contracts.Names.{
  is_ascii_lowercase, is_name_byte, ends_with, contains_double, is_canonical,
}

abbrev pub is_word_byte : ℕ → Bool
is_word_byte c = is_ascii_lowercase c || is_ascii_digit c

-- What may follow a byte of a word: nothing, one more byte, or an underscore and a further word.
pub data Continues : Bytes → Type 0 where
  done : Continues []
  byte : (c : ℕ) {s : Bytes} → is_word_byte c ≡ true → Continues s → Continues (c ∷ s)
  joint :
      (u c : ℕ) {s : Bytes} → u ≡ b'_' → is_word_byte c ≡ true → Continues s → Continues (u ∷ c ∷ s)

pub data IsName (max_len : ℕ) : Bytes → Type 0 where
  name :
      (c : ℕ) {s : Bytes}
      → is_ascii_lowercase c ≡ true
      → Continues s
      → length (c ∷ s) ≤ max_len
      → IsName max_len (c ∷ s)

-- The last three tests of `is_canonical`, behind a byte of a word.
abbrev tail_ok : ℕ → Bytes → Bool
tail_ok c s =
    all is_name_byte s && not (ends_with b'_' (c ∷ s)) && not (contains_double b'_' (c ∷ s))

Continues-tail_ok : (c : ℕ) (s : Bytes) → is_word_byte c ≡ true → Continues s → tail_ok c s ≡ true
Continues-tail_ok c s h done = ground arith
Continues-tail_ok c s h (byte d {s = t} k r) = ground (arith, Continues-tail_ok d t k r)
Continues-tail_ok c s h (joint u d {s = t} e k r) = ground (arith, Continues-tail_ok d t k r)

tail_ok-Continues : (c : ℕ) (s : Bytes) → is_word_byte c ≡ true → tail_ok c s ≡ true → Continues s
tail_ok-Continues c [] h k = done
tail_ok-Continues c (d ∷ []) h k = byte d (ground arith) done
tail_ok-Continues c (d ∷ e ∷ s) h k = elim (Bool-cases (eqb d b'_')) [
  | inl u ↦
      joint d e (ground arith) (ground arith) (tail_ok-Continues e s (ground arith) (ground arith))
  | inr w ↦ byte d (ground arith) (tail_ok-Continues d (e ∷ s) (ground arith) (ground arith))
]

-- The test accepts exactly the names of the grammar that fit the length.
pub is_canonical_iff :
    (max_len : ℕ) (s : Bytes) → (is_canonical max_len s ≡ true) ↔ IsName max_len s
unfolding is_canonical
is_canonical_iff max_len [] = (λ h. cc, λ h. elim h [ ])
is_canonical_iff max_len (c ∷ s) = (
  λ h. name c (ground arith) (tail_ok-Continues c s (ground arith) (ground arith)) (ground arith),
  complete max_len (c ∷ s),
)
  where
    complete : (m : ℕ) (t : Bytes) → IsName m t → is_canonical m t ≡ true
    complete m t (name d {s = r} k f l) = ground (arith, Continues-tail_ok d r (ground arith) f)
