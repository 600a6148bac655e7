-- ===== src/Contracts/Names.antt =====
-- The shape that capability.rs and the token.rs of the signal crate both ask of a name: the two
-- functions `is_canonical` are one text but for the bound on the length.
pub mod Shape
use artificial_intelligence.Base.{
  Bool, Bytes, [], all, eqb, false, leb, length, not, ℕ, ◌&&◌, ◌||◌, ◌∷◌,
}
use artificial_intelligence.Contracts.Decimal.{is_ascii_digit}

-- `u8::is_ascii_lowercase`
abbrev pub is_ascii_lowercase : ℕ → Bool
is_ascii_lowercase c = leb b'a' c && leb c b'z'

-- The test on each byte behind the first.
abbrev pub is_name_byte : ℕ → Bool
is_name_byte c = is_ascii_lowercase c || is_ascii_digit c || eqb c b'_'

-- `value.ends_with('_')`
abbrev pub ends_with : ℕ → Bytes → Bool
ends_with c [] = false
ends_with c (b ∷ []) = eqb b c
ends_with c (b ∷ d ∷ s) = ends_with c (d ∷ s)

-- `value.contains("__")`
abbrev pub contains_double : ℕ → Bytes → Bool
contains_double c [] = false
contains_double c (b ∷ []) = false
contains_double c (b ∷ d ∷ s) = eqb b c && eqb d c || contains_double c (d ∷ s)

unfoldable pub is_canonical : ℕ → Bytes → Bool
is_canonical max_len [] = false
is_canonical max_len (first ∷ bytes) =
    leb (length (first ∷ bytes)) max_len
    && is_ascii_lowercase first
    && all is_name_byte bytes
    && not (ends_with b'_' (first ∷ bytes))
    && not (contains_double b'_' (first ∷ bytes))
