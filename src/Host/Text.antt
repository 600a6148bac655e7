-- ===== src/Host/Text.antt =====
-- One text in the two encodings: the UTF-8 bytes of a Rust string and the UTF-16 code units of a
-- JavaScript one.
use artificial_intelligence.Base.{
  Bytes, List, [], arith, if◌then◌else◌, ltb, refl, subst, sym, true, ℕ, ◌%◌, ◌++◌, ◌+◌, ◌-◌, ◌/◌,
  ◌↔◌, ◌∙◌, ◌∷◌, ◌≡◌,
}
use artificial_intelligence.Contracts.Canonical.{is_ascii}

-- A JavaScript string.
abbrev pub Units : Type 0
Units = List ℕ

-- A text, as its Unicode code points.
abbrev pub CodePoints : Type 0
CodePoints = List ℕ

-- The UTF-8 bytes of a code point.
abbrev pub utf8_bytes : ℕ → Bytes
utf8_bytes c =
    if ltb c 0x80
    then c ∷ []
    else if ltb c 0x800
    then (0xC0 + c / 64) ∷ (0x80 + c % 64) ∷ []
    else if ltb c 0x10000
    then (0xE0 + c / 4096) ∷ (0x80 + c / 64 % 64) ∷ (0x80 + c % 64) ∷ []
    else (0xF0 + c / 262144) ∷ (0x80 + c / 4096 % 64) ∷ (0x80 + c / 64 % 64) ∷ (0x80 + c % 64) ∷ []

-- The UTF-16 code units of a code point: itself, or a surrogate pair.
abbrev pub utf16_units : ℕ → Units
utf16_units c =
    if ltb c 0x10000
    then c ∷ []
    else (0xD800 + (c - 0x10000) / 1024) ∷ (0xDC00 + (c - 0x10000) % 1024) ∷ []

unfoldable pub utf8 : CodePoints → Bytes
utf8 [] = []
utf8 (c ∷ t) = utf8_bytes c ++ utf8 t

unfoldable pub utf16 : CodePoints → Units
utf16 [] = []
utf16 (c ∷ t) = utf16_units c ++ utf16 t

utf8-ascii : (t : CodePoints) → is_ascii t ≡ true → utf8 t ≡ t
unfolding utf8
utf8-ascii [] h = refl
utf8-ascii (c ∷ t) h = ground (arith, utf8-ascii t)

utf16-ascii : (t : CodePoints) → is_ascii t ≡ true → utf16 t ≡ t
unfolding utf16
utf16-ascii [] h = refl
utf16-ascii (c ∷ t) h = ground (arith, utf16-ascii t)

pub is_ascii-utf8 : (t : CodePoints) → is_ascii (utf8 t) ≡ is_ascii t
unfolding utf8
is_ascii-utf8 [] = refl
is_ascii-utf8 (c ∷ t) = ground (arith, is_ascii-utf8 t)

pub is_ascii-utf16 : (t : CodePoints) → is_ascii (utf16 t) ≡ is_ascii t
unfolding utf16
is_ascii-utf16 [] = refl
is_ascii-utf16 (c ∷ t) = ground (arith, is_ascii-utf16 t)

-- Where one encoding of a text is ASCII, both are the text itself.
same_of_ascii8 : (t : CodePoints) → is_ascii (utf8 t) ≡ true → utf16 t ≡ utf8 t
same_of_ascii8 t h = let a = sym (is_ascii-utf8 t) ∙ h in utf16-ascii t a ∙ sym (utf8-ascii t a)

same_of_ascii16 : (t : CodePoints) → is_ascii (utf16 t) ≡ true → utf16 t ≡ utf8 t
same_of_ascii16 t h = let a = sym (is_ascii-utf16 t) ∙ h in utf16-ascii t a ∙ sym (utf8-ascii t a)

-- A predicate on strings that only ASCII meets does not tell the encodings of a text apart.
pub encodings_agree :
    {P Q : List ℕ → Type 0}
    → ((s : List ℕ) → P s ↔ Q s)
    → ((s : List ℕ) → Q s → is_ascii s ≡ true)
    → (t : CodePoints) → P (utf16 t) ↔ Q (utf8 t)
encodings_agree {P} {Q} same low t = (
  λ h. let q = (same (utf16 t)).0 h in subst Q (same_of_ascii16 t (low (utf16 t) q)) q,
  λ h. subst P (sym (same_of_ascii8 t (low (utf8 t) h))) ((same (utf8 t)).1 h),
)
