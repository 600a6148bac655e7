-- ===== src/Host/Capability/Mirror.antt =====
-- The names of capability.ts beside those of crates/aiai-contracts/src/capability.rs.
use artificial_intelligence.Base.{
  Bool-cases, [], arith, inl, inr, ok, refl, sym, true, ◌↔◌, ◌∙◌, ◌∷◌, ◌≡◌,
}
use artificial_intelligence.Contracts.Names.Shape.{
  is_word_byte, Continues, done, byte, joint, IsName, name,
}
use artificial_intelligence.Contracts.Capability
use artificial_intelligence.Contracts.Wire.Ascii.{is_ascii-name}
use artificial_intelligence.Host.Text.{Units, CodePoints, utf8, utf16, encodings_agree}
use artificial_intelligence.Host.Capability.{
  capability_name_max_len, matches_rest, canonical_capability, is_capability_name,
  parse_capability_name,
}

matches_rest-Continues : (s : Units) → matches_rest s ≡ true → Continues s
unfolding matches_rest
matches_rest-Continues [] h = done
matches_rest-Continues (c ∷ []) h = byte c (ground arith) done
matches_rest-Continues (c ∷ d ∷ s) h = elim (Bool-cases (is_word_byte c)) [
  | inl w ↦ byte c w (matches_rest-Continues (d ∷ s) (ground arith))
  | inr u ↦ joint c d (ground arith) (ground arith) (matches_rest-Continues s (ground arith))
]

Continues-matches_rest : (s : Units) → Continues s → matches_rest s ≡ true
unfolding matches_rest
Continues-matches_rest s done = refl
Continues-matches_rest s (byte c {s = t} w k) = ground (arith, Continues-matches_rest t k)
Continues-matches_rest s (joint u c {s = t} e w k) = ground (arith, Continues-matches_rest t k)

is_capability_name_iff :
    (s : Units) → (is_capability_name s ≡ true) ↔ IsName capability_name_max_len s
unfolding is_capability_name canonical_capability
is_capability_name_iff s = (sound s, complete s)
  where
    sound : (t : Units) → is_capability_name t ≡ true → IsName capability_name_max_len t
    sound [] h = cc
    sound (c ∷ t) h = name c (ground arith) (matches_rest-Continues t (ground arith)) (ground arith)

    complete : (t : Units) → IsName capability_name_max_len t → is_capability_name t ≡ true
    complete t (name c {s = r} low more short) = ground (arith, Continues-matches_rest r more)

parse_capability_name_iff :
    (s u : Units) → (parse_capability_name s ≡ ok u) ↔ ((s ≡ u) × IsName capability_name_max_len s)
unfolding parse_capability_name
parse_capability_name_iff s u = (
  λ h. (ground arith, (is_capability_name_iff s).0 (ground arith)),
  λ h. ground (arith, h.0, (is_capability_name_iff s).1 h.1),
)

-- Of every text, the host's package and the crate accept the same name or both refuse it, each in
-- its own encoding of the text.
pub parse_capability_name-mirrors :
    (t : CodePoints) (u : Units)
    → (parse_capability_name (utf16 t) ≡ ok u)
      ↔ ((n : Capability.CapabilityName) × (Capability.try_from (utf8 t) ≡ ok n) × (n.as_str ≡ u))
parse_capability_name-mirrors t u =
    encodings_agree {P = λ s. parse_capability_name s ≡ ok u}
      {Q = λ s. (n : Capability.CapabilityName) × (Capability.try_from s ≡ ok n) × (n.as_str ≡ u)}
      (λ s. (
        λ h.
            let (same, shape) = (parse_capability_name_iff s u).0 h in
            (record { as_str = s }, (Capability.try_from_iff s _).1 (refl, shape), same),
        λ (n, accepted, text).
            let (same, shape) = (Capability.try_from_iff s n).0 accepted in
            (parse_capability_name_iff s u).1 (sym same ∙ text, shape),
      ))
      (λ s (n, accepted, text).
        is_ascii-name capability_name_max_len s ((Capability.try_from_iff s n).0 accepted).1)
      t
