-- ===== src/Contracts/Wire/Ascii.antt =====
-- Which bytes stand in the texts of the contract's types.
use artificial_intelligence.Base.{
  Bool, Bytes, [], all, arith, refl, subst, sym, true, ℕ, ◌++◌, ◌<◌, ◌∷◌, ◌≡◌,
}
use artificial_intelligence.Contracts.Decimal.{is_ascii_digit, print_u64}
use artificial_intelligence.Contracts.Decimal.Print.{print_u64-digits}
use artificial_intelligence.Contracts.Names.{is_name_byte, is_canonical}
use artificial_intelligence.Contracts.Names.Shape.{IsName, is_canonical_iff}
use artificial_intelligence.Contracts.Scalar
use artificial_intelligence.Contracts.Version
use artificial_intelligence.Contracts.Version.{ContractVersion}
use artificial_intelligence.Contracts.Identifier.{
  IdentifierKind, subject, controller, runtime, model, session, proposal, operation, sha256, prefix,
  is_hex_byte,
}
use artificial_intelligence.Contracts.Canonical.{is_ascii}

is_ascii-all :
    (p : ℕ → Bool)
    → ((b : ℕ) → p b ≡ true → b < 128)
    → (s : Bytes) → all p s ≡ true
    → is_ascii s ≡ true
is_ascii-all p low [] h = refl
is_ascii-all p low (b ∷ s) h =
    ground (arith, low b (ground arith), is_ascii-all p low s (ground arith))

pub is_ascii-append :
    (s t : Bytes) → is_ascii s ≡ true → is_ascii t ≡ true → is_ascii (s ++ t) ≡ true
is_ascii-append [] t h k = k
is_ascii-append (b ∷ s) t h k = ground (arith, is_ascii-append s t (ground arith) k)

pub is_ascii-decimal : (n : ℕ) → is_ascii (Scalar.to_string n) ≡ true
unfolding Scalar.to_string
is_ascii-decimal n =
    is_ascii-all is_ascii_digit (λ b h. ground arith) (print_u64 n) (print_u64-digits n)

pub is_ascii-version : (v : ContractVersion) → is_ascii (Version.to_string v) ≡ true
unfolding Version.to_string Scalar.to_string
is_ascii-version v = is_ascii-append (Scalar.to_string v.major) _ (is_ascii-decimal v.major) (
    is_ascii-append (Scalar.to_string v.minor) _ (is_ascii-decimal v.minor)
      (is_ascii-decimal v.patch))

pub is_ascii-name : (max_len : ℕ) (s : Bytes) → IsName max_len s → is_ascii s ≡ true
unfolding is_canonical
is_ascii-name max_len [] h = refl
is_ascii-name max_len (c ∷ s) h =
    let shape = (is_canonical_iff max_len (c ∷ s)).1 h in
    let rest = is_ascii-all is_name_byte (λ b h. ground arith) s (ground (arith, shape)) in
    ground (arith, shape, rest)

is_ascii-prefix : (kind : IdentifierKind) → is_ascii (prefix kind) ≡ true
is_ascii-prefix subject = refl
is_ascii-prefix controller = refl
is_ascii-prefix runtime = refl
is_ascii-prefix model = refl
is_ascii-prefix session = refl
is_ascii-prefix proposal = refl
is_ascii-prefix operation = refl
is_ascii-prefix sha256 = refl

pub is_ascii-identifier :
    (kind : IdentifierKind) (s rest : Bytes)
    → s ≡ prefix kind ++ rest
    → all is_hex_byte rest ≡ true
    → is_ascii s ≡ true
is_ascii-identifier kind s rest e h =
    subst (λ t. is_ascii t ≡ true) (sym e)
      (is_ascii-append (prefix kind) rest (is_ascii-prefix kind)
        (is_ascii-all is_hex_byte (λ b h. ground arith) rest h))
