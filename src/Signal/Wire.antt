-- ===== src/Signal/Wire.antt =====
-- `Display`, `Serialize` and `Deserialize` of the token of crates/aiai-signal/src/token.rs.
use artificial_intelligence.Base.{Bytes, arith, codes, ok, subst, sym, ◌↔◌, ◌≡◌}
use artificial_intelligence.Contracts.Names.Shape.{IsName, is_canonical_iff}
use artificial_intelligence.Contracts.Wire.Ascii.{is_ascii-name}
use artificial_intelligence.Contracts.Wire.{Text, ExactText}
use artificial_intelligence.Signal.Token.{
  Token, TokenError, token_error, token_max_len, is_canonical, try_from,
}

unfoldable pub token_message : TokenError → Bytes
token_message token_error = codes "schema token is not canonical"

abbrev pub token_text : Text Token TokenError
token_text = record { print = λ t. t.as_str; read = try_from; message = token_message }

pub token_read_iff :
    (s : Bytes) (t : Token) → (try_from s ≡ ok t) ↔ ((t.as_str ≡ s) × IsName token_max_len t.as_str)
unfolding try_from is_canonical
token_read_iff s t = (only, whenever)
  where
    only : try_from s ≡ ok t → (t.as_str ≡ s) × IsName token_max_len t.as_str
    only h =
        let same : t.as_str ≡ s = ground arith in
        (
          same,
          subst (IsName token_max_len) (sym same)
              ((is_canonical_iff token_max_len s).0 (ground arith)),
        )

    whenever : (t.as_str ≡ s) × IsName token_max_len t.as_str → try_from s ≡ ok t
    whenever (same, shape) = ground (arith, same, (is_canonical_iff token_max_len t.as_str).1 shape)

abbrev pub token_exact : ExactText Token TokenError
token_exact = record {
  text = token_text;
  Fits = λ t. IsName token_max_len t.as_str;
  read_iff = token_read_iff;
  ascii = λ t name. is_ascii-name token_max_len t.as_str name;
}
