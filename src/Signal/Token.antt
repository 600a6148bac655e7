-- ===== src/Signal/Token.antt =====
-- crates/aiai-signal/src/token.rs: the bounded lowercase token.
use artificial_intelligence.Base.{
  Bool, Bytes, Ord, Result, bytes_ord, derive_ord, err, if◌then◌else◌, ok, ℕ,
}
use artificial_intelligence.Contracts.Names

abbrev pub token_max_len : ℕ
token_max_len = 48

pub data TokenError : Type 0 where
  token_error : TokenError

pub record Token : Type 0 where
  pub as_str : Bytes

instance abbrev pub token_ord : Ord Token
token_ord = derive_ord bytes_ord (λ t. t.as_str) (λ a b e i. record { as_str = e i })

unfoldable pub is_canonical : Bytes → Bool
unfolding Names.is_canonical
is_canonical value = Names.is_canonical token_max_len value

-- `impl TryFrom<String> for Token`
unfoldable pub try_from : Bytes → Result Token TokenError
try_from value = if is_canonical value then ok (record { as_str = value }) else err token_error

-- `impl FromStr for Token`: the same on a copy of the text.
abbrev pub from_str : Bytes → Result Token TokenError
from_str value = try_from value
