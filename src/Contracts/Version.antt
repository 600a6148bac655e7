-- ===== src/Contracts/Version.antt =====
-- crates/aiai-contracts/src/version.rs: `MAJOR.MINOR.PATCH` and the directional compatibility test.
pub mod Laws
pub mod RoundTrip
use artificial_intelligence.Base.{
  Bool, Bytes, List, Result, [], eqb, err, false, if◌then◌else◌, leb, ok, ok_or, refuse_if, true, ℕ,
  ◌&&◌, ◌++◌, ◌∷◌, ◌>>=◌, ◌>>◌,
}
use artificial_intelligence.Contracts.Decimal.{is_noncanonical, parse_u64, print_u64}

pub data VersionError : Type 0 where
  version_error : VersionError

pub record ContractVersion : Type 0 where
  pub major : ℕ
  pub minor : ℕ
  pub patch : ℕ

-- `ContractVersion::CURRENT`
abbrev pub current : ContractVersion
current = record { major = 0; minor = 2; patch = 0 }

unfoldable pub accepts_provider : ContractVersion → ContractVersion → Bool
accepts_provider self provider =
    if eqb self.major 0
    then eqb provider.major 0 && eqb provider.minor self.minor && leb self.patch provider.patch
    else eqb provider.major self.major && leb self.minor provider.minor

unfoldable pub parse_component : Bytes → Result ℕ VersionError
parse_component value =
    if is_noncanonical value then err version_error else ok_or (parse_u64 value) version_error

-- `value.split(c)`: the pieces between the separators, at least one.
abbrev pub cons_head : ℕ → List Bytes → List Bytes
cons_head b [] = (b ∷ []) ∷ []
cons_head b (p ∷ ps) = (b ∷ p) ∷ ps

unfoldable pub split : ℕ → Bytes → List Bytes
split c [] = [] ∷ []
split c (b ∷ s) = let rest = split c s in if eqb b c then [] ∷ rest else cons_head b rest

-- `components.next()`, with the state of the iterator returned beside the item.
abbrev pub next_component : List Bytes → Result (Bytes × List Bytes) VersionError
next_component [] = err version_error
next_component (c ∷ cs) = ok (c, cs)

-- `components.next().is_some()`
abbrev pub has_next : List Bytes → Bool
has_next [] = false
has_next (c ∷ cs) = true

-- The body of `from_str`, from the iterator on.
unfoldable pub from_components : List Bytes → Result ContractVersion VersionError
from_components components = do
  (first, rest1) ← next_component components
  major ← parse_component first
  (second, rest2) ← next_component rest1
  minor ← parse_component second
  (third, rest3) ← next_component rest2
  patch ← parse_component third
  refuse_if (has_next rest3) version_error
  ok (record { major = major; minor = minor; patch = patch })

-- `impl FromStr for ContractVersion`
unfoldable pub from_str : Bytes → Result ContractVersion VersionError
unfolding from_components
from_str value = from_components (split b'.' value)

-- `impl Display for ContractVersion`
unfoldable pub to_string : ContractVersion → Bytes
to_string v = print_u64 v.major ++ (b'.' ∷ (print_u64 v.minor ++ (b'.' ∷ print_u64 v.patch)))
