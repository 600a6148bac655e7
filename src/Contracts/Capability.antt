-- ===== src/Contracts/Capability.antt =====
-- crates/aiai-contracts/src/capability.rs: the bounded lowercase name of a capability.
use artificial_intelligence.Base.{
  Bool, Bytes, Ord, Result, arith, bytes_ord, derive_ord, err, if◌then◌else◌, ok, ℕ, ◌↔◌, ◌≡◌,
}
use artificial_intelligence.Contracts.Names
use artificial_intelligence.Contracts.Names.Shape.{IsName, is_canonical_iff}

abbrev pub capability_name_max_len : ℕ
capability_name_max_len = 64

pub data CapabilityNameError : Type 0 where
  capability_name_error : CapabilityNameError

pub record CapabilityName : Type 0 where
  pub as_str : Bytes

instance abbrev pub capability_name_ord : Ord CapabilityName
capability_name_ord = derive_ord bytes_ord (λ n. n.as_str) (λ a b e i. record { as_str = e i })

unfoldable pub is_canonical : Bytes → Bool
unfolding Names.is_canonical
is_canonical value = Names.is_canonical capability_name_max_len value

-- `impl TryFrom<String> for CapabilityName`
unfoldable pub try_from : Bytes → Result CapabilityName CapabilityNameError
try_from value =
    if is_canonical value then ok (record { as_str = value }) else err capability_name_error

-- `impl FromStr for CapabilityName`: the same on a copy of the text.
abbrev pub from_str : Bytes → Result CapabilityName CapabilityNameError
from_str value = try_from value

-- A capability name is accepted exactly if it is a name of the grammar with at most 64 bytes, and
-- it is kept as it was written.
pub try_from_iff :
    (s : Bytes) (n : CapabilityName)
    → (try_from s ≡ ok n) ↔ ((n.as_str ≡ s) × IsName capability_name_max_len s)
unfolding try_from is_canonical
try_from_iff s n = (
  λ h. (ground arith, (is_canonical_iff capability_name_max_len s).0 (ground arith)),
  λ h. ground (arith, (is_canonical_iff capability_name_max_len s).1 h.1),
)
