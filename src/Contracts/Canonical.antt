-- ===== src/Contracts/Canonical.antt =====
-- crates/aiai-contracts/src/canonical.rs: the check that a JSON value must pass before its bytes
-- are the contract's canonical ones. The crates `serde_json` and `unicode_normalization` are
-- parameters: `to_value` and `to_vec` with their errors, the normalization `nfc` on the bytes of a
-- text, and what a number is. The arms of `validate`, which has no wildcard, are the constructors
-- of a JSON value; a list of values or of members in order stands for an array or an object.
pub mod Parts
pub mod Laws
use artificial_intelligence.Base.{
  Bool, Bytes, Result, [], codes, err, if◌then◌else◌, ltb, map_err, not, ok, refuse_if, true, ◌&&◌,
  ◌++◌, ◌==◌, ◌>>◌, ◌∷◌, bytes_ord, ◌>>=◌,
}

mutual
  pub data Value (N : Type 0) : Type 0 where
    null : Value N
    bool : Bool → Value N
    number : N → Value N
    string : Bytes → Value N
    array : Values N → Value N
    object : Members N → Value N

  pub data Values (N : Type 0) : Type 0 where
    nil : Values N
    element : Value N → Values N → Values N

  pub data Members (N : Type 0) : Type 0 where
    end : Members N
    member : Bytes → Value N → Members N → Members N

pub data CanonicalJsonError (E : Type 0) : Type 0 where
  serialization : E → CanonicalJsonError E
  number_token non_nfc_string non_ascii_object_key : CanonicalJsonError E

-- The `Display` of `CanonicalJsonError`, with that of the library's error.
unfoldable pub to_string : {E : Type 0} → (E → Bytes) → CanonicalJsonError E → Bytes
to_string shown (serialization error) = codes "JSON serialization failed: " ++ shown error
to_string shown number_token = codes "JSON numeric tokens are forbidden"
to_string shown non_nfc_string = codes "JSON strings must be NFC"
to_string shown non_ascii_object_key = codes "contract object keys must be canonical ASCII"

-- `str::is_ascii`
abbrev pub is_ascii : Bytes → Bool
is_ascii [] = true
is_ascii (b ∷ bs) = ltb b 128 && is_ascii bs

-- `is_nfc`
abbrev pub is_nfc : (Bytes → Bytes) → Bytes → Bool
is_nfc nfc text = nfc text == text

module _ {N E : Type 0} (nfc : Bytes → Bytes) where
  -- `validate`, with the closures of its two loops.
  unfoldable mutual
    pub validate : Value N → Result (Unit {0}) (CanonicalJsonError E)
    validate null = ok tt
    validate (bool b) = ok tt
    validate (number n) = err number_token
    validate (string text) = if is_nfc nfc text then ok tt else err non_nfc_string
    validate (array values) = validate_values values
    validate (object members) = validate_members members

    pub validate_values : Values N → Result (Unit {0}) (CanonicalJsonError E)
    validate_values nil = ok tt
    validate_values (element value values) = validate value >> validate_values values

    pub validate_members : Members N → Result (Unit {0}) (CanonicalJsonError E)
    validate_members end = ok tt
    validate_members (member key nested members) = do
      refuse_if (not (is_ascii key)) non_ascii_object_key
      validate nested
      validate_members members

  unfoldable pub canonical_json :
      {T : Type 0}
      → (T → Result (Value N) E)
      → (Value N → Result Bytes E)
      → T
      → Result Bytes (CanonicalJsonError E)
  canonical_json to_value to_vec value = do
    json ← map_err serialization (to_value value)
    validate json
    map_err serialization (to_vec json)
