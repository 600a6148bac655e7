-- ===== src/Host/Canonical.antt =====
-- packages/aiai-contracts/src/canonical.ts: the values of the contract's JSON profile, and the check
-- that a parsed payload must pass. `JSON.parse` and the normalization are the platform's: a parsed
-- value is a JSON value whose numbers are of any type `N`, and `nfc` is `value.normalize("NFC")`. An
-- object is the list of its members, each named once. The path in a message is left out.
pub mod Mirror
pub mod Reordered
pub mod Write
pub mod Order
pub mod Encodable
use artificial_intelligence.Base.{
  Bool, Option, Result, [], err, false, if◌then◌else◌, ltb, not, ok, ok_or, refuse_if, true, ◌==◌,
  ◌∷◌, bytes_ord, ◌>>=◌, ◌>>◌,
}
use artificial_intelligence.Contracts.Canonical.{Value, Values, Members}
use artificial_intelligence.Contracts.Canonical
use artificial_intelligence.Host.Text.{Units}

-- `CanonicalJsonValue`; it has no numbers.
mutual
  pub data CanonicalJsonValue : Type 0 where
    null : CanonicalJsonValue
    boolean : Bool → CanonicalJsonValue
    string : Units → CanonicalJsonValue
    array : Elements → CanonicalJsonValue
    object : Entries → CanonicalJsonValue

  pub data Elements : Type 0 where
    nil : Elements
    element : CanonicalJsonValue → Elements → Elements

  pub data Entries : Type 0 where
    end : Entries
    entry : Units → CanonicalJsonValue → Entries → Entries

-- A parsed value is of one of the kinds that are tested for, so `unsupported_value` never arises.
pub data CanonicalJsonRejection : Type 0 where
  malformed_json number_token non_nfc_string non_ascii_object_key : CanonicalJsonRejection
  unsupported_value : CanonicalJsonRejection

-- `isAscii`
abbrev pub is_ascii : Units → Bool
is_ascii [] = true
is_ascii (c ∷ s) = if ltb 0x7F c then false else is_ascii s

module _ {N : Type 0} (nfc : Units → Units) where
  -- `accept`
  unfoldable mutual
    pub accept : Value N → Result CanonicalJsonValue CanonicalJsonRejection
    accept Canonical.null = ok null
    accept (Canonical.bool b) = ok (boolean b)
    accept (Canonical.number n) = err number_token
    accept (Canonical.string text) =
        if not (nfc text == text) then err non_nfc_string else ok (string text)
    accept (Canonical.array values) = do elements ← accept_elements values; ok (array elements)
    accept (Canonical.object members) = do entries ← accept_entries members; ok (object entries)

    -- `value.map(accept)`
    pub accept_elements : Values N → Result Elements CanonicalJsonRejection
    accept_elements Canonical.nil = ok nil
    accept_elements (Canonical.element value values) = do
      first ← accept value
      rest ← accept_elements values
      ok (element first rest)

    -- The loop over `Object.entries(value)`.
    pub accept_entries : Members N → Result Entries CanonicalJsonRejection
    accept_entries Canonical.end = ok end
    accept_entries (Canonical.member name nested members) = do
      refuse_if (not (is_ascii name)) non_ascii_object_key
      value ← accept nested
      rest ← accept_entries members
      ok (entry name value rest)

  -- `decodeCanonicalJson`, over `TextDecoder` and `JSON.parse`, which may throw.
  unfoldable pub decode_canonical_json :
      {S : Type 0}
      → (S → Option Units)
      → (Units → Option (Value N))
      → S
      → Result CanonicalJsonValue CanonicalJsonRejection
  unfolding accept
  decode_canonical_json decode_text parse source = do
    text ← ok_or (decode_text source) malformed_json
    parsed ← ok_or (parse text) malformed_json
    accept parsed
