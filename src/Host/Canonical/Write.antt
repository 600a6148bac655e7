-- ===== src/Host/Canonical/Write.antt =====
-- The writer of packages/aiai-contracts/src/canonical.ts. `JSON.stringify` of a string is the
-- platform's, a parameter. The texts pushed to `out` are returned, joined.
use artificial_intelligence.Base.{
  List, Ordering, Result, [], cmp_bytes, codes, err, false, if◌then◌else◌, not, ok, refuse_if, true,
  ◌++◌, ◌==◌, ◌∷◌, bytes_ord, ◌>>=◌, ◌>>◌,
}
use artificial_intelligence.Host.Text.{Units}
use artificial_intelligence.Host.Canonical.{
  CanonicalJsonValue, Elements, Entries, null, boolean, string, array, object, nil, element, end,
  entry, CanonicalJsonRejection, non_nfc_string, non_ascii_object_key, is_ascii,
}

-- The name of a member, and what writing its value gives.
abbrev pub Written : Type 0
Written = Units × Result Units CanonicalJsonRejection

-- `Object.keys(record).sort()`, with the value that belongs to each name: by code units.
unfoldable pub insert_member : Written → List Written → List Written
insert_member (name, text) [] = (name, text) ∷ []
insert_member (name, text) ((other, text2) ∷ members) =
    let rest = insert_member (name, text) members in
    elim (cmp_bytes name other) [
      | Ordering.gt ↦ (other, text2) ∷ rest
      | _ ↦ (name, text) ∷ (other, text2) ∷ members
    ]

unfoldable pub sort_members : List Written → List Written
unfolding insert_member
sort_members [] = []
sort_members (m ∷ members) = insert_member m (sort_members members)

module _ (nfc stringify : Units → Units) where
  -- The loop over the sorted names; the separator stands before every member but the first.
  unfoldable pub push_members : Units → List Written → Result Units CanonicalJsonRejection
  push_members separator [] = ok []
  push_members separator ((name, text) ∷ members) = do
    refuse_if (not (is_ascii name)) non_ascii_object_key
    value ← text
    rest ← push_members (codes ",") members
    ok (separator ++ (stringify name ++ (codes ":" ++ (value ++ rest))))

  -- `write`. A value's text is made where it stands and asked for in the order of the names, which
  -- is the same since making it has no other effect.
  unfoldable mutual
    unfolding push_members sort_members

    pub write : CanonicalJsonValue → Result Units CanonicalJsonRejection
    write null = ok (codes "null")
    write (boolean true) = ok (codes "true")
    write (boolean false) = ok (codes "false")
    write (string value) =
        if not (nfc value == value) then err non_nfc_string else ok (stringify value)
    write (array elements) = do
      text ← write_elements [] elements
      ok (codes "[" ++ (text ++ codes "]"))
    write (object entries) = do
      text ← push_members [] (sort_members (write_entries entries))
      ok (codes "{" ++ (text ++ codes "}"))

    -- `value.forEach(write)`
    pub write_elements : Units → Elements → Result Units CanonicalJsonRejection
    write_elements separator nil = ok []
    write_elements separator (element value elements) = do
      text ← write value
      rest ← write_elements (codes ",") elements
      ok (separator ++ (text ++ rest))

    pub write_entries : Entries → List Written
    write_entries end = []
    write_entries (entry name value entries) = (name, write value) ∷ write_entries entries

  -- `encodeCanonicalJson`
  unfoldable pub encode_canonical_json : CanonicalJsonValue → Result Units CanonicalJsonRejection
  unfolding write
  encode_canonical_json value = write value
