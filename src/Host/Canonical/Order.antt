-- ===== src/Host/Canonical/Order.antt =====
-- That the text of an object does not depend on the order of its members.
use artificial_intelligence.Base.{
  List, Result, [], ap, arith, codes, eq_of_cmp_bytes, gt_of_lt_bytes, lt_of_gt_bytes,
  lt_trans_bytes, ok, refl, ◌++◌, ◌>>=◌, ◌∙◌, ◌∷◌, ◌≡◌, ◌≢◌,
}
use artificial_intelligence.Host.Text.{Units}
use artificial_intelligence.Host.Canonical.{
  CanonicalJsonValue, Elements, Entries, array, object, nil, element, end, entry,
  CanonicalJsonRejection,
}
use artificial_intelligence.Host.Canonical.Write.{
  Written, insert_member, sort_members, write, write_elements, write_entries, push_members,
  encode_canonical_json,
}

insert_member_comm :
    (a b : Written) (l : List Written)
    → a.0 ≢ b.0
    → insert_member a (insert_member b l) ≡ insert_member b (insert_member a l)
unfolding insert_member
insert_member_comm (a, x) (b, y) [] h =
    ground (arith, eq_of_cmp_bytes a b, gt_of_lt_bytes a b, lt_of_gt_bytes a b)
insert_member_comm (a, x) (b, y) ((c, z) ∷ l) h = ground (
  arith,
  eq_of_cmp_bytes a b,
  eq_of_cmp_bytes a c,
  eq_of_cmp_bytes b c,
  gt_of_lt_bytes a b,
  lt_of_gt_bytes a b,
  gt_of_lt_bytes a c,
  gt_of_lt_bytes b c,
  lt_of_gt_bytes a c,
  lt_of_gt_bytes b c,
  lt_trans_bytes a b c,
  lt_trans_bytes b a c,
  lt_trans_bytes a c b,
  lt_trans_bytes b c a,
  insert_member_comm (a, x) (b, y) l,
)

-- Two values that differ in the order of the members of objects alone, at any depth.
mutual
  pub data SameValue : CanonicalJsonValue → CanonicalJsonValue → Type 0 where
    itself : (v : CanonicalJsonValue) → SameValue v v
    arrays : {es fs : Elements} → SameElements es fs → SameValue (array es) (array fs)
    objects : {es fs : Entries} → SameEntries es fs → SameValue (object es) (object fs)

  pub data SameElements : Elements → Elements → Type 0 where
    no_elements : SameElements nil nil
    elements :
        {v w : CanonicalJsonValue} {es fs : Elements}
        → SameValue v w
        → SameElements es fs
        → SameElements (element v es) (element w fs)

  pub data SameEntries : Entries → Entries → Type 0 where
    no_entries : SameEntries end end
    entries :
        (name : Units) {v w : CanonicalJsonValue} {es fs : Entries}
        → SameValue v w
        → SameEntries es fs
        → SameEntries (entry name v es) (entry name w fs)
    swapped :
        (n m : Units) (v w : CanonicalJsonValue) (es : Entries)
        → n ≢ m
        → SameEntries (entry n v (entry m w es)) (entry m w (entry n v es))
    in_turn : {es fs gs : Entries} → SameEntries es fs → SameEntries fs gs → SameEntries es gs

module _ (nfc stringify : Units → Units) where
  mutual
    unfolding write sort_members

    same_write :
        {v w : CanonicalJsonValue} → SameValue v w → write nfc stringify v ≡ write nfc stringify w
    same_write (itself v) = refl
    same_write (arrays {es} {fs} h) =
        ap
          (λ (r : Result Units CanonicalJsonRejection).
            r >>= λ text. ok (codes "[" ++ (text ++ codes "]")))
          (same_elements [] h)
    same_write (objects {es} {fs} h) =
        ap
          (λ (ms : List Written).
            push_members nfc stringify [] ms >>= λ text. ok (codes "{" ++ (text ++ codes "}")))
          (same_entries h)

    same_elements :
        (separator : Units) {es fs : Elements}
        → SameElements es fs
        → write_elements nfc stringify separator es ≡ write_elements nfc stringify separator fs
    same_elements separator no_elements = refl
    same_elements separator (elements h k) = λ i. same_write h i >>= λ text.
        same_elements (codes ",") k i >>= λ rest. ok (separator ++ (text ++ rest))

    same_entries :
        {es fs : Entries}
        → SameEntries es fs
        → sort_members (write_entries nfc stringify es)
          ≡ sort_members (write_entries nfc stringify fs)
    same_entries no_entries = refl
    same_entries (entries name h k) = λ i. insert_member (name, same_write h i) (same_entries k i)
    same_entries (swapped n m v w es d) =
        insert_member_comm (n, write nfc stringify v) (m, write nfc stringify w)
          (sort_members (write_entries nfc stringify es)) d
    same_entries (in_turn h k) = same_entries h ∙ same_entries k

  -- Two values that differ in the order of the members of their objects alone, at any depth, have one
  -- encoding, or are refused for one reason.
  pub encode-SameValue :
      (v w : CanonicalJsonValue)
      → SameValue v w
      → encode_canonical_json nfc stringify v ≡ encode_canonical_json nfc stringify w
  unfolding encode_canonical_json
  encode-SameValue v w h = same_write h
