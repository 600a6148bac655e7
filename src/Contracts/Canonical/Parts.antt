-- ===== src/Contracts/Canonical/Parts.antt =====
-- A value and the values inside it, and what canonical JSON asks of each.
use artificial_intelligence.Base.{All, Bytes, List, [], arith, refl, true, ◌++◌, ◌<◌, ◌∷◌, ◌≡◌, ◌≢◌}
use artificial_intelligence.Contracts.Canonical.{
  Value, Values, Members, number, string, array, object, nil, element, end, member,
  CanonicalJsonError, number_token, non_nfc_string, non_ascii_object_key, is_ascii,
}

module _ {N : Type 0} where
  -- A value and the values inside it, at any depth.
  unfoldable mutual
    pub parts : Value N → List (Value N)
    parts (array values) = array values ∷ parts_of_values values
    parts (object members) = object members ∷ parts_of_members members
    parts v = v ∷ []

    pub parts_of_values : Values N → List (Value N)
    parts_of_values nil = []
    parts_of_values (element v values) = parts v ++ parts_of_values values

    pub parts_of_members : Members N → List (Value N)
    parts_of_members end = []
    parts_of_members (member key v members) = parts v ++ parts_of_members members

  unfoldable pub member_names : Members N → List Bytes
  member_names end = []
  member_names (member key v members) = key ∷ member_names members

  -- What canonical JSON asks of a single part: it is no number, a text is its own normalization, and
  -- the names of an object's members are ASCII.
  abbrev pub IsPlain : (Bytes → Bytes) → Value N → Type 0
  IsPlain nfc (number n) = ⊥
  IsPlain nfc (string text) = nfc text ≡ text
  IsPlain nfc (object members) = All (All (λ b. b < 128)) (member_names members)
  IsPlain nfc v = Unit

module _ {N E : Type 0} where
  -- How a part gives rise to an error.
  abbrev pub Breaks : (Bytes → Bytes) → CanonicalJsonError E → Value N → Type 0
  Breaks nfc number_token (number n) = Unit
  Breaks nfc non_nfc_string (string text) = nfc text ≢ text
  Breaks nfc non_ascii_object_key (object members) =
      ¬ All (All (λ b. b < 128)) (member_names members)
  Breaks nfc e v = ⊥

pub is_ascii-All : (text : Bytes) → is_ascii text ≡ true → All (λ b. b < 128) text
is_ascii-All [] h = tt
is_ascii-All (b ∷ bs) h = (ground arith, is_ascii-All bs (ground arith))

pub All-is_ascii : (text : Bytes) → All (λ b. b < 128) text → is_ascii text ≡ true
All-is_ascii [] h = refl
All-is_ascii (b ∷ bs) h = ground (arith, h.0, All-is_ascii bs h.1)
